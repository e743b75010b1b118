-- ===== src/Account/Profile/Tests.antt =====
-- Runs of the second factor: Alice enrols and logs in; Bob, who is enrolled, begins again.
use legacy_store.Base.{ℕ, ◌≡◌, refl, true, false, [], ◌∷◌, some, Text, codes, eqb, Result, ok, err}
use legacy_store.Account.Rows.{Error, invalid_credential, two_factor_required, UserRow, coalesce}
use legacy_store.Account.Samples.{plain, alice, bob, store, two_users, safari, store_of, result_of}
use legacy_store.Account.Tables.{Database, visible_user, first}
use legacy_store.Account.Auth.{AuthResult, login}
use legacy_store.Account.Profile.{setup_2fa, verify_2fa, disable_2fa}
use legacy_store.Account.Profile.SecondFactor.{IsLetIn, verify_2fa-login, setup_2fa-login}

abbrev secret : Text
secret = codes "123456"

abbrev prepared : Database
prepared =
    (result_of (two_users, [], [])
      (setup_2fa plain two_users (visible_user two_users alice) (some secret) 50)).0

abbrev enrolled : Database
enrolled = result_of prepared (verify_2fa plain prepared 1 secret 60)

abbrev visit : Text → Result Error (Database × AuthResult)
visit code =
    login plain enrolled (codes "alice@mac.example") (codes "swordfish") code false safari
      (some (codes "token")) 100

abbrev answer : AuthResult
answer =
    (result_of
      (
        store,
        record { user = visible_user store alice; token = []; expires_at = 0; csrf_token = [] },
      )
      (visit secret)).1

prepared_run :
    setup_2fa plain two_users (visible_user two_users alice) (some secret) 50
    ≡ ok (prepared, secret, secret)
unfolding setup_2fa
prepared_run = refl

enrolled_run : verify_2fa plain prepared (visible_user two_users alice).id secret 60 ≡ ok enrolled
unfolding verify_2fa first setup_2fa legacy_store.Account.Tables.update visible_user eqb
enrolled_run = refl

visit_run : visit secret ≡ ok (store_of enrolled (visit secret), answer)
unfolding login first verify_2fa setup_2fa legacy_store.Account.Tables.update visible_user eqb
    legacy_store.Base.Strings.to_lower legacy_store.Base.Strings.trim_space
    legacy_store.Base.Strings.is_space
visit_run = refl

own_run : answer.user.id ≡ (visible_user two_users alice).id
unfolding visible_user login first verify_2fa setup_2fa legacy_store.Account.Tables.update eqb
    legacy_store.Base.Strings.to_lower legacy_store.Base.Strings.trim_space
    legacy_store.Base.Strings.is_space
own_run = refl

-- Without the code Alice is turned away.
codeless_run : visit [] ≡ err two_factor_required
unfolding login first verify_2fa setup_2fa legacy_store.Account.Tables.update visible_user eqb
    legacy_store.Base.Strings.to_lower legacy_store.Base.Strings.trim_space
    legacy_store.Base.Strings.is_space
codeless_run = refl

-- A user whose second factor is on turns it off with a code, and not without.
disabled_run : disable_2fa plain enrolled 1 [] 70 ≡ err invalid_credential
unfolding disable_2fa login first verify_2fa setup_2fa legacy_store.Account.Tables.update
    visible_user eqb legacy_store.Base.Strings.to_lower legacy_store.Base.Strings.trim_space
    legacy_store.Base.Strings.is_space
disabled_run = refl

verify_2fa-login_example :
    (plain.verify_totp secret secret 60 ≡ true) × (plain.verify_totp secret secret 100 ≡ true)
verify_2fa-login_example =
    verify_2fa-login plain two_users (visible_user two_users alice) (some secret) 50 60 100 secret
      (codes "alice@mac.example") (codes "swordfish") secret false safari (some (codes "token"))
      prepared_run enrolled_run visit_run own_run

abbrev enrolled_bob : UserRow
enrolled_bob = record bob { two_factor_enabled = true; two_factor_secret = some secret }

abbrev guarded : Database
guarded = record two_users { users = alice ∷ enrolled_bob ∷ [] }

abbrev dropped : Database
dropped =
    (result_of (guarded, [], [])
      (setup_2fa plain guarded (visible_user guarded enrolled_bob) (some (codes "654321")) 50)).0

dropped_run :
    setup_2fa plain guarded (visible_user guarded enrolled_bob) (some (codes "654321")) 50
    ≡ ok (dropped, codes "654321", codes "654321")
unfolding setup_2fa
dropped_run = refl

bob_run :
    first
      (legacy_store.Account.Tables.has_email (
        legacy_store.Base.Strings.to_lower
          (legacy_store.Base.Strings.trim_space (codes "bob@mac.example"))))
      guarded.users
    ≡ some enrolled_bob
unfolding first eqb legacy_store.Base.Strings.to_lower legacy_store.Base.Strings.trim_space
    legacy_store.Base.Strings.is_space
bob_run = refl

own_bob : enrolled_bob.id ≡ (visible_user guarded enrolled_bob).id
unfolding visible_user
own_bob = refl

password_run : plain.verify_password (coalesce enrolled_bob.password_hash) (codes "hunter22") ≡ true
unfolding eqb
password_run = refl

setup_2fa-login_example :
    IsLetIn plain dropped
      (visible_user guarded enrolled_bob).id
      (codes "bob@mac.example")
      (codes "hunter22")
      []
      (codes "token")
      false
      safari
      100
setup_2fa-login_example =
    setup_2fa-login plain guarded (visible_user guarded enrolled_bob) (some (codes "654321")) 50 100
      (codes "bob@mac.example") (codes "hunter22") [] (codes "token") false safari enrolled_bob
      dropped_run bob_run own_bob refl password_run refl

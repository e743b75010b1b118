-- ===== src/Account/Profile.antt =====
-- store_auth.go: a user's profile and second factor. An update of a row of `users` sets its
-- `updated_at`, as the table's trigger does.
pub mod SecondFactor
mod Tests
use legacy_store.Base.{
  ℕ, Bool, true, false, not, ◌&&◌, ◌||◌, Option, none, some, Text, if◌then◌else◌, Result, ok, err,
}
use legacy_store.Base.Strings.{trim_space}
use legacy_store.Account.Rows.{
  Error, not_found, database, invalid_credential, no_randomness, User, UserRow, coalesce, is_blank,
}
use legacy_store.Account.Auth.{Credentials}
use legacy_store.Account.Tables.{Database, first, update, has_id, visible_user, with_users}

-- `UserByID`
unfoldable pub user_by_id : Database → ℕ → Result Error User
user_by_id db n = elim (first (has_id n) db.users) [
  | none ↦ err not_found
  | some u ↦ ok (visible_user db u)
]

-- `COALESCE(NULLIF(value, ''), column)`
abbrev pub unless_empty : Text → Option Text → Option Text
unless_empty value column = if is_blank value then column else some value

abbrev with_profile : Text → Text → ℕ → UserRow → UserRow
with_profile nickname avatar_url now u = record u {
  nickname = unless_empty nickname u.nickname;
  avatar_url = unless_empty avatar_url u.avatar_url;
  updated_at = now;
}

abbrev pub with_two_factor : Option Text → Bool → Option ℕ → ℕ → UserRow → UserRow
with_two_factor secret enabled confirmed_at now u = record u {
  two_factor_enabled = enabled;
  two_factor_secret = secret;
  two_factor_confirmed_at = confirmed_at;
  updated_at = now;
}

-- `UPDATE users ... WHERE id = $1`
abbrev pub update_user : ℕ → (UserRow → UserRow) → Database → Database
update_user n f db = with_users (update (has_id n) f db.users) db

-- `UpdateProfile`: the update stays where no user is found.
unfoldable pub update_profile : Database → ℕ → Text → Text → ℕ → Database × Result Error User
unfolding user_by_id
update_profile db n nickname avatar_url now =
    let after = update_user n (with_profile (trim_space nickname) (trim_space avatar_url) now) db in
    (after, user_by_id after n)

module _ (k : Credentials) where
  -- `Setup2FA`: the secret and the URL that the answer holds.
  unfoldable pub setup_2fa :
      Database → User → Option Text → ℕ → Result Error (Database × Text × Text)
  setup_2fa db who none now = err no_randomness
  setup_2fa db who (some secret) now = ok (
    update_user who.id (with_two_factor (some secret) false none now) db,
    secret,
    k.totp_url who.email secret,
  )

  -- `Verify2FA`
  unfoldable pub verify_2fa : Database → ℕ → Text → ℕ → Result Error Database
  verify_2fa db n code now = elim (first (has_id n) db.users) [
    | none ↦ err database
    | some u ↦
        let secret = coalesce u.two_factor_secret in
        if is_blank secret || not (k.verify_totp secret code now)
        then err invalid_credential
        else ok (update_user n (λ v. with_two_factor v.two_factor_secret true (some now) now v) db)
  ]

  -- `Disable2FA`
  unfoldable pub disable_2fa : Database → ℕ → Text → ℕ → Result Error Database
  disable_2fa db n code now = elim (first (has_id n) db.users) [
    | none ↦ err database
    | some u ↦
        let secret = coalesce u.two_factor_secret in
        if u.two_factor_enabled && (is_blank secret || not (k.verify_totp secret code now))
        then err invalid_credential
        else ok (update_user n (with_two_factor none false none now) db)
  ]

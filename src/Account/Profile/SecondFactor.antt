-- ===== src/Account/Profile/SecondFactor.antt =====
-- What the changes of a second factor mean for the logins that follow.
use legacy_store.Base.{
  ℕ, ◌≡◌, ◌∙◌, refl, sym, subst, arith, inl, inr, true, false, not, ◌&&◌, ◌||◌, Bool, List, [], ◌∷◌,
  Option, none, some, Text, codes, All, All-mem, All-of_mem, any, Bool-cases, Option-cases, ok,
  ok-injective, err-is-not-ok, ap,
}
use legacy_store.Base.Strings.{trim_space, to_lower}
use legacy_store.Account.Rows.{User, UserRow, Client, coalesce, is_active, is_blank}
use legacy_store.Account.Auth.{
  Credentials, AuthResult, login, login_row, enter, create_session, create_scoped_session,
}
use legacy_store.Account.Auth.Login.{login-IsAdmitted}
use legacy_store.Account.Tables.{Database, first, update, has_id, has_email, has_hash, visible_user}
use legacy_store.Account.Tables.Laws.{first-mem, first-pass, first-kept}
use legacy_store.Account.Profile.{setup_2fa, verify_2fa, update_user, with_two_factor}

module _ {A : Type 0} (p : A → Bool) (f : A → A) (Q R : A → Type 0) where
  update-marked :
      (xs : List A)
      → ((x : A) → Q x → R (f x))
      → All (λ x. p x ≡ true → Q x) xs
      → All (λ x. p x ≡ true → R x) (update p f xs)
  unfolding update
  update-marked [] g h = tt
  update-marked (x ∷ xs) g (a, h) = elim (Bool-cases (p x)) [
    | inl e ↦ rw e ((λ m. g x (a e)), update-marked xs g h)
    | inr e ↦ rw e ((λ m. ground (arith, e, m)), update-marked xs g h)
  ]

abbrev HasSecret : Text → UserRow → Type 0
HasSecret secret u = u.two_factor_secret ≡ some secret

abbrev AsksFor : Text → UserRow → Type 0
AsksFor secret u = (u.two_factor_secret ≡ some secret) × (u.two_factor_enabled ≡ true)

module _ (k : Credentials) where
  setup_2fa-HasSecret :
      (db : Database) (who : User) (drawn : Option Text) (now : ℕ) {after : Database}
      {shown url : Text}
      → setup_2fa k db who drawn now ≡ ok (after, shown, url)
      → All (λ u. has_id who.id u ≡ true → HasSecret shown u) after.users
  unfolding setup_2fa
  setup_2fa-HasSecret db who none now h = absurd (err-is-not-ok h)
  setup_2fa-HasSecret db who (some secret) now h =
      subst
        (λ (r : Database × Text × Text).
          All (λ u. has_id who.id u ≡ true → HasSecret r.1 u) (r.0).users)
        (ok-injective h)
        (update-marked (has_id who.id) (with_two_factor (some secret) false none now) (λ u. Unit)
          (HasSecret secret) db.users (λ u m. refl) (All-of_mem _ db.users (λ u m e. tt)))

  verify_2fa-AsksFor :
      (db : Database) (n : ℕ) (secret code : Text) (now : ℕ) {after : Database}
      → All (λ u. has_id n u ≡ true → HasSecret secret u) db.users
      → verify_2fa k db n code now ≡ ok after
      → (k.verify_totp secret code now ≡ true)
        × All (λ u. has_id n u ≡ true → AsksFor secret u) after.users
  unfolding verify_2fa
  verify_2fa-AsksFor db n secret code now held h = elim (Option-cases (first (has_id n) db.users)) [
    | inl missing ↦ absurd (err-is-not-ok (rw (missing, verify_2fa) at h))
    | inr (u, found) ↦
        let kept : HasSecret secret u =
          All-mem _ u db.users held (first-mem _ db.users found) (first-pass _ db.users found) in
        let stored = coalesce u.two_factor_secret in
        let tested = rw (found, verify_2fa) at h in
        elim (Bool-cases (is_blank stored || not (k.verify_totp stored code now))) [
          | inl wrong ↦ absurd (err-is-not-ok (rw wrong at tested))
          | inr right ↦
              let same : coalesce u.two_factor_secret ≡ secret = ap coalesce kept in
              (
                rw (sym same) (ground arith),
                subst (λ d. All (λ v. has_id n v ≡ true → AsksFor secret v) d.users)
                    (ok-injective (rw right at tested))
                    (update-marked (has_id n) _ (HasSecret secret) (AsksFor secret) db.users
                      (λ v e. (e, refl)) held),
              )
        ]
  ]

  -- After `Setup2FA` of a user and a `Verify2FA` that succeeds, the code that `Verify2FA` got
  -- belongs to the secret that `Setup2FA` has shown, and a `Login` of the user that succeeds has
  -- been given a code for this secret.
  pub verify_2fa-login :
      (db : Database) (who : User) (drawn : Option Text) (start confirmed later : ℕ)
      (first_code email password code : Text) (remember : Bool) (client : Client)
      (token : Option Text) {prepared enrolled after : Database} {shown url : Text}
      {result : AuthResult}
      → setup_2fa k db who drawn start ≡ ok (prepared, shown, url)
      → verify_2fa k prepared who.id first_code confirmed ≡ ok enrolled
      → login k enrolled email password code remember client token later ≡ ok (after, result)
      → result.user.id ≡ who.id
      → (k.verify_totp shown first_code confirmed ≡ true) × (k.verify_totp shown code later ≡ true)
  unfolding visible_user
  verify_2fa-login db who drawn start confirmed later first_code email password code remember client
        token {prepared} {enrolled} {after} {shown} {url} {result} set verified entered own =
      let held = setup_2fa-HasSecret db who drawn start set in
      let (checked, asks) =
        verify_2fa-AsksFor prepared who.id shown first_code confirmed held verified in
      let (u, admitted, e) =
        login-IsAdmitted k enrolled email password code remember client token later entered in
      let same : u.id ≡ who.id = sym (ap (λ v. v.id) e.shows) ∙ own in
      let (kept, on) =
        All-mem _ u enrolled.users asks (first-mem _ enrolled.users admitted.is_registered)
          (ground (arith, same)) in
      let stored : coalesce u.two_factor_secret ≡ shown = ap coalesce kept in
      (
        checked,
        subst (λ s. k.verify_totp s code later ≡ true) stored (admitted.has_second_factor on),
      )

  enter_accepts :
      (who : User) (remember : Bool) (client : Client) (token : Text) (now : ℕ) (action : Text)
      (db : Database)
      → any (has_hash (k.token_hash token)) db.sessions ≡ false
      → (after : Database) × (result : AuthResult) × (enter k who remember client
            (some token)
            now
            action
            db
          ≡ ok (after, result))
        × (result.user ≡ who)
  unfolding enter create_session create_scoped_session
  enter_accepts who remember client token now action db fresh = rw fresh (_, _, refl, refl)

  -- `Login` of this user succeeds.
  abbrev pub IsLetIn : Database → ℕ → Text → Text → Text → Text → Bool → Client → ℕ → Type 0
  IsLetIn db n email password code token remember client now =
      (after : Database) × (result : AuthResult) × (login k db email password code remember client
          (some token) now
        ≡ ok (after, result))
      × (result.user.id ≡ n)

  login_row_accepts :
      (db : Database) (u : UserRow) (password code token : Text) (remember : Bool) (client : Client)
      (now : ℕ)
      → is_active u.status ≡ true
      → k.verify_password (coalesce u.password_hash) password ≡ true
      → u.two_factor_enabled ≡ false
      → any (has_hash (k.token_hash token)) db.sessions ≡ false
      → (after : Database) × (result : AuthResult) × (login_row k db u password code remember client
            (some token)
            now
          ≡ ok (after, result))
        × (result.user ≡ visible_user db u)
  unfolding login_row
  login_row_accepts db u password code token remember client now act right off fresh =
      let (after, result, entered, shows) =
        enter_accepts (visible_user db u) remember client token now (codes "auth.login") db fresh in
      let admits : not (is_active u.status)
            || not (k.verify_password (coalesce u.password_hash) password)
          ≡ false =
        ground arith in
      let passes : u.two_factor_enabled
            && not (k.verify_totp (coalesce u.two_factor_secret) code now)
          ≡ false =
        ground arith in
      (after, result, rw admits (rw passes entered), shows)

  -- After a `Setup2FA`, whether the second factor was on before or not, `Login` of the active
  -- user that the email finds succeeds with the right password and any code, if no session has
  -- the hash of the new token.
  pub setup_2fa-login :
      (db : Database) (who : User) (drawn : Option Text) (start later : ℕ)
      (email password code token : Text) (remember : Bool) (client : Client) (u : UserRow)
      {prepared : Database} {shown url : Text}
      → setup_2fa k db who drawn start ≡ ok (prepared, shown, url)
      → first (has_email (to_lower (trim_space email))) db.users ≡ some u
      → u.id ≡ who.id
      → is_active u.status ≡ true
      → k.verify_password (coalesce u.password_hash) password ≡ true
      → any (has_hash (k.token_hash token)) db.sessions ≡ false
      → IsLetIn prepared who.id email password code token remember client later
  unfolding setup_2fa login visible_user
  setup_2fa-login db who none start later email password code token remember client u set found own
        act right fresh =
      absurd (err-is-not-ok set)
  setup_2fa-login db who (some secret) start later email password code token remember client u set
        found own act right fresh =
      let change = with_two_factor (some secret) false none start in
      let ready = update_user who.id change db in
      let mine : has_id who.id u ≡ true = ground (arith, own) in
      let row =
        first-kept (has_id who.id) (has_email (to_lower (trim_space email))) change db.users
          (λ v. refl) found in
      let there : first (has_email (to_lower (trim_space email))) ready.users ≡ some (change u) =
        rw mine at row in
      let (after, result, entered, shows) =
        login_row_accepts ready (change u) password code token remember client later act right refl
          fresh in
      subst (λ d. IsLetIn d who.id email password code token remember client later)
        (ap (λ (p : Database × Text × Text). p.0) (ok-injective set))
        (after, result, rw (there, login) entered, ap (λ v. v.id) shows ∙ own)

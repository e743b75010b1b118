-- ===== src/Account/Auth/Login.antt =====
-- What a login checks, and the session that it opens.
use legacy_store.Base.{
  ℕ, ◌≡◌, ◌<◌, refl, sym, ap, ◌∙◌, ◌||◌, inl, inr, arith, Bool, true, false, not, ◌&&◌, [], ◌∷◌,
  ◌++◌, Option, none, some, Text, codes, eqb, eqb_iff, any, All, All-mem, Bool-cases, Option-cases,
  ok, ok-injective, err-is-not-ok,
}
use legacy_store.Base.Strings.{trim_space, to_lower}
use legacy_store.Account.Rows.{
  User, Session, UserRow, SessionRow, Client, coalesce, is_blank, is_active, web,
}
use legacy_store.Account.Tables.{
  Database, first, has_id, has_email, has_hash, is_open, live_session, visible_user,
  visible_session, roles,
}
use legacy_store.Account.Tables.Laws.{first-mem, first-any, first-and, first-append, any-weaken}
use legacy_store.Account.Auth.{
  Credentials, AuthResult, session_end, new_session, create_scoped_session, create_session, enter,
  login_row, login,
}
use legacy_store.Account.Sessions.{user_by_session, owner}
use legacy_store.Account.Sessions.Live.{user_by_session-accepts}

-- Each user's key finds the user.
abbrev pub HasKeys : Database → Type 0
HasKeys db = All (λ u. first (has_id u.id) db.users ≡ some u) db.users

visible_user_same :
    (db after : Database) (u : UserRow)
    → after.user_roles ≡ db.user_roles
    → visible_user after u ≡ visible_user db u
unfolding visible_user roles
visible_user_same db after u same = simp same

module _ (k : Credentials) where
  -- The checks of a login.
  pub record IsAdmitted (db : Database) (email password code : Text) (now : ℕ) (u : UserRow)
      : Type 0 where
    pub is_registered : first (has_email (to_lower (trim_space email))) db.users ≡ some u
    pub is_active : is_active u.status ≡ true
    pub knows_password : k.verify_password (coalesce u.password_hash) password ≡ true
    pub has_second_factor :
        u.two_factor_enabled ≡ true → k.verify_totp (coalesce u.two_factor_secret) code now ≡ true

  -- The users stay; one session is new, of the user, with a hash that no session had.
  pub record IsEntered (db : Database) (who : User) (remember : Bool) (now : ℕ) (after : Database)
      (result : AuthResult) : Type 0 where
    pub session : SessionRow
    pub same_users : after.users ≡ db.users
    pub same_roles : after.user_roles ≡ db.user_roles
    pub adds : after.sessions ≡ db.sessions ++ session ∷ []
    pub was_fresh : any (has_hash session.token_hash) db.sessions ≡ false
    pub of_token : session.token_hash ≡ k.token_hash result.token
    pub of_user : session.user_id ≡ who.id
    pub not_revoked : session.revoked_at ≡ none
    pub ends : session.expires_at ≡ session_end remember now
    pub result_ends : result.expires_at ≡ session_end remember now
    pub shows : result.user ≡ who

  enter-IsEntered :
      (who : User) (remember : Bool) (client : Client) (token : Option Text) (now : ℕ)
      (action : Text) (db : Database) {after : Database} {result : AuthResult}
      → enter k who remember client token now action db ≡ ok (after, result)
      → IsEntered db who remember now after result
  unfolding enter create_session create_scoped_session
  enter-IsEntered who remember client none now action db h = absurd (err-is-not-ok h)
  enter-IsEntered who remember client (some token) now action db {after} {result} h =
      elim (Bool-cases (any (has_hash (k.token_hash token)) db.sessions)) [
        | inl used ↦ absurd (err-is-not-ok (rw used at h))
        | inr fresh ↦
            let same = ok-injective (rw fresh at h) in
            record {
              session = new_session k db who.id remember client web [] 0 [] token now;
              same_users = sym (ap (λ p. (p.0).users) same);
              same_roles = sym (ap (λ p. (p.0).user_roles) same);
              adds = sym (ap (λ p. (p.0).sessions) same);
              was_fresh = fresh;
              of_token = ap (λ p. k.token_hash (p.1).token) same;
              of_user = refl;
              not_revoked = refl;
              ends = refl;
              result_ends = sym (ap (λ p. (p.1).expires_at) same);
              shows = sym (ap (λ p. (p.1).user) same);
            }
      ]

  login_row-IsAdmitted :
      (db : Database) (u : UserRow) (email password code : Text) (remember : Bool) (client : Client)
      (token : Option Text) (now : ℕ) {after : Database} {result : AuthResult}
      → first (has_email (to_lower (trim_space email))) db.users ≡ some u
      → login_row k db u password code remember client token now ≡ ok (after, result)
      → IsAdmitted db email password code now u
        × IsEntered db (visible_user db u) remember now after result
  unfolding login_row
  login_row-IsAdmitted db u email password code remember client token now found h =
      let valid = k.verify_password (coalesce u.password_hash) password in
      let checked = k.verify_totp (coalesce u.two_factor_secret) code now in
      elim (Bool-cases (not (is_active u.status) || not valid)) [
        | inl wrong ↦ absurd (err-is-not-ok (rw wrong at h))
        | inr right ↦ elim (Bool-cases (u.two_factor_enabled && not checked)) [
          | inl missing ↦ absurd (err-is-not-ok (rw missing at (rw right at h)))
          | inr passed ↦ (
            record {
              is_registered = found;
              is_active = ground arith;
              knows_password = ground arith;
              has_second_factor = λ on. ground arith;
            },
            enter-IsEntered (visible_user db u) remember client token now (codes "auth.login") db
                (rw passed at (rw right at h)),
          )
        ]
      ]

  -- A `Login` that succeeds has found an active user by the email, the user's password and, where
  -- the second factor is on, a code for its secret; it returns that user, and adds one session of
  -- the user, for the token, to the sessions.
  pub login-IsAdmitted :
      (db : Database) (email password code : Text) (remember : Bool) (client : Client)
      (token : Option Text) (now : ℕ) {after : Database} {result : AuthResult}
      → login k db email password code remember client token now ≡ ok (after, result)
      → (u : UserRow) × IsAdmitted db email password code now u
        × IsEntered db (visible_user db u) remember now after result
  unfolding login login_row
  login-IsAdmitted db email password code remember client token now h =
      elim (Option-cases (first (has_email (to_lower (trim_space email))) db.users)) [
        | inl missing ↦ absurd (err-is-not-ok (rw (missing, login) at h))
        | inr (u, found) ↦
            let (admitted, entered) =
              login_row-IsAdmitted db u email password code remember client token now found
                (rw (found, login) at h) in
            (u, admitted, entered)
      ]

  entered_owner :
      (db : Database) (who : User) (remember : Bool) (now : ℕ) (u : UserRow) {after : Database}
      {result : AuthResult} (e : IsEntered db who remember now after result)
      → first (has_id who.id) db.users ≡ some u
      → is_active u.status ≡ true
      → owner after e.session ≡ some u
  entered_owner db who remember now u {after} e owned act =
      let found = first-and (has_id who.id) (λ x. is_active x.status) db.users owned act in
      simp (e.of_user, e.same_users, found)

  -- The session of an entry is the one that its token finds, until it ends.
  enter-live_session :
      (db : Database) (who : User) (remember : Bool) (now later : ℕ) (u : UserRow)
      {after : Database} {result : AuthResult} (e : IsEntered db who remember now after result)
      → first (has_id who.id) db.users ≡ some u
      → is_active u.status ≡ true
      → later < result.expires_at
      → first (live_session after (k.token_hash result.token) later) after.sessions ≡ some e.session
  unfolding first
  enter-live_session db who remember now later u {after} {result} e owned act before =
      let hash = k.token_hash result.token in
      let live = live_session after hash later in
      let test = e.of_token in
      let fresh : any live db.sessions ≡ false =
        any-weaken (has_hash e.session.token_hash) live db.sessions (λ s n. ground (arith, n, test))
          e.was_fresh in
      let matches : eqb e.session.token_hash hash ≡ true =
        (eqb_iff e.session.token_hash hash).1 test in
      let open_then : is_open later e.session ≡ true =
        ground (arith, e.not_revoked, e.ends, e.result_ends, before) in
      let owned_still = first-any _ after.users (entered_owner db who remember now u e owned act) in
      let passes : live e.session ≡ true = rw matches (rw open_then owned_still) in
      let found : first live (e.session ∷ []) ≡ some e.session = rw passes refl in
      simp (e.adds, first-append live db.sessions (e.session ∷ []) fresh, found)

  -- After a `Login` of a database whose keys find their users, until the session ends,
  -- `UserBySession` accepts the token that the login returned, if it is not empty, from any
  -- client, and returns the same user.
  pub login-user_by_session :
      (db : Database) (email password code : Text) (remember : Bool) (client other : Client)
      (token : Option Text) (now later : ℕ) {after : Database} {result : AuthResult}
      → HasKeys db
      → login k db email password code remember client token now ≡ ok (after, result)
      → is_blank result.token ≡ false
      → later < result.expires_at
      → (touched : Database) × (session : Session) × (user_by_session k.token_hash after
            result.token other later
          ≡ ok (touched, result.user, session))
  unfolding visible_user
  login-user_by_session db email password code remember client other token now later {after}
        {result} keys h given before =
      let (u, admitted, e) = login-IsAdmitted db email password code remember client token now h in
      let stored = first-mem _ db.users admitted.is_registered in
      let owned = All-mem _ u db.users keys stored in
      let who = visible_user db u in
      let live = enter-live_session db who remember now later u e owned admitted.is_active before in
      let mine = entered_owner db who remember now u e owned admitted.is_active in
      let (last, found) =
        user_by_session-accepts k.token_hash after result.token other later e.session u given live
          mine in
      let shown = visible_user_same db after u e.same_roles ∙ sym e.shows in
      (
        last,
        visible_session e.session,
        found ∙ ap (λ x. ok (last, x, visible_session e.session)) shown,
      )

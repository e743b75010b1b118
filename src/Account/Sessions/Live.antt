-- ===== src/Account/Sessions/Live.antt =====
-- Which sessions are accepted.
use legacy_store.Base.{
  ℕ, ◌≡◌, ◌<◌, refl, inl, inr, arith, true, false, none, some, Text, eqb, Mem, Bool-cases,
  Option-cases, ok, err, sym, ap, ok-injective, err-is-not-ok,
}
use legacy_store.Account.Rows.{
  unauthorized, User, Session, UserRow, SessionRow, Client, is_blank, is_active, active,
}
use legacy_store.Account.Tables.{
  Database, first, update, has_hash, live_session, visible_user, visible_session, with_sessions,
}
use legacy_store.Account.Tables.Laws.{first-update, first-pass, first-mem}
use legacy_store.Account.Sessions.{user_by_session, logout, revoked, owner, touched, has_session_id}

module _ (token_hash : Text → Text) where
  -- After `Logout` with a token, `UserBySession` refuses that token at every time, whoever sends
  -- it.
  pub logout-user_by_session :
      (db : Database) (token : Text) (now later : ℕ) (client : Client)
      → user_by_session token_hash (logout token_hash db token now) token client later
        ≡ err unauthorized
  unfolding user_by_session logout
  logout-user_by_session db token now later client = elim (Bool-cases (is_blank token)) [
    | inl blank ↦ rw blank refl
    | inr given ↦
        let hash = token_hash token in
        let after = with_sessions (update (has_hash hash) (revoked now) db.sessions) db in
        let gone : first (live_session after hash later) after.sessions ≡ none =
          first-update (has_hash hash) (live_session after hash later) (revoked now) db.sessions
            (λ s e. ground arith) (λ s e. ground (arith, e)) in
        rw given (rw gone refl)
  ]

  -- The row whose session is accepted, and its owner.
  pub record IsAccepted (db : Database) (token : Text) (now : ℕ) (who : User) (session : Session)
      : Type 0 where
    pub row : SessionRow
    pub account : UserRow
    pub stored : Mem row db.sessions
    pub same_token : eqb row.token_hash (token_hash token) ≡ true
    pub not_revoked : row.revoked_at ≡ none
    pub not_expired : now < row.expires_at
    pub registered : Mem account db.users
    pub is_owner : account.id ≡ row.user_id
    pub is_active : account.status ≡ active
    pub shows_user : who ≡ visible_user db account
    pub shows_session : session ≡ visible_session row

  active_of : (u : UserRow) → is_active u.status ≡ true → u.status ≡ active
  active_of u h = ground arith

  -- Whoever `UserBySession` returns is an active user of the database, the owner of a stored
  -- session with the token's hash, which is not revoked and has not expired.
  pub user_by_session-IsAccepted :
      (db : Database) (token : Text) (client : Client) (now : ℕ) {after : Database} {who : User}
      {session : Session}
      → user_by_session token_hash db token client now ≡ ok (after, who, session)
      → IsAccepted db token now who session
  unfolding user_by_session
  user_by_session-IsAccepted db token client now {after} {who} {session} h =
      elim (Bool-cases (is_blank token)) [
        | inl blank ↦ ground (arith, h, blank)
        | inr given ↦
            elim (Option-cases (first (live_session db (token_hash token) now) db.sessions)) [
              | inl missing ↦ absurd (err-is-not-ok (rw missing at (rw given at h)))
              | inr (s, found) ↦ elim (Option-cases (owner db s)) [
                | inl missing ↦ absurd (err-is-not-ok (rw missing at (rw found at (rw given at h))))
                | inr (u, owned) ↦
                    let same = ok-injective (rw owned at (rw found at (rw given at h))) in
                    let fits =
                      first-pass (live_session db (token_hash token) now) db.sessions found in
                    let belongs = first-pass _ db.users owned in
                    record {
                      row = s;
                      account = u;
                      stored = first-mem _ db.sessions found;
                      same_token = ground arith;
                      not_revoked = ground arith;
                      not_expired = ground arith;
                      registered = first-mem _ db.users owned;
                      is_owner = ground arith;
                      is_active = active_of u (ground arith);
                      shows_user = sym (ap (λ p. p.1) same);
                      shows_session = sym (ap (λ p. p.2) same);
                    }
              ]
            ]
      ]

  -- What is accepted: a row that passes the query, whose owner is active.
  pub user_by_session-accepts :
      (db : Database) (token : Text) (client : Client) (now : ℕ) (s : SessionRow) (u : UserRow)
      → is_blank token ≡ false
      → first (live_session db (token_hash token) now) db.sessions ≡ some s
      → owner db s ≡ some u
      → (after : Database) × (user_by_session token_hash db token client now
          ≡ ok (after, visible_user db u, visible_session s))
  unfolding user_by_session
  user_by_session-accepts db token client now s u given live mine = (
    with_sessions (update (has_session_id s.id) (touched client now) db.sessions) db,
    rw given (rw live (rw mine refl)),
  )

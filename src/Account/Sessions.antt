-- ===== src/Account/Sessions.antt =====
-- store_auth.go: the sessions of a user. `token_hash` is `tokenHash` of password.go.
pub mod Live
use legacy_store.Base.{
  ℕ, Bool, true, false, not, ◌&&◌, ◌||◌, List, [], ◌∷◌, ◌++◌, Option, none, some, Text, ltb, ◌==◌,
  eqb, if◌then◌else◌, map, any, Result, ok, err,
}
use legacy_store.Base.Sorting.{sort}
use legacy_store.Account.Rows.{
  Error, unauthorized, not_found, User, Session, SessionRow, UserRow, Client, is_blank, truncate,
  is_active,
}
use legacy_store.Account.Tables.{
  Database, first, update, select, has_id, has_hash, is_open, live_session, visible_user,
  visible_session, with_sessions,
}

abbrev has_session_id : ℕ → SessionRow → Bool
has_session_id n s = s.id == n

abbrev touched : Client → ℕ → SessionRow → SessionRow
touched client now s = record s {
  ip_address = client.ip;
  user_agent = some (truncate client.user_agent 512);
  last_seen_at = now;
}

abbrev pub revoked : ℕ → SessionRow → SessionRow
revoked now s = record s { revoked_at = some now }

abbrev pub owner : Database → SessionRow → Option UserRow
owner db s = first (λ u. has_id s.user_id u && is_active u.status) db.users

module _ (token_hash : Text → Text) where
  -- `UserBySession`: the user, the session as it was, and the database with the session touched.
  unfoldable pub user_by_session :
      Database → Text → Client → ℕ → Result Error (Database × User × Session)
  user_by_session db token client now =
      if is_blank token
      then err unauthorized
      else elim (first (live_session db (token_hash token) now) db.sessions) [
        | none ↦ err unauthorized
        | some s ↦ elim (owner db s) [
          | none ↦ err unauthorized
          | some u ↦ ok (
            with_sessions (update (has_session_id s.id) (touched client now) db.sessions) db,
            visible_user db u,
            visible_session s,
          )
        ]
      ]

  -- `Logout`
  unfoldable pub logout : Database → Text → ℕ → Database
  logout db token now =
      if is_blank token
      then db
      else with_sessions (update (has_hash (token_hash token)) (revoked now) db.sessions) db

-- `RevokeSession`
unfoldable pub revoke_session : Database → ℕ → ℕ → ℕ → Result Error Database
revoke_session db user_id session_id now =
    let chosen : SessionRow → Bool = λ s. (s.id == session_id) && (s.user_id == user_id) in
    if any chosen db.sessions
    then ok (with_sessions (update chosen (revoked now) db.sessions) db)
    else err not_found

-- `ListSessions`: the user's open sessions, the one seen last first.
unfoldable pub list_sessions : Database → ℕ → ℕ → List Session
list_sessions db user_id now = map visible_session (
    sort (λ a b. ltb b.last_seen_at a.last_seen_at)
      (select (λ s. (s.user_id == user_id) && is_open now s) db.sessions))

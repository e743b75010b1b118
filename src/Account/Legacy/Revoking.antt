-- ===== src/Account/Legacy/Revoking.antt =====
-- A legacy password that is deleted opens nothing any more.
use legacy_store.Base.{
  ℕ, ◌≡◌, ◌≢◌, ◌<◌, sym, ap, ◌∙◌, subst, arith, Bool, true, not, Option, none, some, Text, inl, inr,
  any, Bool-cases, ok, ok-injective, err-is-not-ok,
}
use legacy_store.Account.Rows.{User, Session, SessionRow, Client}
use legacy_store.Account.LegacyRows.{LegacyTables}
use legacy_store.Account.Legacy.{
  is_password_of, has_password_id, is_session_with, close_sessions_with, delete_legacy_password,
}
use legacy_store.Account.Recovery.Closing.{AreClosed, update_closed, accepted_kept}
use legacy_store.Account.Sessions.{user_by_session}
use legacy_store.Account.Tables.{Database, visible_session}

-- The session does not come from the legacy password.
abbrev comes_from_elsewhere : ℕ → SessionRow → Bool
comes_from_elsewhere n s = not (has_password_id n s.legacy_password_id)

close_sessions_with-AreClosed :
    (user_id password_id now : ℕ) (db : Database)
    → AreClosed user_id
        (comes_from_elsewhere password_id)
        (close_sessions_with user_id password_id now db)
unfolding close_sessions_with
close_sessions_with-AreClosed user_id password_id now db =
    update_closed user_id now (comes_from_elsewhere password_id)
      (is_session_with user_id password_id) db.sessions
      (λ s e mine from. ground (arith, e, mine, from))

elsewhere_shown :
    (password_id : ℕ) (s : SessionRow)
    → 0 < password_id
    → comes_from_elsewhere password_id s ≡ true
    → (visible_session s).legacy_password_id ≢ password_id
unfolding visible_session
elsewhere_shown password_id s positive h = go s.legacy_password_id h
  where
    go :
        (o : Option ℕ)
        → not (has_password_id password_id o) ≡ true
        → (elim o [ none ↦ 0 | some n ↦ n ]) ≢ password_id
    go none e = λ x. omega (arith, positive, x)
    go (some n) e = λ x. ground (arith, e, x)

-- After a `DeleteLegacyPassword` that succeeds, whoever `UserBySession` accepts as its owner does
-- not come with a session of that password.
pub delete_legacy_password_accepted :
    (token_hash : Text → Text) (t t' : LegacyTables) (user_id password_id now later : ℕ)
    (token : Text) (client : Client) {after : Database} {who : User} {session : Session}
    → 0 < password_id
    → delete_legacy_password t user_id password_id now ≡ ok t'
    → user_by_session token_hash t'.database token client later ≡ ok (after, who, session)
    → who.id ≡ user_id
    → session.legacy_password_id ≢ password_id
unfolding delete_legacy_password
delete_legacy_password_accepted token_hash t t' user_id password_id now later token client positive
      h found mine =
    elim (Bool-cases (any (is_password_of user_id password_id) t.passwords)) [
      | inr missing ↦ absurd (err-is-not-ok (rw missing at h))
      | inl there ↦
          let same = ap (λ x. x.database) (ok-injective (rw there at h)) in
          let closed =
            subst (AreClosed user_id (comes_from_elsewhere password_id)) same
              (close_sessions_with-AreClosed user_id password_id now t.database) in
          let (s, kept, shown) =
            accepted_kept token_hash user_id (comes_from_elsewhere password_id) t'.database token
              client later closed found mine in
          λ e.
            elsewhere_shown password_id s positive kept
              (sym (ap (λ x. x.legacy_password_id) shown) ∙ e)
    ]

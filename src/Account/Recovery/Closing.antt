-- ===== src/Account/Recovery/Closing.antt =====
-- Changing or recovering a password closes sessions.
use legacy_store.Base.{
  ◌⊎◌, ℕ, ◌≡◌, ◌≢◌, refl, sym, ap, ◌∙◌, arith, Bool, true, false, ◌||◌, List, [], ◌∷◌, Option, none,
  some, Text, inl, inr, ◌==◌, ==_iff, eqb, eqb_iff, All, All-mem, Bool-cases, Option-cases, ok, err,
  ok-injective, err-is-not-ok, >>=-eq-ok, subst,
}
use legacy_store.Base.Strings.{trim_space}
use legacy_store.Account.Rows.{
  User, Session, UserRow, SessionRow, Client, coalesce, is_blank, recovery_token_invalid,
}
use legacy_store.Account.Auth.{Credentials}
use legacy_store.Account.Recovery.{
  change_password, complete_password_recovery, spend_token, is_bad_password, is_open_token,
  is_session_of, revoke_all, spent,
}
use legacy_store.Account.Security.{user_row, reauthenticate, is_other_session, revoke_others}
use legacy_store.Account.Sessions.{user_by_session, revoked}
use legacy_store.Account.Sessions.Live.{user_by_session-IsAccepted}
use legacy_store.Account.Tables.{
  Database, first, update, is_not_revoked, visible_user, visible_session,
}
use legacy_store.Account.Tables.Laws.{first-pass, first-mem}
use legacy_store.Account.Vault.{Vault, RecoveryToken}

-- Every session of the user but `keep` is revoked.
abbrev pub AreClosed : ℕ → (SessionRow → Bool) → Database → Type 0
AreClosed n keep db =
    All (λ s. (s.user_id == n) ≡ true → keep s ≡ false → is_not_revoked s ≡ false) db.sessions

pub update_closed :
    (n now : ℕ) (keep : SessionRow → Bool) (p : SessionRow → Bool) (rows : List SessionRow)
    → ((s : SessionRow)
        → p s ≡ false
        → (s.user_id == n) ≡ true
        → keep s ≡ false
        → is_not_revoked s ≡ false)
    → All
        (λ s. (s.user_id == n) ≡ true → keep s ≡ false → is_not_revoked s ≡ false)
        (update p (revoked now) rows)
unfolding update
update_closed n now keep p [] f = tt
update_closed n now keep p (s ∷ rows) f = elim (Bool-cases (p s)) [
  | inl e ↦ rw e ((λ a b. refl), update_closed n now keep p rows f)
  | inr e ↦ rw e (f s e, update_closed n now keep p rows f)
]

pub revoke_others-AreClosed :
    (n current now : ℕ) (db : Database)
    → AreClosed n (λ s. s.id == current) (revoke_others n current now db)
unfolding revoke_others
revoke_others-AreClosed n current now db =
    update_closed n now (λ s. s.id == current) (is_other_session n current) db.sessions
      (λ s e mine other. ground (arith, e, mine, other))

revoke_all-AreClosed : (n now : ℕ) (db : Database) → AreClosed n (λ s. false) (revoke_all n now db)
unfolding revoke_all
revoke_all-AreClosed n now db =
    update_closed n now (λ s. false) (is_session_of n) db.sessions
      (λ s e mine other. ground (arith, e, mine))

-- A session of the user that is accepted is one that was kept.
pub accepted_kept :
    (token_hash : Text → Text) (n : ℕ) (keep : SessionRow → Bool) (db : Database) (token : Text)
    (client : Client) (now : ℕ) {after : Database} {who : User} {session : Session}
    → AreClosed n keep db
    → user_by_session token_hash db token client now ≡ ok (after, who, session)
    → who.id ≡ n
    → (s : SessionRow) × (keep s ≡ true) × (session ≡ visible_session s)
unfolding visible_user
accepted_kept token_hash n keep db token client now closed h mine =
    let a = user_by_session-IsAccepted token_hash db token client now h in
    let same : a.row.user_id ≡ n = sym a.is_owner ∙ (sym (ap (λ w. w.id) a.shows_user) ∙ mine) in
    elim (Bool-cases (keep a.row)) [
      | inl kept ↦ (a.row, kept, a.shows_session)
      | inr lost ↦
          let shut =
            All-mem _ a.row db.sessions closed a.stored ((==_iff a.row.user_id n).1 same) lost in
          ground (arith, shut, a.not_revoked)
    ]

module _ (k : Credentials) where
  reauthenticate_checked :
      (v : Vault) (n : ℕ) (password totp_code recovery_code : Text) (now : ℕ) {w : Vault}
      → reauthenticate k v n password totp_code recovery_code now ≡ ok w
      → (u : UserRow) × (user_row v.database n ≡ ok u)
        × (k.verify_password (coalesce u.password_hash) password ≡ true)
  unfolding reauthenticate
  reauthenticate_checked v n password totp_code recovery_code now h =
      let (u, found, h₁) = >>=-eq-ok (user_row v.database n) _ h in
      elim (Bool-cases (k.verify_password (coalesce u.password_hash) password)) [
        | inl right ↦ (u, found, right)
        | inr wrong ↦ absurd (err-is-not-ok (rw wrong at h₁))
      ]

  change_password-AreClosed :
      (v : Vault) (n current : ℕ) (password new_password totp_code recovery_code : Text)
      (salt : Option Text) (now : ℕ) {w : Vault}
      → change_password k v n current password new_password totp_code recovery_code salt now ≡ ok w
      → AreClosed n (λ s. s.id == current) w.database
        × ((u : UserRow) × (user_row v.database n ≡ ok u)
            × (k.verify_password (coalesce u.password_hash) password ≡ true))
  unfolding change_password
  change_password-AreClosed v n current password new_password totp_code recovery_code salt now h =
      elim (Bool-cases (is_bad_password new_password)) [
        | inl bad ↦ absurd (err-is-not-ok (rw bad at h))
        | inr good ↦
            let (w', checked, h₁) =
              >>=-eq-ok (reauthenticate k v n password totp_code recovery_code now) _
                (rw good at h) in
            elim (Option-cases salt) [
              | inl missing ↦ absurd (err-is-not-ok (rw missing at h₁))
              | inr (s, drawn) ↦
                  let same = ap (λ x. x.database) (ok-injective (rw drawn at h₁)) in
                  (
                    subst (AreClosed n (λ s. s.id == current)) same
                        (revoke_others-AreClosed n current now _),
                    reauthenticate_checked v n password totp_code recovery_code now checked,
                  )
            ]
      ]

  -- After a `ChangePassword` that succeeds, whoever `UserBySession` accepts as this user comes
  -- with the session that made the change, whatever the token; and the change was made with the
  -- password that the user had before.
  pub change_password_accepted :
      (v w : Vault) (n current : ℕ) (password new_password totp_code recovery_code : Text)
      (salt : Option Text) (now later : ℕ) (token : Text) (client : Client) {after : Database}
      {who : User} {session : Session}
      → change_password k v n current password new_password totp_code recovery_code salt now ≡ ok w
      → user_by_session k.token_hash w.database token client later ≡ ok (after, who, session)
      → who.id ≡ n
      → (session.id ≡ current)
        × ((u : UserRow) × (user_row v.database n ≡ ok u)
            × (k.verify_password (coalesce u.password_hash) password ≡ true))
  unfolding visible_session
  change_password_accepted v w n current password new_password totp_code recovery_code salt now
        later token client h found mine =
      let (closed, checked) =
        change_password-AreClosed v n current password new_password totp_code recovery_code salt now
          h in
      let (s, kept, shown) =
        accepted_kept k.token_hash n (λ s. s.id == current) w.database token client later closed
          found mine in
      (ap (λ x. x.id) shown ∙ (==_iff s.id current).0 kept, checked)

  complete_spends :
      (v : Vault) (token new_password : Text) (salt : Option Text) (now : ℕ) (t : RecoveryToken)
      {w : Vault}
      → first (is_open_token (k.token_hash token) now) v.recovery_tokens ≡ some t
      → complete_password_recovery k v token new_password salt now ≡ ok w
      → (hash : Text) × (spend_token k v t hash now ≡ w)
  unfolding complete_password_recovery
  complete_spends v token new_password salt now t found h =
      elim (Bool-cases (is_blank (trim_space token) || is_bad_password new_password)) [
        | inl bad ↦ absurd (err-is-not-ok (rw (bad, complete_password_recovery) at h))
        | inr good ↦ elim (Option-cases salt) [
          | inl missing ↦ absurd (err-is-not-ok (rw missing at (rw found at (rw good at h))))
          | inr (s, drawn) ↦ (
            k.hash_password s new_password,
            ok-injective (rw drawn at (rw found at (rw good at h))),
          )
        ]
      ]

  -- After a `CompletePasswordRecovery` that succeeds with a token, `UserBySession` accepts nobody
  -- as the token's user: no session that was open before is left.
  pub complete_password_recovery_accepted :
      (v w : Vault) (token new_password : Text) (salt : Option Text) (now later : ℕ)
      (t : RecoveryToken) (other : Text) (client : Client) {after : Database} {who : User}
      {session : Session}
      → first (is_open_token (k.token_hash token) now) v.recovery_tokens ≡ some t
      → complete_password_recovery k v token new_password salt now ≡ ok w
      → user_by_session k.token_hash w.database other client later ≡ ok (after, who, session)
      → who.id ≢ t.user_id
  unfolding spend_token
  complete_password_recovery_accepted v w token new_password salt now later t other client found h
        entered mine =
      let (hash, same) = complete_spends v token new_password salt now t found h in
      let closed =
        subst (AreClosed t.user_id (λ s. false)) (ap (λ x. x.database) same)
          (revoke_all-AreClosed t.user_id now _) in
      let (s, kept, shown) =
        accepted_kept k.token_hash t.user_id (λ s. false) w.database other client later closed
          entered mine in
      cc

  none_open :
      (hash : Text) (t : RecoveryToken) (now later : ℕ) (rows : List RecoveryToken)
      → eqb t.token_hash hash ≡ true
      → All (λ r. (eqb t.token_hash r.token_hash ≡ false) ⊎ (t.id ≡ r.id)) rows
      → first (is_open_token hash later) (update (λ r. r.id == t.id) (spent now) rows) ≡ none
  unfolding first update
  none_open hash t now later [] h a = refl
  none_open hash t now later (r ∷ rows) h (a, rest) = elim (Bool-cases (r.id == t.id)) [
    | inl e ↦ rw e (ground (arith, none_open hash t now later rows h rest))
    | inr e ↦
        let other : eqb r.token_hash hash ≡ false = ground (
          arith,
          a,
          e,
          h,
          eqb_iff t.token_hash hash,
          eqb_iff r.token_hash hash,
          eqb_iff t.token_hash r.token_hash,
        ) in
        rw e (rw other (none_open hash t now later rows h rest))
  ]

  -- Tokens with one hash are one row, as the table's index wants it.
  abbrev pub HaveOneRow : List RecoveryToken → Type 0
  HaveOneRow rows =
      All (λ r. All (λ s. (eqb r.token_hash s.token_hash ≡ false) ⊎ (r.id ≡ s.id)) rows) rows

  -- A recovery token that `CompletePasswordRecovery` has accepted is refused from then on, at any
  -- time and with any password, if rows with one hash are one row.
  pub complete_password_recovery_once :
      (v w : Vault) (token new_password next_password : Text) (salt next_salt : Option Text)
      (now later : ℕ)
      → HaveOneRow v.recovery_tokens
      → complete_password_recovery k v token new_password salt now ≡ ok w
      → complete_password_recovery k w token next_password next_salt later
        ≡ err recovery_token_invalid
  unfolding complete_password_recovery spend_token
  complete_password_recovery_once v w token new_password next_password salt next_salt now later one
        h =
      let hash = k.token_hash token in
      elim (Option-cases (first (is_open_token hash now) v.recovery_tokens)) [
        | inl missing ↦
            absurd
              (elim (Bool-cases (is_blank (trim_space token) || is_bad_password new_password)) [
                | inl bad ↦ err-is-not-ok (rw (bad, complete_password_recovery) at h)
                | inr good ↦ err-is-not-ok (rw missing at (rw good at h))
              ])
        | inr (t, found) ↦
            let (password, same) = complete_spends v token new_password salt now t found h in
            let mine = All-mem _ t v.recovery_tokens one (first-mem _ v.recovery_tokens found) in
            let matches : eqb t.token_hash hash ≡ true =
              ground (arith, first-pass (is_open_token hash now) v.recovery_tokens found) in
            let gone : first (is_open_token hash later) w.recovery_tokens ≡ none =
              rw (sym (ap (λ x. x.recovery_tokens) same))
                (none_open hash t now later v.recovery_tokens matches mine) in
            elim (Bool-cases (is_blank (trim_space token) || is_bad_password next_password)) [
              | inl bad ↦ rw bad refl
              | inr good ↦ rw good (rw gone refl)
            ]
      ]

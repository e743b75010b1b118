-- ===== src/Account/Recovery.antt =====
-- store_security.go: changing the password and the email, and recovering a password.
pub mod Closing
mod Tests
use legacy_store.Base.{
  ℕ, suc, ◌+◌, Bool, true, false, not, ◌&&◌, ◌||◌, List, [], ◌∷◌, ◌++◌, Option, none, some, Text,
  ltb, ◌==◌, eqb, if◌then◌else◌, length, any, Result, ok, err, ◌>>=◌,
}
use legacy_store.Base.Strings.{trim_space, to_lower, contains}
use legacy_store.Account.Rows.{
  Error, email_exists, invalid_credential, no_randomness, recovery_token_invalid, database, User,
  UserRow, SessionRow, is_blank, is_active,
}
use legacy_store.Account.Auth.{Credentials}
use legacy_store.Account.Profile.{update_user, user_by_id}
use legacy_store.Account.Security.{normalize_email, reauthenticate, revoke_others}
use legacy_store.Account.Sessions.{revoked}
use legacy_store.Account.Tables.{
  Database, first, update, select, has_id, has_email, is_not_revoked, with_sessions,
}
use legacy_store.Account.Vault.{Vault, RecoveryToken, is_unused}

abbrev pub is_bad_password : Text → Bool
is_bad_password password = ltb (length password) 8 || ltb 1024 (length password)

-- `UPDATE users SET password_hash = $2, password_changed_at = now()`
abbrev pub with_password : Text → ℕ → UserRow → UserRow
with_password hash now u = record u {
  password_hash = some hash;
  password_changed_at = some now;
  updated_at = now;
}

abbrev pub with_email : Text → ℕ → UserRow → UserRow
with_email email now u = record u {
  email = email;
  email_verified = false;
  email_changed_at = some now;
  updated_at = now;
}

-- `validEmail`; `parse_address` is the address that `mail.ParseAddress` reads.
abbrev pub is_valid_email : (Text → Option Text) → Text → Bool
is_valid_email parse_address email = elim (parse_address email) [
  | none ↦ false
  | some address ↦ eqb address email && contains email (b'@' ∷ [])
]

-- `passwordRecoveryTTL`, in seconds.
abbrev pub recovery_ttl : ℕ
recovery_ttl = 1800

abbrev pub is_open_token : Text → ℕ → RecoveryToken → Bool
is_open_token hash now t = eqb t.token_hash hash && is_unused t.used_at && ltb now t.expires_at

abbrev pub spent : ℕ → RecoveryToken → RecoveryToken
spent now t = record t { used_at = some now }

-- `UPDATE sessions SET revoked_at = now() WHERE user_id = $1 AND revoked_at IS NULL`
abbrev pub is_session_of : ℕ → SessionRow → Bool
is_session_of n s = (s.user_id == n) && is_not_revoked s

unfoldable pub revoke_all : ℕ → ℕ → Database → Database
unfolding update
revoke_all n now db = with_sessions (update (is_session_of n) (revoked now) db.sessions) db

module _ (k : Credentials) where
  -- `ChangePassword`
  unfoldable pub change_password :
      Vault → ℕ → ℕ → Text → Text → Text → Text → Option Text → ℕ → Result Error Vault
  unfolding select
  change_password v n current password new_password totp_code recovery_code salt now =
      if is_bad_password new_password
      then err invalid_credential
      else reauthenticate k v n password totp_code recovery_code now >>= λ w. elim salt [
        | none ↦ err no_randomness
        | some s ↦
            let hash = k.hash_password s new_password in
            ok (record w {
              database =
                  revoke_others n current now (update_user n (with_password hash now) w.database);
              recovery_tokens = select (λ t. not (t.user_id == n)) w.recovery_tokens;
            })
      ]

  -- `ChangeEmail`; the lower-case emails of the users are unique.
  unfoldable pub change_email :
      (Text → Option Text)
      → Vault
      → ℕ
      → ℕ
      → Text
      → Text
      → Text
      → Text
      → ℕ
      → Result Error (Vault × User)
  unfolding user_by_id
  change_email parse_address v n current new_email password totp_code recovery_code now =
      let email = normalize_email new_email in
      if not (is_valid_email parse_address email)
      then err invalid_credential
      else reauthenticate k v n password totp_code recovery_code now >>= λ w.
          let after =
            revoke_others n current now (update_user n (with_email email now) w.database) in
          if any (λ u. has_email (to_lower email) u && not (u.id == n)) (w.database).users
          then err email_exists
          else user_by_id after n >>= λ who. ok (record w { database = after }, who)

  new_token : Vault → ℕ → Text → ℕ → RecoveryToken
  new_token v n token now = record {
    id = v.next_token;
    user_id = n;
    token_hash = k.token_hash token;
    expires_at = now + recovery_ttl;
    used_at = none;
  }

  unfoldable pub issue_token : Vault → ℕ → Text → ℕ → Result Error (Vault × Option Text)
  unfolding select new_token
  issue_token v n token now =
      let kept = select (λ t. not ((t.user_id == n) && is_unused t.used_at)) v.recovery_tokens in
      if any (λ t. eqb t.token_hash (k.token_hash token)) kept
      then err database
      else ok (
        record v {
          recovery_tokens = kept ++ new_token v n token now ∷ [];
          next_token = suc v.next_token;
        },
        some token,
      )

  -- `BeginPasswordRecovery`: no token where no active user has the email.
  unfoldable pub begin_password_recovery :
      Vault → Text → Option Text → ℕ → Result Error (Vault × Option Text)
  unfolding issue_token
  begin_password_recovery v email drawn now =
      elim (first (λ u. has_email (normalize_email email) u && is_active u.status)
        (v.database).users) [
          | none ↦ ok (v, none)
          | some u ↦ elim drawn [
            | none ↦ err no_randomness
            | some token ↦ issue_token v u.id token now
          ]
        ]

  unfoldable pub spend_token : Vault → RecoveryToken → Text → ℕ → Vault
  unfolding update
  spend_token v t hash now = record v {
    database = revoke_all t.user_id now (update_user t.user_id (with_password hash now) v.database);
    recovery_tokens = update (λ r. r.id == t.id) (spent now) v.recovery_tokens;
  }

  -- `CompletePasswordRecovery`
  unfoldable pub complete_password_recovery :
      Vault → Text → Text → Option Text → ℕ → Result Error Vault
  unfolding spend_token
  complete_password_recovery v token new_password salt now =
      if is_blank (trim_space token) || is_bad_password new_password
      then err recovery_token_invalid
      else elim (first (is_open_token (k.token_hash token) now) v.recovery_tokens) [
        | none ↦ err recovery_token_invalid
        | some t ↦ elim salt [
          | none ↦ err no_randomness
          | some s ↦ ok (spend_token v t (k.hash_password s new_password) now)
        ]
      ]

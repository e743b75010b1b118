-- ===== src/Account/Security.antt =====
-- store_security.go: logging in with a second factor, and turning the factor on and off. An
-- operation that fails leaves the tables as they were.
use legacy_store.Base.{
  ℕ, Bool, true, false, not, ◌&&◌, ◌||◌, List, Option, none, some, Text, codes, ◌==◌, if◌then◌else◌,
  Result, ok, err, ◌>>=◌,
}
use legacy_store.Base.Strings.{trim_space, to_lower}
use legacy_store.Account.Rows.{
  Error, not_found, invalid_credential, database, UserRow, SessionRow, Client, coalesce, is_blank,
  is_active,
}
use legacy_store.Account.Auth.{Credentials, AuthResult, enter}
use legacy_store.Account.Profile.{update_user, with_two_factor}
use legacy_store.Account.Sessions.{revoked}
use legacy_store.Account.Tables.{
  Database, first, update, select, has_id, has_email, visible_user, is_not_revoked, with_sessions,
}
use legacy_store.Account.Vault.{Vault, verify_second_factor, regenerate_recovery_codes}

-- `normalizeEmail`
abbrev pub normalize_email : Text → Text
normalize_email email = to_lower (trim_space email)

-- The row that `SELECT ... WHERE id = $1` scans; no row is an error of the database.
unfoldable pub user_row : Database → ℕ → Result Error UserRow
user_row db n = elim (first (has_id n) db.users) [ none ↦ err database | some u ↦ ok u ]

-- `UPDATE sessions SET revoked_at = now() WHERE user_id = $1 AND id <> $2 AND revoked_at IS NULL`
abbrev pub is_other_session : ℕ → ℕ → SessionRow → Bool
is_other_session n current s = (s.user_id == n) && not (s.id == current) && is_not_revoked s

unfoldable pub revoke_others : ℕ → ℕ → ℕ → Database → Database
unfolding update
revoke_others n current now db =
    with_sessions (update (is_other_session n current) (revoked now) db.sessions) db

module _ (k : Credentials) where
  -- `if enabled { verifySecondFactorTx }`
  unfoldable pub check_second_factor : Vault → UserRow → Text → Text → ℕ → Result Error Vault
  check_second_factor v u totp_code recovery_code now =
      let checked =
        verify_second_factor k v u.id (coalesce u.two_factor_secret) totp_code recovery_code true
          now in
      if u.two_factor_enabled then checked else ok v

  -- The password and the second factor of the user with this id.
  unfoldable pub reauthenticate : Vault → ℕ → Text → Text → Text → ℕ → Result Error Vault
  unfolding user_row check_second_factor
  reauthenticate v n password totp_code recovery_code now = user_row v.database n >>= λ u.
      if not (k.verify_password (coalesce u.password_hash) password)
      then err invalid_credential
      else check_second_factor v u totp_code recovery_code now

  login_second_row :
      Vault
      → UserRow
      → Text
      → Text
      → Text
      → Bool
      → Client
      → Option Text
      → ℕ
      → Result Error (Vault × AuthResult)
  unfolding check_second_factor
  login_second_row v u password totp_code recovery_code remember client token now =
      if not (is_active u.status) || not (k.verify_password (coalesce u.password_hash) password)
      then err invalid_credential
      else check_second_factor v u totp_code recovery_code now >>= λ w.
          enter k (visible_user w.database u) remember client token now (codes "auth.login")
            w.database
          >>= λ (db, result). ok (record w { database = db }, result)

  -- `LoginWithSecondFactor`
  unfoldable pub login_with_second_factor :
      Vault
      → Text
      → Text
      → Text
      → Text
      → Bool
      → Client
      → Option Text
      → ℕ
      → Result Error (Vault × AuthResult)
  unfolding login_second_row
  login_with_second_factor v email password totp_code recovery_code remember client token now =
      elim (first (has_email (normalize_email email)) (v.database).users) [
        | none ↦ err invalid_credential
        | some u ↦ login_second_row v u password totp_code recovery_code remember client token now
      ]

  -- `VerifyCurrentPassword`
  unfoldable pub verify_current_password : Database → ℕ → Text → Result {0, 0} Error Unit
  verify_current_password db n password = elim (first (has_id n) db.users) [
    | none ↦ err not_found
    | some u ↦
        if k.verify_password (coalesce u.password_hash) password
        then ok tt
        else err invalid_credential
  ]

  -- `Confirm2FA`: the new recovery codes.
  unfoldable pub confirm_2fa :
      Vault → ℕ → Text → (ℕ → Option Text) → ℕ → Result Error (Vault × List Text)
  unfolding user_row
  confirm_2fa v n code draw now = user_row v.database n >>= λ u.
      let secret = coalesce u.two_factor_secret in
      let enabled =
        update_user n (λ row. with_two_factor row.two_factor_secret true (some now) now row)
          v.database in
      if is_blank secret || not (k.verify_totp secret code now)
      then err invalid_credential
      else regenerate_recovery_codes k (record v { database = enabled }) n draw

  -- `Disable2FAWithSecondFactor`
  unfoldable pub disable_2fa_with_second_factor :
      Vault → ℕ → ℕ → Text → Text → Text → ℕ → Result Error Vault
  unfolding reauthenticate select
  disable_2fa_with_second_factor v n current password totp_code recovery_code now =
      reauthenticate v n password totp_code recovery_code now >>= λ w. ok (record w {
        database =
            revoke_others n current now
              (update_user n (with_two_factor none false none now) w.database);
        recovery_codes = select (λ c. not (c.user_id == n)) w.recovery_codes;
      })

  -- `Regenerate2FARecoveryCodes`
  unfoldable pub regenerate_2fa_recovery_codes :
      Vault → ℕ → Text → Text → Text → (ℕ → Option Text) → ℕ → Result Error (Vault × List Text)
  unfolding user_row
  regenerate_2fa_recovery_codes v n password totp_code recovery_code draw now =
      user_row v.database n >>= λ u.
      if not (k.verify_password (coalesce u.password_hash) password) || not u.two_factor_enabled
      then err invalid_credential
      else verify_second_factor k v n (coalesce u.two_factor_secret) totp_code recovery_code true
          now
        >>= λ w. regenerate_recovery_codes k w n draw

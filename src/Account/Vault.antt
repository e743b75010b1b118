-- ===== src/Account/Vault.antt =====
-- The tables of store_security.go beside the users and the sessions, and the second factor:
-- `verifySecondFactorTx`, `regenerateRecoveryCodesTx` and `normalizeRecoveryCode`.
pub mod Once
mod Tests
use legacy_store.Base.{
  ℕ, zero, suc, ◌-◌, Bool, true, false, not, ◌&&◌, ◌||◌, List, [], ◌∷◌, ◌++◌, Option, none, some,
  Text, codes, ltb, ◌==◌, eqb, if◌then◌else◌, length, take, drop, any, Result, ok, err, ◌>>=◌,
}
use legacy_store.Base.Strings.{trim_space, to_upper, without}
use legacy_store.Account.Rows.{
  Error, two_factor_required, invalid_credential, no_randomness, database, UserRow, is_blank,
  coalesce,
}
use legacy_store.Account.Auth.{Credentials}
use legacy_store.Account.Tables.{Database, first, update, select, has_id}

-- A row of `two_factor_recovery_codes`.
pub record RecoveryCode : Type 0 where
  pub user_id : ℕ
  pub code_hash : Text
  pub used_at : Option ℕ

-- A row of `password_recovery_tokens`.
pub record RecoveryToken : Type 0 where
  pub id : ℕ
  pub user_id : ℕ
  pub token_hash : Text
  pub expires_at : ℕ
  pub used_at : Option ℕ

pub record Vault : Type 0 where
  pub database : Database
  pub recovery_codes : List RecoveryCode
  pub recovery_tokens : List RecoveryToken
  pub next_token : ℕ

abbrev pub is_unused : Option ℕ → Bool
is_unused none = true
is_unused (some t) = false

-- `normalizeRecoveryCode`
unfoldable pub normalize_recovery_code : Text → Text
normalize_recovery_code code = without b' ' (without b'-' (to_upper (trim_space code)))

-- `generateRecoveryCode`, from the base32 text of ten random bytes.
unfoldable pub format_recovery_code : Text → Text
format_recovery_code text =
    let encoded = to_upper text in
    take 4 encoded
    ++ (codes "-"
        ++ (take 4 (drop 4 encoded)
            ++ (codes "-" ++ (take 4 (drop 8 encoded) ++ (codes "-" ++ take 4 (drop 12 encoded))))))

-- The rows that a code may use up.
abbrev pub is_usable : ℕ → Text → RecoveryCode → Bool
is_usable n hash c = (c.user_id == n) && eqb c.code_hash hash && is_unused c.used_at

abbrev pub used : ℕ → RecoveryCode → RecoveryCode
used now c = record c { used_at = some now }

module _ (k : Credentials) where
  -- The second half of `verifySecondFactorTx`, for a normalized code.
  unfoldable pub verify_recovery_code : Vault → ℕ → Text → Bool → ℕ → Result Error Vault
  unfolding update select
  verify_recovery_code v n normalized consume now =
      let usable = is_usable n (k.token_hash normalized) in
      if is_blank normalized
      then err two_factor_required
      else if consume
      then (if length (select usable v.recovery_codes) == 1
          then ok (record v { recovery_codes = update usable (used now) v.recovery_codes })
          else err two_factor_required)
      else if any usable v.recovery_codes
      then ok v
      else err two_factor_required

  -- `verifySecondFactorTx`
  unfoldable pub verify_second_factor :
      Vault → ℕ → Text → Text → Text → Bool → ℕ → Result Error Vault
  unfolding verify_recovery_code
  verify_second_factor v n secret totp_code recovery_code consume now =
      if not (is_blank secret) && k.verify_totp secret (trim_space totp_code) now
      then ok v
      else verify_recovery_code v n (normalize_recovery_code recovery_code) consume now

  -- One round of the loop: the next code and its row; the pairs of user and hash are unique.
  add_code :
      ℕ → Option Text → List RecoveryCode × List Text → Result Error (List RecoveryCode × List Text)
  add_code n none state = err no_randomness
  add_code n (some text) (rows, given) =
      let code = format_recovery_code text in
      let hash = k.token_hash (normalize_recovery_code code) in
      if any (λ c. (c.user_id == n) && eqb c.code_hash hash) rows
      then err database
      else ok (
        rows ++ record { user_id = n; code_hash = hash; used_at = none } ∷ [],
        given ++ code ∷ [],
      )

  -- The rounds that are left; `draw` gives the random texts.
  unfoldable pub add_codes :
      ℕ
      → ℕ
      → (ℕ → Option Text)
      → List RecoveryCode × List Text
      → Result Error (List RecoveryCode × List Text)
  unfolding add_code
  add_codes n zero draw state = ok state
  add_codes n (suc left) draw state = add_code n (draw left) state >>= add_codes n left draw

  abbrev pub recovery_code_count : ℕ
  recovery_code_count = 10

  -- `regenerateRecoveryCodesTx`
  unfoldable pub regenerate_recovery_codes :
      Vault → ℕ → (ℕ → Option Text) → Result Error (Vault × List Text)
  unfolding add_codes select
  regenerate_recovery_codes v n draw =
      add_codes n recovery_code_count draw (select (λ c. not (c.user_id == n)) v.recovery_codes, [])
      >>= λ (rows, given). ok (record v { recovery_codes = rows }, given)

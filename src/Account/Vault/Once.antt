-- ===== src/Account/Vault/Once.antt =====
-- A recovery code stands in for the second factor once.
use legacy_store.Base.{
  ℕ, ◌≡◌, refl, arith, Bool, true, false, not, ◌&&◌, List, [], ◌∷◌, Text, inl, inr, ◌==◌, length,
  any, Bool-cases, ok, err, ok-injective, err-is-not-ok, ap, sym,
}
use legacy_store.Base.Strings.{trim_space}
use legacy_store.Account.Rows.{two_factor_required, is_blank}
use legacy_store.Account.Auth.{Credentials}
use legacy_store.Account.Tables.{update, select}
use legacy_store.Account.Vault.{
  Vault, RecoveryCode, is_usable, used, normalize_recovery_code, verify_recovery_code,
  verify_second_factor,
}

any-used :
    (n : ℕ) (hash : Text) (now : ℕ) (rows : List RecoveryCode)
    → any (is_usable n hash) (update (is_usable n hash) (used now) rows) ≡ false
unfolding update
any-used n hash now [] = refl
any-used n hash now (c ∷ rows) = elim (Bool-cases (is_usable n hash c)) [
  | inl e ↦ rw e (ground (arith, any-used n hash now rows))
  | inr e ↦ rw e (rw e (any-used n hash now rows))
]

select-of_any :
    (p : RecoveryCode → Bool) (rows : List RecoveryCode) → any p rows ≡ false → select p rows ≡ []
unfolding select
select-of_any p [] h = refl
select-of_any p (c ∷ rows) h = ground (arith, h, select-of_any p rows)

module _ (k : Credentials) where
  -- The code of the second factor is right.
  abbrev pub has_code : Text → Text → ℕ → Bool
  has_code secret totp_code now =
      not (is_blank secret) && k.verify_totp secret (trim_space totp_code) now

  spent_refused :
      (v w : Vault) (n : ℕ) (normalized : Text) (again : Bool) (now later : ℕ)
      → verify_recovery_code k v n normalized true now ≡ ok w
      → verify_recovery_code k w n normalized again later ≡ err two_factor_required
  unfolding verify_recovery_code
  spent_refused v w n normalized again now later h = elim (Bool-cases (is_blank normalized)) [
    | inl blank ↦ absurd (err-is-not-ok (rw blank at h))
    | inr given ↦
        let usable = is_usable n (k.token_hash normalized) in
        elim (Bool-cases (length (select usable v.recovery_codes) == 1)) [
          | inr never ↦ absurd (err-is-not-ok (rw never at (rw given at h)))
          | inl once ↦
              let same = ap (λ x. x.recovery_codes) (ok-injective (rw once at (rw given at h))) in
              let gone = any-used n (k.token_hash normalized) now v.recovery_codes in
              let gone_after : any usable w.recovery_codes ≡ false = rw (sym same) gone in
              rw given (
                rw gone_after
                  (rw (select-of_any usable w.recovery_codes gone_after) (ground arith)))
        ]
  ]

  -- A recovery code that has stood in for the second factor is refused the next time, whether it
  -- would be used up again or not, as long as the one-time code that comes with it is wrong too.
  pub verify_second_factor_once :
      (v w : Vault) (n : ℕ) (secret totp_code later_code recovery_code : Text) (again : Bool)
      (now later : ℕ)
      → verify_second_factor k v n secret totp_code recovery_code true now ≡ ok w
      → has_code secret totp_code now ≡ false
      → has_code secret later_code later ≡ false
      → verify_second_factor k w n secret later_code recovery_code again later
        ≡ err two_factor_required
  unfolding verify_second_factor
  verify_second_factor_once v w n secret totp_code later_code recovery_code again now later h
        first_no second_no =
      rw second_no (
        spent_refused v w n (normalize_recovery_code recovery_code) again now later
          (rw first_no at h))

-- ===== src/Account/Vault/Tests.antt =====
-- Runs of the recovery codes.
use legacy_store.Base.{
  ◌≡◌, refl, true, false, List, [], ◌∷◌, none, some, Text, codes, Result, ok, err,
}
use legacy_store.Account.Rows.{Error, two_factor_required}
use legacy_store.Account.Samples.{plain, two_users, result_of}
use legacy_store.Account.Vault.{Vault, RecoveryCode, format_recovery_code, verify_second_factor}
use legacy_store.Account.Vault.Once.{has_code, verify_second_factor_once}

format_run : format_recovery_code (codes "abcdefgh23456777") ≡ codes "ABCD-EFGH-2345-6777"
unfolding format_recovery_code legacy_store.Base.Strings.to_upper
format_run = refl

abbrev vault : Vault
vault = record {
  database = two_users;
  recovery_codes =
      record { user_id = 1; code_hash = codes "ABCDEFGH23456777"; used_at = none } ∷ [];
  recovery_tokens = [];
  next_token = 1;
}

abbrev written_code : Text
written_code = codes " abcd-efgh 2345-6777 "

abbrev spent : Result Error Vault
spent = verify_second_factor plain vault 1 (codes "123456") [] written_code true 100

spent_run : spent ≡ ok (result_of vault spent)
unfolding verify_second_factor legacy_store.Base.eqb legacy_store.Base.Strings.trim_space
    legacy_store.Account.Vault.normalize_recovery_code legacy_store.Base.Strings.without
    legacy_store.Base.Strings.to_upper legacy_store.Base.Strings.is_space
spent_run = refl

no_code_run : has_code plain (codes "123456") [] 100 ≡ false
unfolding legacy_store.Base.eqb legacy_store.Base.Strings.trim_space
no_code_run = refl

verify_second_factor_once_example :
    verify_second_factor plain (result_of vault spent) 1 (codes "123456") [] written_code false 200
    ≡ err two_factor_required
verify_second_factor_once_example =
    verify_second_factor_once plain vault (result_of vault spent) 1 (codes "123456") [] []
      written_code false 100 200 spent_run no_code_run no_code_run

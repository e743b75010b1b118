-- ===== src/Account/Recovery/Tests.antt =====
-- Runs of the change and the recovery of a password.
use legacy_store.Base.{
  inr, ◌≡◌, ◌≢◌, refl, true, List, [], ◌∷◌, none, some, Text, codes, Result, ok, err,
}
use legacy_store.Account.Rows.{Error, recovery_token_invalid, unauthorized, UserRow, coalesce}
use legacy_store.Account.Samples.{plain, safari, busy, admitted, result_of}
use legacy_store.Account.Security.{user_row}
use legacy_store.Account.Sessions.{user_by_session}
use legacy_store.Account.Recovery.{is_open_token, change_password, complete_password_recovery}
use legacy_store.Account.Recovery.Closing.{
  HaveOneRow, change_password_accepted, complete_password_recovery_accepted,
  complete_password_recovery_once,
}
use legacy_store.Account.Tables.{first}
use legacy_store.Account.Vault.{Vault, RecoveryToken}

abbrev letter : RecoveryToken
letter = record {
  id = 1;
  user_id = 1;
  token_hash = codes "letter";
  expires_at = 2000;
  used_at = none;
}

abbrev vault : Vault
vault = record {
  database = busy;
  recovery_codes = [];
  recovery_tokens = letter ∷ [];
  next_token = 2;
}

-- Alice changes her password in her first session.
abbrev changed : Result Error Vault
changed =
    change_password plain vault 1 1 (codes "swordfish") (codes "correct horse") [] [] (some []) 200

abbrev changed_vault : Vault
changed_vault = result_of vault changed

changed_run : changed ≡ ok changed_vault
unfolding change_password legacy_store.Account.Security.reauthenticate first
    legacy_store.Account.Auth.login legacy_store.Base.eqb legacy_store.Base.Strings.to_lower
    legacy_store.Base.Strings.trim_space legacy_store.Base.Strings.is_space
changed_run = refl

second_run :
    user_by_session (λ token. token) changed_vault.database (codes "second") safari 300
    ≡ err unauthorized
unfolding user_by_session first change_password legacy_store.Account.Security.reauthenticate
    legacy_store.Account.Auth.login legacy_store.Base.eqb legacy_store.Base.Strings.to_lower
    legacy_store.Base.Strings.trim_space legacy_store.Base.Strings.is_space
    legacy_store.Account.Security.revoke_others legacy_store.Base.Queries.update
    legacy_store.Base.Queries.select legacy_store.Account.Security.user_row
    legacy_store.Account.Tables.visible_user
second_run = refl

first_run :
    user_by_session (λ token. token) changed_vault.database (codes "first") safari 300
    ≡ ok (
        admitted
          (user_by_session (λ token. token) changed_vault.database (codes "first") safari 300))
unfolding user_by_session first change_password legacy_store.Account.Security.reauthenticate
    legacy_store.Account.Auth.login legacy_store.Base.eqb legacy_store.Base.Strings.to_lower
    legacy_store.Base.Strings.trim_space legacy_store.Base.Strings.is_space
    legacy_store.Account.Security.revoke_others legacy_store.Base.Queries.update
    legacy_store.Base.Queries.select legacy_store.Account.Security.user_row
    legacy_store.Account.Tables.visible_user
first_run = refl

who_run :
    (admitted
      (user_by_session (λ token. token) changed_vault.database (codes "first") safari 300)).1.id
    ≡ 1
unfolding user_by_session first change_password legacy_store.Account.Security.reauthenticate
    legacy_store.Account.Auth.login legacy_store.Base.eqb legacy_store.Base.Strings.to_lower
    legacy_store.Base.Strings.trim_space legacy_store.Base.Strings.is_space
    legacy_store.Account.Security.revoke_others legacy_store.Base.Queries.update
    legacy_store.Base.Queries.select legacy_store.Account.Security.user_row
    legacy_store.Account.Tables.visible_user
who_run = refl

change_password_accepted_example :
    ((admitted
        (user_by_session (λ token. token) changed_vault.database (codes "first") safari 300)).2.id
      ≡ 1)
    × ((u : UserRow) × (user_row busy 1 ≡ ok u)
        × (plain.verify_password (coalesce u.password_hash) (codes "swordfish") ≡ true))
unfolding user_by_session first change_password legacy_store.Account.Security.reauthenticate
    legacy_store.Account.Auth.login legacy_store.Base.eqb legacy_store.Base.Strings.to_lower
    legacy_store.Base.Strings.trim_space legacy_store.Base.Strings.is_space
change_password_accepted_example =
    change_password_accepted plain vault changed_vault 1 1 (codes "swordfish")
      (codes "correct horse") [] [] (some []) 200 300 (codes "first") safari changed_run first_run
      who_run

-- Alice has lost her password and follows the link that she was sent.
abbrev recovered : Result Error Vault
recovered =
    complete_password_recovery plain vault (codes "letter") (codes "correct horse") (some []) 200

abbrev recovered_vault : Vault
recovered_vault = result_of vault recovered

recovered_run : recovered ≡ ok recovered_vault
unfolding complete_password_recovery legacy_store.Base.Strings.trim_space
    legacy_store.Base.Strings.is_space first legacy_store.Base.eqb
recovered_run = refl

third_run :
    user_by_session (λ token. token) recovered_vault.database (codes "third") safari 300
    ≡ ok (
        admitted
          (user_by_session (λ token. token) recovered_vault.database (codes "third") safari 300))
unfolding user_by_session first complete_password_recovery legacy_store.Base.Strings.trim_space
    legacy_store.Base.Strings.is_space legacy_store.Base.eqb
    legacy_store.Account.Recovery.revoke_all legacy_store.Account.Auth.login
    legacy_store.Base.Strings.to_lower legacy_store.Account.Tables.visible_user
third_run = refl

closed_run :
    user_by_session (λ token. token) recovered_vault.database (codes "first") safari 300
    ≡ err unauthorized
unfolding user_by_session first complete_password_recovery legacy_store.Base.Strings.trim_space
    legacy_store.Base.Strings.is_space legacy_store.Base.eqb
    legacy_store.Account.Recovery.revoke_all legacy_store.Account.Auth.login
    legacy_store.Base.Strings.to_lower legacy_store.Account.Tables.visible_user
closed_run = refl

letter_run : first (is_open_token (codes "letter") 200) vault.recovery_tokens ≡ some letter
unfolding first legacy_store.Base.eqb
letter_run = refl

one_row : HaveOneRow plain vault.recovery_tokens
one_row = ((inr refl, tt), tt)

complete_password_recovery_accepted_example :
    (admitted
      (user_by_session (λ token. token) recovered_vault.database (codes "third") safari 300)).1.id
    ≢ 1
complete_password_recovery_accepted_example =
    complete_password_recovery_accepted plain vault recovered_vault (codes "letter")
      (codes "correct horse") (some []) 200 300 letter (codes "third") safari letter_run
      recovered_run third_run

complete_password_recovery_once_example :
    complete_password_recovery plain recovered_vault
      (codes "letter")
      (codes "battery staple")
      (some [])
      300
    ≡ err recovery_token_invalid
complete_password_recovery_once_example =
    complete_password_recovery_once plain vault recovered_vault (codes "letter")
      (codes "correct horse") (codes "battery staple") (some []) (some []) 200 300 one_row
      recovered_run

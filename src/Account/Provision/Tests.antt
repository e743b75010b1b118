-- ===== src/Account/Provision/Tests.antt =====
-- Runs of the start of the administrator's account.
use legacy_store.Base.{◌≡◌, refl, arith, [], some, Text, codes, Result, ok, err}
use legacy_store.Account.Provision.{ensure_admin}
use legacy_store.Account.Provision.Single.{admin_grants, ensure_admin_single}
use legacy_store.Account.Rows.{Error, other_admin}
use legacy_store.Account.Samples.{plain, two_users, result_of}
use legacy_store.Account.Tables.{Database}

abbrev ensured : Result Error Database
ensured =
    ensure_admin plain some two_users (codes "Bob@mac.example ") (codes "correct horse") []
      (some []) 100

ensured_run : ensured ≡ ok (result_of two_users ensured)
unfolding ensure_admin legacy_store.Base.eqb legacy_store.Base.Strings.to_lower
    legacy_store.Base.Strings.trim_space legacy_store.Base.Strings.is_space
    legacy_store.Base.Strings.contains
ensured_run = refl

-- A second address is refused.
other_run :
    ensure_admin plain some
      (result_of two_users ensured)
      (codes "alice@mac.example")
      (codes "correct horse")
      []
      (some [])
      200
    ≡ err other_admin
unfolding ensure_admin legacy_store.Base.eqb legacy_store.Base.Strings.to_lower
    legacy_store.Base.Strings.trim_space legacy_store.Base.Strings.is_space
    legacy_store.Base.Strings.contains legacy_store.Account.Tables.update
other_run = refl

grants_run : admin_grants two_users ≡ 0
unfolding legacy_store.Account.Tables.select
grants_run = refl

ensure_admin_single_example : admin_grants (result_of two_users ensured) ≡ 1
ensure_admin_single_example =
    ensure_admin_single plain some two_users (codes "Bob@mac.example ") (codes "correct horse") []
      (some []) 100 (omega (arith, grants_run)) ensured_run

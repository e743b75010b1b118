-- ===== src/Account/LegacyRows.antt =====
-- The tables of store_legacy.go and what it returns.
use legacy_store.Base.{
  ℕ, Bool, List, [], ◌∷◌, Option, none, some, Text, codes, eqb, any, if◌then◌else◌,
}
use legacy_store.Base.Strings.{trim_space}
use legacy_store.Account.Rows.{coalesce}
use legacy_store.Account.Tables.{Database}

-- A row of `legacy_passwords`.
pub record PasswordRow : Type 0 where
  pub id : ℕ
  pub user_id : ℕ
  pub name : Text
  pub token_hash : Text
  pub token_prefix : Text
  pub scopes : List Text
  pub last_used_at : Option ℕ
  pub revoked_at : Option ℕ
  pub created_at : ℕ

-- A row of `legacy_devices`.
pub record DeviceRow : Type 0 where
  pub id : ℕ
  pub user_id : ℕ
  pub legacy_password_id : Option ℕ
  pub device_identifier : Option Text
  pub device_name : Option Text
  pub last_ip : Option Text
  pub last_user_agent : Option Text
  pub last_seen_at : ℕ
  pub revoked_at : Option ℕ
  pub created_at : ℕ

pub record LegacyTables : Type 0 where
  pub database : Database
  pub passwords : List PasswordRow
  pub next_password : ℕ
  pub devices : List DeviceRow
  pub next_device : ℕ

pub record LegacyPassword : Type 0 where
  pub id : ℕ
  pub name : Text
  pub prefix : Text
  pub scopes : List Text
  pub last_used_at : Option ℕ
  pub created_at : ℕ

pub record LegacyDevice : Type 0 where
  pub id : ℕ
  pub legacy_password_id : ℕ
  pub device_identifier : Text
  pub device_name : Text
  pub last_ip : Text
  pub last_user_agent : Text
  pub last_seen_at : ℕ
  pub created_at : ℕ

abbrev pub visible_password : PasswordRow → LegacyPassword
visible_password p = record {
  id = p.id;
  name = p.name;
  prefix = p.token_prefix;
  scopes = p.scopes;
  last_used_at = p.last_used_at;
  created_at = p.created_at;
}

abbrev pub visible_device : DeviceRow → LegacyDevice
visible_device d = record {
  id = d.id;
  legacy_password_id = elim d.legacy_password_id [ none ↦ 0 | some n ↦ n ];
  device_identifier = coalesce d.device_identifier;
  device_name = coalesce d.device_name;
  last_ip = coalesce d.last_ip;
  last_user_agent = coalesce d.last_user_agent;
  last_seen_at = d.last_seen_at;
  created_at = d.created_at;
}

-- `defaultLegacyScopes`
abbrev pub default_legacy_scopes : List Text
default_legacy_scopes =
    codes "catalog:read"
    ∷ codes "downloads:read"
    ∷ codes "reviews:write"
    ∷ codes "reviews:like"
    ∷ codes "profile:read_basic"
    ∷ []

abbrev pub is_listed : List Text → Text → Bool
is_listed scopes scope = any (λ s. eqb s scope) scopes

-- The loop of `sanitizeLegacyScopes`; `seen` holds what has been taken.
unfoldable pub clean_scopes : List Text → List Text → List Text
clean_scopes seen [] = []
clean_scopes seen (raw ∷ scopes) =
    let scope = trim_space raw in
    let skipped = clean_scopes seen scopes in
    let taken = scope ∷ clean_scopes (scope ∷ seen) scopes in
    if is_listed default_legacy_scopes scope
    then (if is_listed seen scope then skipped else taken)
    else skipped

abbrev pub or_default : List Text → List Text
or_default [] = default_legacy_scopes
or_default (s ∷ scopes) = s ∷ scopes

-- `sanitizeLegacyScopes`
unfoldable pub sanitize_legacy_scopes : List Text → List Text
unfolding clean_scopes
sanitize_legacy_scopes scopes = or_default (clean_scopes [] scopes)

-- ===== src/Account/Rows.antt =====
-- The rows that the account store reads and writes, the values it returns, and the helpers that
-- its operations share. A timestamp is a number of seconds; a NULL column is `none`. An IP
-- address is its text, `none` for the nil IP.
use legacy_store.Base.{
  ℕ, Bool, true, false, List, [], ◌∷◌, ◌++◌, Option, none, some, Text, codes, leb, ◌==◌, eqb,
  if◌then◌else◌, length, take, any,
}
use legacy_store.Base.Strings.{trim_space}

pub data Error : Type 0 where
  email_exists : Error
  invalid_credential : Error
  unauthorized : Error
  forbidden : Error
  not_found : Error
  two_factor_required : Error
  recovery_token_invalid : Error
  -- `EnsureAdmin` refuses the email or the password; another user is the administrator.
  weak_admin : Error
  other_admin : Error
  -- `rand.Read` fails.
  no_randomness : Error
  -- An error of the database: no row to scan, or a constraint.
  database : Error

-- The names of the `roles` table, in their order as texts.
pub data Role : Type 0 where
  admin : Role
  guest : Role
  moder : Role
  trusted : Role
  uploader : Role
  user : Role

pub data UserStatus : Type 0 where
  active : UserStatus
  disabled : UserStatus
  pending : UserStatus

pub data AuthKind : Type 0 where
  web : AuthKind
  legacy : AuthKind

abbrev role_rank : Role → ℕ
role_rank admin = 0
role_rank guest = 1
role_rank moder = 2
role_rank trusted = 3
role_rank uploader = 4
role_rank user = 5

abbrev pub same_role : Role → Role → Bool
same_role a b = role_rank a == role_rank b

abbrev pub is_active : UserStatus → Bool
is_active active = true
is_active _ = false

abbrev pub is_web : AuthKind → Bool
is_web web = true
is_web legacy = false

pub record User : Type 0 where
  pub id : ℕ
  pub email : Text
  pub nickname : Text
  pub avatar_url : Text
  pub email_verified : Bool
  pub two_factor_enabled : Bool
  pub status : UserStatus
  pub roles : List Role
  pub created_at : ℕ
  pub updated_at : ℕ

pub record Session : Type 0 where
  pub id : ℕ
  pub device_name : Text
  pub ip_address : Text
  pub user_agent : Text
  pub remember_me : Bool
  pub auth_kind : AuthKind
  pub scopes : List Text
  pub legacy_password_id : ℕ
  pub legacy_device_identifier : Text
  pub expires_at : ℕ
  pub last_seen_at : ℕ
  pub created_at : ℕ

-- A row of `users`.
pub record UserRow : Type 0 where
  pub id : ℕ
  pub email : Text
  pub password_hash : Option Text
  pub nickname : Option Text
  pub avatar_url : Option Text
  pub email_verified : Bool
  pub two_factor_enabled : Bool
  pub two_factor_secret : Option Text
  pub two_factor_confirmed_at : Option ℕ
  pub status : UserStatus
  pub created_at : ℕ
  pub updated_at : ℕ
  pub password_changed_at : Option ℕ
  pub email_changed_at : Option ℕ

-- A row of `sessions`.
pub record SessionRow : Type 0 where
  pub id : ℕ
  pub user_id : ℕ
  pub token_hash : Text
  pub remember_me : Bool
  pub device_name : Option Text
  pub ip_address : Option Text
  pub user_agent : Option Text
  pub expires_at : ℕ
  pub revoked_at : Option ℕ
  pub last_seen_at : ℕ
  pub created_at : ℕ
  pub auth_kind : AuthKind
  pub scopes : List Text
  pub legacy_password_id : Option ℕ
  pub legacy_device_identifier : Option Text

-- A row of `audit_log`.
pub record AuditRow : Type 0 where
  pub actor_user_id : ℕ
  pub action : Text
  pub entity_type : Option Text
  pub entity_id : Option Text
  pub ip_address : Option Text
  pub user_agent : Text

-- What a request says of its sender.
pub record Client : Type 0 where
  pub ip : Option Text
  pub user_agent : Text

-- `COALESCE(column, '')`
abbrev pub coalesce : Option Text → Text
coalesce none = []
coalesce (some s) = s

abbrev pub is_blank : Text → Bool
is_blank [] = true
is_blank (c ∷ s) = false

-- `NULLIF(value, '')`
abbrev pub null_if_empty : Text → Option Text
null_if_empty [] = none
null_if_empty (c ∷ s) = some (c ∷ s)

-- `nullEmpty`
abbrev pub null_empty : Text → Option Text
null_empty value = if is_blank (trim_space value) then none else some value

-- `truncate`
abbrev pub truncate : Text → ℕ → Text
truncate value max = if leb (length value) max then value else take max value

-- `deviceName`
abbrev pub device_name : Text → Text
device_name user_agent =
    if is_blank (trim_space user_agent) then codes "Browser" else truncate user_agent 80

-- `audit` and `auditTx`
abbrev pub audit : ℕ → Text → Text → Text → Client → List AuditRow → List AuditRow
audit actor action entity_type entity_id client log =
    log
    ++ record {
      actor_user_id = actor;
      action = action;
      entity_type = null_if_empty entity_type;
      entity_id = null_if_empty entity_id;
      ip_address = client.ip;
      user_agent = truncate client.user_agent 512;
    }
      ∷ []

-- `HasRole`
abbrev pub has_role : User → List Role → Bool
has_role who wanted = any (λ have. any (same_role have) wanted) who.roles

-- `SessionHasScope`
abbrev pub session_has_scope : Session → Text → Bool
session_has_scope session scope =
    if is_web session.auth_kind then true else any (λ have. eqb have scope) session.scopes

-- `displayName`
abbrev pub display_name : User → Text
display_name who = if is_blank (trim_space who.nickname) then who.email else who.nickname

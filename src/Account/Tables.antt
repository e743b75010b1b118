-- ===== src/Account/Tables.antt =====
-- The tables that store_auth.go uses, and the statements it runs on them. A primary key comes from
-- a counter; a unique index refuses a row with `none`.
pub mod Laws
unfoldable pub use legacy_store.Base.Queries.{first, update, select}
use legacy_store.Base.{
  ℕ, ◌+◌, Bool, true, false, not, ◌&&◌, ◌||◌, List, [], ◌∷◌, ◌++◌, Option, none, some, Text, codes,
  ltb, ◌==◌, eqb, if◌then◌else◌, map, any,
}
use legacy_store.Base.Sorting.{sort}
use legacy_store.Base.Strings.{to_lower, trim_space}
use legacy_store.Account.Rows.{
  Role, admin, guest, moder, trusted, uploader, user, same_role, AuthKind, User, Session, UserRow,
  SessionRow, AuditRow, Client, coalesce, is_blank, null_if_empty, truncate, device_name, is_active,
}

pub record Database : Type 0 where
  pub users : List UserRow
  pub next_user : ℕ
  pub user_roles : List (ℕ × Role)
  pub sessions : List SessionRow
  pub next_session : ℕ
  pub audit_log : List AuditRow

abbrev pub has_id : ℕ → UserRow → Bool
has_id n u = u.id == n

abbrev pub has_email : Text → UserRow → Bool
has_email address u = eqb (to_lower u.email) address

abbrev pub has_hash : Text → SessionRow → Bool
has_hash hash s = eqb s.token_hash hash

abbrev pub is_not_revoked : SessionRow → Bool
is_not_revoked s = elim s.revoked_at [ none ↦ true | some t ↦ false ]

-- `revoked_at IS NULL AND expires_at > now()`
abbrev pub is_open : ℕ → SessionRow → Bool
is_open now s = is_not_revoked s && ltb now s.expires_at

abbrev all_roles : List Role
all_roles = admin ∷ guest ∷ moder ∷ trusted ∷ uploader ∷ user ∷ []

-- `roles`: the user's roles in the order of their names.
unfoldable pub roles : Database → ℕ → List Role
unfolding select
roles db n = select (λ r. any (λ g. (g.0 == n) && same_role g.1 r) db.user_roles) all_roles

-- `INSERT INTO user_roles ... ON CONFLICT DO NOTHING`
abbrev pub add_role : ℕ → Role → List (ℕ × Role) → List (ℕ × Role)
add_role n r grants =
    if any (λ g. (g.0 == n) && same_role g.1 r) grants then grants else grants ++ (n, r) ∷ []

-- The columns of a user that the store shows.
unfoldable pub visible_user : Database → UserRow → User
visible_user db u = record {
  id = u.id;
  email = u.email;
  nickname = coalesce u.nickname;
  avatar_url = coalesce u.avatar_url;
  email_verified = u.email_verified;
  two_factor_enabled = u.two_factor_enabled;
  status = u.status;
  roles = roles db u.id;
  created_at = u.created_at;
  updated_at = u.updated_at;
}

-- The columns of a session that the store shows.
unfoldable pub visible_session : SessionRow → Session
visible_session s = record {
  id = s.id;
  device_name = coalesce s.device_name;
  ip_address = coalesce s.ip_address;
  user_agent = coalesce s.user_agent;
  remember_me = s.remember_me;
  auth_kind = s.auth_kind;
  scopes = s.scopes;
  legacy_password_id = elim s.legacy_password_id [ none ↦ 0 | some n ↦ n ];
  legacy_device_identifier = coalesce s.legacy_device_identifier;
  expires_at = s.expires_at;
  last_seen_at = s.last_seen_at;
  created_at = s.created_at;
}

-- The session of the query's `JOIN`, with its user: not revoked, not expired, of an active user.
abbrev pub live_session : Database → Text → ℕ → SessionRow → Bool
live_session db hash now s =
    has_hash hash s && is_open now s && any (λ u. has_id s.user_id u && is_active u.status) db.users

abbrev pub with_users : List UserRow → Database → Database
with_users rows db = record db { users = rows }

abbrev pub with_sessions : List SessionRow → Database → Database
with_sessions rows db = record db { sessions = rows }

abbrev pub with_audit_log : List AuditRow → Database → Database
with_audit_log rows db = record db { audit_log = rows }

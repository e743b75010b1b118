-- ===== src/Account/Provision.antt =====
-- store_security.go: `EnsureAdmin` and `HasAdmin`.
pub mod Single
mod Tests
use legacy_store.Base.{
  ℕ, suc, Bool, true, false, not, ◌&&◌, ◌||◌, List, [], ◌∷◌, ◌++◌, Option, none, some, Text, ltb,
  ◌==◌, eqb, if◌then◌else◌, length, any, Result, ok, err,
}
use legacy_store.Base.Strings.{trim_space}
use legacy_store.Account.Rows.{
  Error, weak_admin, other_admin, no_randomness, database, Role, admin, user, active, UserRow,
  is_blank, null_if_empty, same_role,
}
use legacy_store.Account.Auth.{Credentials}
use legacy_store.Account.Profile.{update_user}
use legacy_store.Account.Recovery.{is_valid_email}
use legacy_store.Account.Security.{normalize_email}
use legacy_store.Account.Tables.{Database, first, has_id, has_email, add_role}

abbrev pub is_admin_grant : ℕ × Role → Bool
is_admin_grant g = same_role g.1 admin

-- The first user with the role; a grant names a user of the table.
unfoldable pub admin_user : Database → Option UserRow
unfolding first
admin_user db = elim (first is_admin_grant db.user_roles) [
  | none ↦ none
  | some (n, r) ↦ first (has_id n) db.users
]

-- `HasAdmin`
unfoldable pub has_admin : Database → Bool
has_admin db = any is_admin_grant db.user_roles

abbrev pub new_admin : Database → Text → Text → Text → ℕ → UserRow
new_admin db email hash nickname now = record {
  id = db.next_user;
  email = email;
  password_hash = some hash;
  nickname = null_if_empty nickname;
  avatar_url = none;
  email_verified = true;
  two_factor_enabled = false;
  two_factor_secret = none;
  two_factor_confirmed_at = none;
  status = active;
  created_at = now;
  updated_at = now;
  password_changed_at = none;
  email_changed_at = none;
}

abbrev pub promoted : Text → Text → ℕ → UserRow → UserRow
promoted hash nickname now u = record u {
  password_hash = some hash;
  nickname = if is_blank nickname then u.nickname else some nickname;
  email_verified = true;
  status = active;
  updated_at = now;
}

-- The user that has the email, or a new one, with the password; and the user's id.
unfoldable pub admin_account : Database → Text → Text → Text → ℕ → Database × ℕ
unfolding first
admin_account db email hash nickname now = elim (first (has_email email) db.users) [
  | none ↦
      let row = new_admin db email hash nickname now in
      (record db { users = db.users ++ row ∷ []; next_user = suc db.next_user }, row.id)
  | some u ↦ (update_user u.id (promoted hash nickname now) db, u.id)
]

-- The two roles; a trigger refuses a second administrator, and the key refuses the role twice.
unfoldable pub grant_admin : Database × ℕ → Result Error Database
grant_admin (db, n) =
    let grants = add_role n user db.user_roles in
    if any is_admin_grant grants
    then err database
    else ok (record db { user_roles = grants ++ (n, admin) ∷ [] })

module _ (k : Credentials) where
  provision : Database → Text → Text → Text → Option Text → ℕ → Result Error Database
  unfolding admin_account grant_admin
  provision db email password nickname none now = err no_randomness
  provision db email password nickname (some salt) now =
      grant_admin (admin_account db email (k.hash_password salt password) nickname now)

  -- `EnsureAdmin`
  unfoldable pub ensure_admin :
      (Text → Option Text) → Database → Text → Text → Text → Option Text → ℕ → Result Error Database
  unfolding admin_user provision
  ensure_admin parse_address db email password nickname salt now =
      let address = normalize_email email in
      if not (is_valid_email parse_address address) || ltb (length password) 12
      then err weak_admin
      else elim (admin_user db) [
        | some u ↦ if eqb (normalize_email u.email) address then ok db else err other_admin
        | none ↦ provision db address password (trim_space nickname) salt now
      ]

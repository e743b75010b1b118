-- ===== src/Account/Admin.antt =====
-- store_admin.go: the administration of users and of their roles, and the moderation queue.
pub mod Single
mod Tests
use legacy_store.Base.{
  ℕ, suc, Bool, true, false, not, ◌&&◌, ◌||◌, List, [], ◌∷◌, ◌++◌, map, Option, none, some, Text,
  codes, ltb, ◌==◌, eqb, if◌then◌else◌, any, take, Result, ok, err, ◌>>=◌,
}
use legacy_store.Base.Sorting.{sort}
use legacy_store.Base.Strings.{trim_space}
use legacy_store.Account.Rows.{
  Error, forbidden, not_found, invalid_credential, database, Role, admin, guest, moder, trusted,
  uploader, user, UserStatus, active, disabled, pending, User, UserRow, AuditRow, Client, is_blank,
  null_if_empty, coalesce, same_role, audit,
}
use legacy_store.Account.Auth.{Credentials}
use legacy_store.Account.Profile.{user_by_id, update_user, unless_empty}
use legacy_store.Account.Tables.{
  Database, first, update, select, has_id, add_role, visible_user, with_audit_log,
}

-- `validRole`; each of the names is one of the `roles` table.
unfoldable pub role_named : Text → Option Role
role_named role =
    if eqb role (codes "guest")
    then some guest
    else if eqb role (codes "user")
    then some user
    else if eqb role (codes "uploader")
    then some uploader
    else if eqb role (codes "trusted")
    then some trusted
    else if eqb role (codes "moder")
    then some moder
    else if eqb role (codes "admin")
    then some admin
    else none

abbrev pub is_grant : ℕ → Role → ℕ × Role → Bool
is_grant n r g = (g.0 == n) && same_role g.1 r

-- The administrator's role of another user, which the trigger looks for.
abbrev pub is_other_admin : ℕ → ℕ × Role → Bool
is_other_admin n g = same_role g.1 admin && not (g.0 == n)

abbrev with_roles : List (ℕ × Role) → Database → Database
with_roles grants db = record db { user_roles = grants }

-- The `INSERT` of `AddRole`: the trigger runs first, then the conflict, then the reference to the user.
unfoldable pub insert_role : Database → ℕ → Role → Result Error Database
insert_role db n r =
    if same_role r admin && any (is_other_admin n) db.user_roles
    then err database
    else if any (is_grant n r) db.user_roles
    then ok db
    else if any (has_id n) db.users
    then ok (with_roles (db.user_roles ++ (n, r) ∷ []) db)
    else err database

abbrev with_status : Option UserStatus → UserStatus → UserStatus
with_status none status = status
with_status (some status) old = status

-- The statuses that `AdminUpdateUser` takes; the empty one leaves the column as it is.
unfoldable pub status_named : Text → Option (Option UserStatus)
status_named status =
    if is_blank status
    then some none
    else if eqb status (codes "active")
    then some (some active)
    else if eqb status (codes "disabled")
    then some (some disabled)
    else if eqb status (codes "pending")
    then some (some pending)
    else none

abbrev with_details : Text → Option UserStatus → Option Bool → ℕ → UserRow → UserRow
with_details nickname status verified now u = record u {
  nickname = unless_empty nickname u.nickname;
  status = with_status status u.status;
  email_verified = elim verified [ none ↦ u.email_verified | some v ↦ v ];
  updated_at = now;
}

module _ (k : Credentials) where
  abbrev logged : User → Text → ℕ → Client → Database → Database
  logged actor action n client db =
      with_audit_log (audit actor.id action (codes "user") (k.int_string n) client db.audit_log) db

  -- `AddRole`
  unfoldable pub add_user_role : Database → User → ℕ → Text → Client → Result Error Database
  unfolding insert_role
  add_user_role db actor n role client = elim (role_named role) [
    | none ↦ err invalid_credential
    | some r ↦
        insert_role db n r >>= λ after. ok (logged actor (codes "admin.roles.add") n client after)
  ]

  -- `RemoveRole`; a name that is no role has no row.
  unfoldable pub remove_user_role : Database → User → ℕ → Text → Client → Result Error Database
  unfolding role_named select
  remove_user_role db actor n role client =
      if eqb role (codes "admin") && actor.id == n then err forbidden else elim (role_named role) [
        | none ↦ err not_found
        | some r ↦
            let kept = select (λ g. not (is_grant n r g)) db.user_roles in
            if any (is_grant n r) db.user_roles
            then ok (logged actor (codes "admin.roles.remove") n client (with_roles kept db))
            else err not_found
      ]

  -- `AdminUpdateUser`: the update and its entry in the log stay where no user is found.
  unfoldable pub admin_update_user :
      Database → User → ℕ → Text → Text → Option Bool → Client → ℕ → Database × Result Error User
  unfolding status_named user_by_id
  admin_update_user db actor n nickname status verified client now = elim (status_named status) [
    | none ↦ (db, err invalid_credential)
    | some s ↦
        let updated = update_user n (with_details (trim_space nickname) s verified now) db in
        let after = logged actor (codes "admin.users.update") n client updated in
        (after, user_by_id after n)
  ]

-- `ListUsers`: newer users first.
unfoldable pub list_users : Database → ℕ → List User
list_users db limit =
    let count = if ltb limit 1 || ltb 100 limit then 50 else limit in
    map (visible_user db) (take count (sort (λ a b. ltb b.created_at a.created_at) db.users))

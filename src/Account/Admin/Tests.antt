-- ===== src/Account/Admin/Tests.antt =====
-- Runs of the administration of roles.
use legacy_store.Base.{◌≡◌, refl, List, [], ◌∷◌, ◌++◌, codes, Result, ok, err}
use legacy_store.Account.Admin.{add_user_role, remove_user_role}
use legacy_store.Account.Admin.Single.{IsAdmin, Changes, Changes-IsAdmin}
use legacy_store.Account.Rows.{Error, forbidden, database, admin, user, User}
use legacy_store.Account.Samples.{plain, safari, bob, two_users, result_of}
use legacy_store.Account.Tables.{Database, visible_user}

-- Bob is the administrator.
abbrev ruled : Database
ruled = record two_users { user_roles = (1, user) ∷ (2, user) ∷ (2, admin) ∷ [] }

abbrev bob_user : User
bob_user = visible_user ruled bob

abbrev added : Result Error Database
added = add_user_role plain ruled bob_user 1 (codes "moder") safari

abbrev removed : Result Error Database
removed = remove_user_role plain (result_of ruled added) bob_user 1 (codes "user") safari

added_run : added ≡ ok (result_of ruled added)
unfolding add_user_role legacy_store.Base.eqb legacy_store.Account.Admin.role_named
added_run = refl

removed_run : removed ≡ ok (result_of ruled removed)
unfolding remove_user_role legacy_store.Base.eqb add_user_role
removed_run = refl

own_run : remove_user_role plain ruled bob_user 2 (codes "admin") safari ≡ err forbidden
unfolding remove_user_role legacy_store.Base.eqb visible_user
own_run = refl

second_run : add_user_role plain ruled bob_user 1 (codes "admin") safari ≡ err database
unfolding add_user_role legacy_store.Base.eqb legacy_store.Account.Admin.role_named
second_run = refl

has_run : IsAdmin 2 ruled.user_roles
unfolding legacy_store.Account.Tables.select
has_run = record { has = refl; single = refl }

Changes-IsAdmin_example : IsAdmin 2 (result_of ruled removed).user_roles
unfolding visible_user
Changes-IsAdmin_example = Changes-IsAdmin plain bob_user ruled (result_of ruled removed) has_run (
    Changes.role_removed 1 (codes "user") safari
      (Changes.role_added 1 (codes "moder") safari Changes.unchanged added_run) removed_run)

-- ===== src/Account/Legacy/Tests.antt =====
-- Runs of the application passwords of the old clients.
use legacy_store.Base.{
  Distinct, Mem, map, List, ◌↔◌, ◌⊎◌, ◌≡◌, ◌≢◌, refl, arith, [], ◌∷◌, none, some, Text, codes,
  Result, ok, err,
}
use legacy_store.Account.Auth.{AuthResult}
use legacy_store.Account.Legacy.{create_legacy_password, legacy_login, delete_legacy_password}
use legacy_store.Account.Legacy.Revoking.{delete_legacy_password_accepted}
use legacy_store.Account.Legacy.Scopes.{HasNoneKnown, sanitize_legacy_scopes_iff}
use legacy_store.Account.LegacyRows.{
  LegacyTables, LegacyPassword, default_legacy_scopes, sanitize_legacy_scopes,
}
use legacy_store.Base.Strings.{trim_space}
use legacy_store.Account.Rows.{Error, unauthorized}
use legacy_store.Account.Samples.{plain, safari, busy, admitted, result_of}
use legacy_store.Account.Sessions.{user_by_session}

abbrev empty : LegacyTables
empty = record { database = busy; passwords = []; next_password = 1; devices = []; next_device = 1 }

abbrev created_tables : Result Error (LegacyTables × LegacyPassword × Text) → LegacyTables
created_tables (ok p) = p.0
created_tables (err e) = empty

abbrev created : Result Error (LegacyTables × LegacyPassword × Text)
created = create_legacy_password plain empty 1 (codes "Old Mac") [] (some (codes "secret")) 200

abbrev entered_tables : Result Error (LegacyTables × AuthResult) → LegacyTables
entered_tables (ok p) = p.0
entered_tables (err e) = empty

-- Alice's old computer logs in with the password that was created for it.
abbrev entered : Result Error (LegacyTables × AuthResult)
entered =
    legacy_login plain (created_tables created) (codes "alice@mac.example") (codes "ls_secret")
      (codes "mac-1") (codes "Old Mac") safari (some (codes "fourth")) 300

abbrev deleted : Result Error LegacyTables
deleted = delete_legacy_password (entered_tables entered) 1 1 400

abbrev deleted_tables : LegacyTables
deleted_tables = result_of empty deleted

deleted_run : deleted ≡ ok deleted_tables
unfolding delete_legacy_password legacy_login legacy_store.Base.Strings.to_lower
    legacy_store.Base.Strings.trim_space legacy_store.Base.Strings.is_space create_legacy_password
    legacy_store.Account.Auth.login legacy_store.Base.eqb legacy_store.Base.Sorting.sort
deleted_run = refl

fourth_run :
    user_by_session (λ token. token) deleted_tables.database (codes "fourth") safari 500
    ≡ err unauthorized
unfolding user_by_session legacy_store.Base.Queries.first delete_legacy_password legacy_login
    legacy_store.Base.Strings.to_lower legacy_store.Base.Strings.trim_space
    legacy_store.Base.Strings.is_space create_legacy_password legacy_store.Account.Auth.login
    legacy_store.Base.eqb legacy_store.Base.Sorting.sort legacy_store.Account.Tables.visible_user
fourth_run = refl

first_run :
    user_by_session (λ token. token) deleted_tables.database (codes "first") safari 500
    ≡ ok (
        admitted
          (user_by_session (λ token. token) deleted_tables.database (codes "first") safari 500))
unfolding user_by_session legacy_store.Base.Queries.first delete_legacy_password legacy_login
    legacy_store.Base.Strings.to_lower legacy_store.Base.Strings.trim_space
    legacy_store.Base.Strings.is_space create_legacy_password legacy_store.Account.Auth.login
    legacy_store.Base.eqb legacy_store.Base.Sorting.sort legacy_store.Account.Tables.visible_user
first_run = refl

who_run :
    (admitted
      (user_by_session (λ token. token) deleted_tables.database (codes "first") safari 500)).1.id
    ≡ 1
unfolding user_by_session legacy_store.Base.Queries.first delete_legacy_password legacy_login
    legacy_store.Base.Strings.to_lower legacy_store.Base.Strings.trim_space
    legacy_store.Base.Strings.is_space create_legacy_password legacy_store.Account.Auth.login
    legacy_store.Base.eqb legacy_store.Base.Sorting.sort legacy_store.Account.Tables.visible_user
who_run = refl

delete_legacy_password_accepted_example :
    (admitted (
      user_by_session
        (λ token. token)
        deleted_tables.database
        (codes "first")
        safari
        500)).2.legacy_password_id
    ≢ 1
delete_legacy_password_accepted_example =
    delete_legacy_password_accepted (λ token. token) (entered_tables entered) deleted_tables 1 1 400
      500 (codes "first") safari (omega arith) deleted_run first_run who_run

abbrev asked : List Text
asked = codes " reviews:like " ∷ codes "admin" ∷ codes "reviews:like" ∷ []

asked_run : sanitize_legacy_scopes asked ≡ codes "reviews:like" ∷ []
unfolding sanitize_legacy_scopes legacy_store.Base.eqb trim_space legacy_store.Base.Strings.is_space
asked_run = refl

sanitize_legacy_scopes_iff_example :
    Distinct (sanitize_legacy_scopes asked)
    × (Mem (codes "admin") (sanitize_legacy_scopes asked) ↔ (
        Mem (codes "admin") default_legacy_scopes
        × (Mem (codes "admin") (map trim_space asked) ⊎ HasNoneKnown asked)))
sanitize_legacy_scopes_iff_example = sanitize_legacy_scopes_iff asked (codes "admin")

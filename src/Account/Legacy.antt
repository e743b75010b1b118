-- ===== src/Account/Legacy.antt =====
-- store_legacy.go: passwords and devices of old clients. An operation that fails leaves the tables
-- as they were.
pub mod Scopes
pub mod Revoking
mod Tests
use legacy_store.Base.{
  ℕ, suc, Bool, true, false, not, ◌&&◌, ◌||◌, List, [], ◌∷◌, ◌++◌, Option, none, some, Text, codes,
  ltb, ◌==◌, eqb, if◌then◌else◌, length, take, map, any, Result, ok, err, ◌>>=◌,
}
use legacy_store.Base.Sorting.{sort}
use legacy_store.Base.Strings.{trim_space, to_lower}
use legacy_store.Account.Rows.{
  Error, invalid_credential, not_found, no_randomness, database, legacy, UserRow, SessionRow,
  Client, AuthKind, coalesce, is_blank, is_web, is_active, truncate, audit,
}
use legacy_store.Account.Auth.{Credentials, AuthResult, create_scoped_session}
use legacy_store.Account.LegacyRows.{
  PasswordRow, DeviceRow, LegacyTables, LegacyPassword, LegacyDevice, visible_password,
  visible_device, sanitize_legacy_scopes,
}
use legacy_store.Account.Sessions.{revoked}
use legacy_store.Account.Tables.{
  Database, first, update, select, has_email, visible_user, is_not_revoked, with_sessions,
  with_audit_log,
}

abbrev pub is_kept : Option ℕ → Bool
is_kept none = true
is_kept (some t) = false

abbrev pub is_password_of : ℕ → ℕ → PasswordRow → Bool
is_password_of user_id password_id p =
    (p.id == password_id) && (p.user_id == user_id) && is_kept p.revoked_at

abbrev pub has_password_id : ℕ → Option ℕ → Bool
has_password_id n none = false
has_password_id n (some m) = m == n

-- `UPDATE sessions ... WHERE user_id = $1 AND legacy_password_id = $2 AND revoked_at IS NULL`
abbrev pub is_session_with : ℕ → ℕ → SessionRow → Bool
is_session_with user_id password_id s =
    (s.user_id == user_id) && has_password_id password_id s.legacy_password_id && is_not_revoked s

unfoldable pub close_sessions_with : ℕ → ℕ → ℕ → Database → Database
unfolding update
close_sessions_with user_id password_id now db =
    with_sessions (update (is_session_with user_id password_id) (revoked now) db.sessions) db

-- `ListLegacyPasswords`: the newest first.
unfoldable pub list_legacy_passwords : LegacyTables → ℕ → List LegacyPassword
unfolding select
list_legacy_passwords t user_id = map visible_password (
    sort (λ a b. ltb b.created_at a.created_at)
      (select (λ p. (p.user_id == user_id) && is_kept p.revoked_at) t.passwords))

-- `ListLegacyDevices`: the one seen last first.
unfoldable pub list_legacy_devices : LegacyTables → ℕ → List LegacyDevice
unfolding select
list_legacy_devices t user_id = map visible_device (
    sort (λ a b. ltb b.last_seen_at a.last_seen_at)
      (select (λ d. (d.user_id == user_id) && is_kept d.revoked_at) t.devices))

-- `RevokeLegacyDevice`
abbrev pub is_device_of : ℕ → ℕ → DeviceRow → Bool
is_device_of user_id device_id d =
    (d.id == device_id) && (d.user_id == user_id) && is_kept d.revoked_at

abbrev pub revoked_device : ℕ → DeviceRow → DeviceRow
revoked_device now d = record d { revoked_at = some now }

abbrev pub same_text : Option Text → Text → Bool
same_text none t = false
same_text (some s) t = eqb s t

abbrev pub is_session_on : ℕ → Text → SessionRow → Bool
is_session_on user_id identifier s =
    (s.user_id == user_id)
    && not (is_web s.auth_kind)
    && same_text s.legacy_device_identifier identifier
    && is_not_revoked s

unfoldable pub revoke_legacy_device : LegacyTables → ℕ → ℕ → ℕ → Result Error LegacyTables
unfolding first update
revoke_legacy_device t user_id device_id now =
    let devices = update (is_device_of user_id device_id) (revoked_device now) t.devices in
    elim (first (is_device_of user_id device_id) t.devices) [
      | none ↦ err not_found
      | some d ↦
          let identifier = coalesce d.device_identifier in
          let sessions =
            update (is_session_on user_id identifier) (revoked now) (t.database).sessions in
          if is_blank identifier
          then ok (record t { devices = devices })
          else ok (record t { devices = devices; database = with_sessions sessions t.database })
    ]

-- `DeleteLegacyPassword`
abbrev pub revoked_password : ℕ → PasswordRow → PasswordRow
revoked_password now p = record p { revoked_at = some now }

abbrev pub is_device_with : ℕ → ℕ → DeviceRow → Bool
is_device_with user_id password_id d =
    (d.user_id == user_id)
    && has_password_id password_id d.legacy_password_id
    && is_kept d.revoked_at

unfoldable pub delete_legacy_password : LegacyTables → ℕ → ℕ → ℕ → Result Error LegacyTables
unfolding update close_sessions_with
delete_legacy_password t user_id password_id now =
    if any (is_password_of user_id password_id) t.passwords
    then ok (record t {
      passwords = update (is_password_of user_id password_id) (revoked_password now) t.passwords;
      database = close_sessions_with user_id password_id now t.database;
      devices = update (is_device_with user_id password_id) (revoked_device now) t.devices;
    })
    else err not_found

abbrev or_name : Text → Text → Text
or_name [] default = default
or_name (c ∷ s) default = c ∷ s

module _ (k : Credentials) where
  abbrev pub legacy_token : Text → Text
  legacy_token secret = codes "ls_" ++ secret

  new_password : LegacyTables → ℕ → Text → List Text → Text → ℕ → PasswordRow
  new_password t user_id name scopes token now = record {
    id = t.next_password;
    user_id = user_id;
    name = or_name (trim_space name) (codes "Legacy Client");
    token_hash = k.token_hash token;
    token_prefix = take 10 token;
    scopes = sanitize_legacy_scopes scopes;
    last_used_at = none;
    revoked_at = none;
    created_at = now;
  }

  -- `CreateLegacyPassword`: the hashes are unique.
  unfoldable pub create_legacy_password :
      LegacyTables
      → ℕ
      → Text
      → List Text
      → Option Text
      → ℕ
      → Result Error (LegacyTables × LegacyPassword × Text)
  unfolding new_password
  create_legacy_password t user_id name scopes none now = err no_randomness
  create_legacy_password t user_id name scopes (some secret) now =
      let token = legacy_token secret in
      let row = new_password t user_id name scopes token now in
      if any (λ p. eqb p.token_hash row.token_hash) t.passwords
      then err database
      else ok (
        record t { passwords = t.passwords ++ row ∷ []; next_password = suc t.next_password },
        visible_password row,
        token,
      )

  abbrev pub reset_password : Text → PasswordRow → PasswordRow
  reset_password token p = record p {
    token_hash = k.token_hash token;
    token_prefix = take 10 token;
    last_used_at = none;
  }

  -- `ResetLegacyPassword`
  unfoldable pub reset_legacy_password :
      LegacyTables → ℕ → ℕ → Option Text → ℕ → Result Error (LegacyTables × LegacyPassword × Text)
  unfolding first update close_sessions_with
  reset_legacy_password t user_id password_id none now = err no_randomness
  reset_legacy_password t user_id password_id (some secret) now =
      let token = legacy_token secret in
      let chosen = is_password_of user_id password_id in
      elim (first chosen t.passwords) [
        | none ↦ err not_found
        | some p ↦
            if any (λ q. eqb q.token_hash (k.token_hash token) && not (chosen q)) t.passwords
            then err database
            else ok (
              record t {
                passwords = update chosen (reset_password token) t.passwords;
                database = close_sessions_with user_id password_id now t.database;
              },
              visible_password (reset_password token p),
              token,
            )
      ]

  abbrev device_of : LegacyTables → ℕ → ℕ → Text → Text → Client → ℕ → DeviceRow
  device_of t user_id password_id identifier name client now = record {
    id = t.next_device;
    user_id = user_id;
    legacy_password_id = some password_id;
    device_identifier = some identifier;
    device_name = some name;
    last_ip = client.ip;
    last_user_agent = some (truncate client.user_agent 512);
    last_seen_at = now;
    revoked_at = none;
    created_at = now;
  }

  abbrev seen_again : DeviceRow → DeviceRow → DeviceRow
  seen_again new d = record d {
    legacy_password_id = new.legacy_password_id;
    device_name = new.device_name;
    last_ip = new.last_ip;
    last_user_agent = new.last_user_agent;
    last_seen_at = new.last_seen_at;
    revoked_at = none;
  }

  abbrev is_device_named : ℕ → Text → DeviceRow → Bool
  is_device_named user_id identifier d =
      (d.user_id == user_id) && same_text d.device_identifier identifier

  -- `upsertLegacyDevice`
  unfoldable pub upsert_legacy_device :
      LegacyTables → ℕ → ℕ → Text → Text → Client → ℕ → Result Error LegacyTables
  unfolding update
  upsert_legacy_device t user_id password_id identifier name client now =
      let trimmed = trim_space identifier in
      let chosen = is_device_named user_id trimmed in
      let row =
        device_of t user_id password_id trimmed (or_name (trim_space name) (codes "Legacy Mac"))
          client now in
      if is_blank trimmed
      then err invalid_credential
      else if any chosen t.devices
      then ok (record t { devices = update chosen (seen_again row) t.devices })
      else ok (record t { devices = t.devices ++ row ∷ []; next_device = suc t.next_device })

  -- The rows of the join, in the order of the query, and the loop over them.
  abbrev pub is_candidate : ℕ → Text → PasswordRow → Bool
  is_candidate user_id hash p =
      (p.user_id == user_id) && is_kept p.revoked_at && eqb p.token_hash hash

  unfoldable pub legacy_password_of : LegacyTables → UserRow → Text → Option PasswordRow
  unfolding first
  legacy_password_of t u hash =
      first (is_candidate u.id hash) (sort (λ a b. ltb b.created_at a.created_at) t.passwords)

  abbrev used_password : ℕ → PasswordRow → PasswordRow
  used_password now p = record p { last_used_at = some now }

  enter_legacy :
      LegacyTables
      → UserRow
      → PasswordRow
      → Text
      → Text
      → Client
      → Option Text
      → ℕ
      → Result Error (LegacyTables × AuthResult)
  unfolding upsert_legacy_device create_scoped_session update
  enter_legacy t u p identifier name client drawn now =
      upsert_legacy_device t u.id p.id identifier name client now >>= λ s.
      create_scoped_session k s.database u.id true client legacy p.scopes p.id identifier drawn now
      >>= λ (db, token, expires_at). ok (
        record s {
          database =
              with_audit_log
                (audit u.id (codes "auth.legacy_login") (codes "legacy_password")
                  (k.int_string p.id) client db.audit_log)
                db;
          passwords = update (λ q. q.id == p.id) (used_password now) s.passwords;
        },
        record {
          user = visible_user t.database u;
          token = token;
          expires_at = expires_at;
          csrf_token = [];
        },
      )

  -- `LegacyLogin`
  unfoldable pub legacy_login :
      LegacyTables
      → Text
      → Text
      → Text
      → Text
      → Client
      → Option Text
      → ℕ
      → Result Error (LegacyTables × AuthResult)
  unfolding legacy_password_of enter_legacy first
  legacy_login t email password identifier name client drawn now =
      let address = to_lower (trim_space email) in
      let device = trim_space identifier in
      if is_blank address || is_blank password || is_blank device
      then err invalid_credential
      else elim (first (λ u. has_email address u && is_active u.status) (t.database).users) [
        | none ↦ err invalid_credential
        | some u ↦ elim (legacy_password_of t u (k.token_hash password)) [
          | none ↦ err invalid_credential
          | some p ↦ enter_legacy t u p device (trim_space name) client drawn now
        ]
      ]

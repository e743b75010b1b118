-- ===== src/Account/Auth.antt =====
-- store_auth.go: registering, logging in, sessions and the second factor. An operation that fails
-- leaves the database as it was: `ok` carries the database after the operation. The random salt,
-- token and secret are arguments, `none` where `rand.Read` fails, and so is the time.
pub mod Login
use legacy_store.Base.{
  ℕ, suc, ◌+◌, Bool, true, false, not, ◌&&◌, ◌||◌, List, [], ◌∷◌, ◌++◌, Option, none, some, Text,
  codes, ltb, ◌==◌, eqb, if◌then◌else◌, length, map, any, Result, ok, err, ◌>>=◌,
}
use legacy_store.Base.Sorting.{sort}
use legacy_store.Base.Strings.{trim_space, to_lower}
use legacy_store.Account.Rows.{
  Error, email_exists, invalid_credential, unauthorized, not_found, two_factor_required,
  no_randomness, database, user, active, web, AuthKind, User, Session, UserRow, SessionRow, Client,
  coalesce, is_blank, null_if_empty, null_empty, truncate, device_name, audit, is_active,
}
use legacy_store.Account.Tables.{
  Database, first, update, select, has_id, has_email, has_hash, is_open, live_session, add_role,
  visible_user, visible_session, with_users, with_sessions, with_audit_log,
}

-- What password.go and totp.go compute: `hashPassword` with its salt, `verifyPassword`,
-- `tokenHash`, `verifyTOTP` and `totpURL`.
pub record Credentials : Type 0 where
  pub hash_password : Text → Text → Text
  pub verify_password : Text → Text → Bool
  pub token_hash : Text → Text
  pub verify_totp : Text → Text → ℕ → Bool
  pub totp_url : Text → Text → Text
  -- `strconv.FormatInt`
  pub int_string : ℕ → Text

pub record AuthResult : Type 0 where
  pub user : User
  pub token : Text
  pub expires_at : ℕ
  pub csrf_token : Text

abbrev pub half_day : ℕ
half_day = 43200

abbrev pub thirty_days : ℕ
thirty_days = 2592000

abbrev pub session_end : Bool → ℕ → ℕ
session_end remember now = now + (if remember then thirty_days else half_day)

module _ (k : Credentials) where
  abbrev pub new_session :
      Database → ℕ → Bool → Client → AuthKind → List Text → ℕ → Text → Text → ℕ → SessionRow
  new_session db user_id remember client kind scopes legacy_password_id device token now = record {
    id = db.next_session;
    user_id = user_id;
    token_hash = k.token_hash token;
    remember_me = remember;
    device_name = some (device_name client.user_agent);
    ip_address = client.ip;
    user_agent = some (truncate client.user_agent 512);
    expires_at = session_end remember now;
    revoked_at = none;
    last_seen_at = now;
    created_at = now;
    auth_kind = kind;
    scopes = scopes;
    legacy_password_id = if ltb 0 legacy_password_id then some legacy_password_id else none;
    legacy_device_identifier = null_if_empty (trim_space device);
  }

  abbrev add_session : Database → SessionRow → Database
  add_session db s = record {
    users = db.users;
    next_user = db.next_user;
    user_roles = db.user_roles;
    sessions = db.sessions ++ s ∷ [];
    next_session = suc db.next_session;
    audit_log = db.audit_log;
  }

  -- `createScopedSession`; the hashes of the sessions are unique.
  unfoldable pub create_scoped_session :
      Database
      → ℕ
      → Bool
      → Client
      → AuthKind
      → List Text
      → ℕ
      → Text
      → Option Text
      → ℕ
      → Result Error (Database × Text × ℕ)
  create_scoped_session db user_id remember client kind scopes legacy_id device none now =
      err no_randomness
  create_scoped_session db user_id remember client kind scopes legacy_id device (some token) now =
      if any (has_hash (k.token_hash token)) db.sessions
      then err database
      else ok (
        add_session db
            (new_session db user_id remember client kind scopes legacy_id device token now),
        token,
        session_end remember now,
      )

  -- `createSession`
  unfoldable pub create_session :
      Database → ℕ → Bool → Client → Option Text → ℕ → Result Error (Database × Text × ℕ)
  unfolding create_scoped_session
  create_session db user_id remember client token now =
      create_scoped_session db user_id remember client web [] 0 [] token now

  -- The end of `Register` and `Login`: the session, its audit entry and the answer.
  unfoldable pub enter :
      User
      → Bool
      → Client
      → Option Text
      → ℕ
      → Text
      → Database
      → Result Error (Database × AuthResult)
  unfolding create_session
  enter who remember client token now action db =
      create_session db who.id remember client token now >>= λ (after, secret, expires_at). ok (
        with_audit_log
            (audit who.id action (codes "user") (k.int_string who.id) client after.audit_log) after,
        record { user = who; token = secret; expires_at = expires_at; csrf_token = [] },
      )

  abbrev new_user : Database → Text → Text → Text → ℕ → UserRow
  new_user db email hash nickname now = record {
    id = db.next_user;
    email = email;
    password_hash = some hash;
    nickname = null_empty nickname;
    avatar_url = none;
    email_verified = false;
    two_factor_enabled = false;
    two_factor_secret = none;
    two_factor_confirmed_at = none;
    status = active;
    created_at = now;
    updated_at = now;
    password_changed_at = none;
    email_changed_at = none;
  }

  abbrev pub add_user : Database → UserRow → Database
  add_user db u = record {
    users = db.users ++ u ∷ [];
    next_user = suc db.next_user;
    user_roles = add_role u.id user db.user_roles;
    sessions = db.sessions;
    next_session = db.next_session;
    audit_log = db.audit_log;
  }

  abbrev registered_user : UserRow → User
  registered_user u = record {
    id = u.id;
    email = u.email;
    nickname = coalesce u.nickname;
    avatar_url = coalesce u.avatar_url;
    email_verified = u.email_verified;
    two_factor_enabled = u.two_factor_enabled;
    status = u.status;
    roles = user ∷ [];
    created_at = u.created_at;
    updated_at = u.updated_at;
  }

  unfoldable pub register_with_hash :
      Database
      → Text
      → Text
      → Text
      → Bool
      → Client
      → Option Text
      → ℕ
      → Result Error (Database × AuthResult)
  unfolding enter
  register_with_hash db email nickname hash remember client token now =
      let row = new_user db email hash nickname now in
      if any (has_email (to_lower email)) db.users
      then err email_exists
      else enter (registered_user row) remember client token now (codes "auth.register")
          (add_user db row)

  -- `Register`
  unfoldable pub register :
      Database
      → Text
      → Text
      → Text
      → Bool
      → Client
      → Option Text
      → Option Text
      → ℕ
      → Result Error (Database × AuthResult)
  unfolding register_with_hash
  register db email nickname password remember client salt token now =
      let address = to_lower (trim_space email) in
      if is_blank address || is_blank password || ltb (length password) 8
      then err invalid_credential
      else elim salt [
        | none ↦ err no_randomness
        | some s ↦
            register_with_hash db address (trim_space nickname) (k.hash_password s password)
              remember client token now
      ]

  -- `Login` of the user that has the email.
  unfoldable pub login_row :
      Database
      → UserRow
      → Text
      → Text
      → Bool
      → Client
      → Option Text
      → ℕ
      → Result Error (Database × AuthResult)
  unfolding enter
  login_row db u password code remember client token now =
      if not (is_active u.status) || not (k.verify_password (coalesce u.password_hash) password)
      then err invalid_credential
      else if u.two_factor_enabled && not (k.verify_totp (coalesce u.two_factor_secret) code now)
      then err two_factor_required
      else enter (visible_user db u) remember client token now (codes "auth.login") db

  -- `Login`
  unfoldable pub login :
      Database
      → Text
      → Text
      → Text
      → Bool
      → Client
      → Option Text
      → ℕ
      → Result Error (Database × AuthResult)
  unfolding login_row
  login db email password code remember client token now =
      elim (first (has_email (to_lower (trim_space email))) db.users) [
        | none ↦ err invalid_credential
        | some u ↦ login_row db u password code remember client token now
      ]

-- ===== src/Account/Samples.antt =====
-- The users and the sessions of the account store's runs, with the password itself as its hash.
use legacy_store.Base.{false, [], ◌∷◌, none, some, codes, eqb, String, Result, ok, err}
use legacy_store.Account.Rows.{Error, active, web, User, UserRow, Session, Client}
use legacy_store.Account.Auth.{Credentials, AuthResult, login}
use legacy_store.Account.Tables.{Database, visible_user}

abbrev pub plain : Credentials
plain = record {
  hash_password = λ salt password. password;
  verify_password = λ hash password. eqb hash password;
  token_hash = λ token. token;
  verify_totp = λ secret code now. eqb secret code;
  totp_url = λ email secret. secret;
  int_string = λ n. [];
}

abbrev pub alice : UserRow
alice = record {
  id = 1;
  email = codes "alice@mac.example";
  password_hash = some (codes "swordfish");
  nickname = none;
  avatar_url = none;
  email_verified = false;
  two_factor_enabled = false;
  two_factor_secret = none;
  two_factor_confirmed_at = none;
  status = active;
  created_at = 0;
  updated_at = 0;
  password_changed_at = none;
  email_changed_at = none;
}

abbrev pub store : Database
store = record {
  users = alice ∷ [];
  next_user = 2;
  user_roles = [];
  sessions = [];
  next_session = 1;
  audit_log = [];
}

abbrev pub safari : Client
safari = record { ip = some (codes "10.0.0.1"); user_agent = codes "Safari" }

abbrev pub bob : UserRow
bob = record alice {
  id = 2;
  email = codes "bob@mac.example";
  password_hash = some (codes "hunter22");
}

abbrev pub store_of : Database → Result Error (Database × AuthResult) → Database
store_of before (ok p) = p.0
store_of before (err e) = before

-- Alice has two sessions, with the ids 1 and 2, and Bob one.
abbrev pub two_users : Database
two_users = record store { users = alice ∷ bob ∷ []; next_user = 3 }

abbrev pub visit : Database → String → String → String → Database
visit db email password token =
    store_of db
      (login plain db (codes email) (codes password) [] false safari (some (codes token)) 100)

abbrev pub busy : Database
busy =
    visit
      (visit (visit two_users "alice@mac.example" "swordfish" "first") "alice@mac.example"
        "swordfish" "second")
      "bob@mac.example" "hunter22" "third"

-- What an accepted token gives; the store itself where it is refused.
abbrev pub admitted : Result Error (Database × User × Session) → Database × User × Session
admitted (ok p) = p
admitted (err e) = (
  store,
  visible_user store alice,
  record {
    id = 0;
    device_name = [];
    ip_address = [];
    user_agent = [];
    remember_me = false;
    auth_kind = web;
    scopes = [];
    legacy_password_id = 0;
    legacy_device_identifier = [];
    expires_at = 0;
    last_seen_at = 0;
    created_at = 0;
  },
)

abbrev pub result_of {ℓ} : {A : Type ℓ} → A → Result Error A → A
result_of other (ok a) = a
result_of other (err e) = other

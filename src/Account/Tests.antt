-- ===== src/Account/Tests.antt =====
-- Runs of the account store, with the password itself as its hash.
use legacy_store.Base.{
  ℕ, ◌≡◌, ◌<◌, refl, arith, true, false, Bool, List, [], ◌∷◌, ◌++◌, Option, none, some, Text, codes,
  eqb, length, All, Result, ok, err,
}
use legacy_store.Account.Rows.{
  Error, unauthorized, invalid_credential, web, User, UserRow, Session, is_blank,
}
use legacy_store.Account.Samples.{plain, alice, store, safari}
use legacy_store.Account.Tables.{Database, visible_user, first, has_id}
use legacy_store.Account.Auth.{AuthResult, login}
use legacy_store.Account.Auth.Login.{
  HasKeys, IsAdmitted, IsEntered, login-IsAdmitted, login-user_by_session,
}
use legacy_store.Account.Sessions.{user_by_session, logout}
use legacy_store.Account.Sessions.Live.{
  IsAccepted, logout-user_by_session, user_by_session-IsAccepted,
}

-- Alice logs in at 100, for half a day.
abbrev entered : Result Error (Database × AuthResult)
entered =
    login plain store (codes "Alice@mac.example") (codes "swordfish") [] false safari
      (some (codes "token")) 100

abbrev store_of : Result Error (Database × AuthResult) → Database
store_of (ok p) = p.0
store_of (err e) = store

abbrev answer_of : Result Error (Database × AuthResult) → AuthResult
answer_of (ok p) = p.1
answer_of (err e) = record {
  user = visible_user store alice;
  token = [];
  expires_at = 0;
  csrf_token = [];
}

entered_run : entered ≡ ok (store_of entered, answer_of entered)
unfolding login legacy_store.Account.Tables.first eqb legacy_store.Base.Strings.to_lower
    legacy_store.Base.Strings.trim_space legacy_store.Base.Strings.is_space
entered_run = refl

wrong_run :
    login plain store
      (codes "alice@mac.example")
      (codes "sword")
      []
      false
      safari
      (some (codes "token"))
      100
    ≡ err invalid_credential
unfolding login legacy_store.Account.Tables.first eqb legacy_store.Base.Strings.to_lower
    legacy_store.Base.Strings.trim_space legacy_store.Base.Strings.is_space
wrong_run = refl

store-HasKeys : HasKeys store
unfolding legacy_store.Account.Tables.first
store-HasKeys = (refl, tt)

token_run : is_blank (answer_of entered).token ≡ false
unfolding login legacy_store.Account.Tables.first eqb legacy_store.Base.Strings.to_lower
    legacy_store.Base.Strings.trim_space legacy_store.Base.Strings.is_space
token_run = refl

end_run : (answer_of entered).expires_at ≡ 43300
unfolding login legacy_store.Account.Tables.first eqb legacy_store.Base.Strings.to_lower
    legacy_store.Base.Strings.trim_space legacy_store.Base.Strings.is_space
end_run = refl

in_time : 43299 < (answer_of entered).expires_at
in_time = omega (arith, end_run)

login-IsAdmitted_example :
    (u : UserRow) × IsAdmitted plain store (codes "Alice@mac.example") (codes "swordfish") [] 100 u
    × IsEntered plain store (visible_user store u) false 100 (store_of entered) (answer_of entered)
login-IsAdmitted_example =
    login-IsAdmitted plain store (codes "Alice@mac.example") (codes "swordfish") [] false safari
      (some (codes "token")) 100 entered_run

login-user_by_session_example :
    (touched : Database) × (session : Session) × (user_by_session plain.token_hash
        (store_of entered)
        (answer_of entered).token
        safari
        43299
      ≡ ok (touched, (answer_of entered).user, session))
login-user_by_session_example =
    login-user_by_session plain store (codes "Alice@mac.example") (codes "swordfish") [] false
      safari safari (some (codes "token")) 100 43299 store-HasKeys entered_run token_run in_time

logout-user_by_session_example :
    user_by_session plain.token_hash
      (logout plain.token_hash (store_of entered) (codes "token") 200)
      (codes "token")
      safari
      300
    ≡ err unauthorized
logout-user_by_session_example =
    logout-user_by_session plain.token_hash (store_of entered) (codes "token") 200 300 safari

abbrev found : Result Error (Database × User × Session)
found = user_by_session plain.token_hash (store_of entered) (codes "token") safari 200

abbrev database_of : Result Error (Database × User × Session) → Database
database_of (ok p) = p.0
database_of (err e) = store

abbrev user_of : Result Error (Database × User × Session) → User
user_of (ok p) = p.1
user_of (err e) = visible_user store alice

abbrev session_of : Result Error (Database × User × Session) → Session
session_of (ok p) = p.2
session_of (err e) = record {
  id = 0;
  device_name = [];
  ip_address = [];
  user_agent = [];
  remember_me = false;
  auth_kind = web;
  scopes = [];
  legacy_password_id = 0;
  legacy_device_identifier = [];
  expires_at = 0;
  last_seen_at = 0;
  created_at = 0;
}

found_run : found ≡ ok (database_of found, user_of found, session_of found)
unfolding user_by_session legacy_store.Account.Tables.first login eqb
    legacy_store.Base.Strings.to_lower legacy_store.Base.Strings.trim_space
    legacy_store.Base.Strings.is_space visible_user
found_run = refl

user_by_session-IsAccepted_example :
    IsAccepted plain.token_hash
      (store_of entered)
      (codes "token")
      200
      (user_of found)
      (session_of found)
user_by_session-IsAccepted_example =
    user_by_session-IsAccepted plain.token_hash (store_of entered) (codes "token") safari 200
      found_run

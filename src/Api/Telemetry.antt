-- ===== src/Api/Telemetry.antt =====
-- backend/internal/api/telemetry.go: what a request says of its client. The headers that no other
-- part reads stand in a record of their own; the pattern of Mac OS X versions is an argument.
mod Tests
use legacy_store.Account.Rows.{User, Session, Client, legacy, is_web}
use legacy_store.Account.Sessions.{user_by_session}
use legacy_store.Account.Tables.{Database}
use legacy_store.Api.Security.{Request, Net, client_ip, session_token, is_secure_request}
use legacy_store.Base.{
  ℕ, Bool, true, false, not, ◌&&◌, ◌||◌, List, [], ◌∷◌, map, Option, none, some, Text, codes, leb,
  ◌==◌, eqb, any, if◌then◌else◌, length, take, Result, ok, err,
}
use legacy_store.Base.Strings.{trim_space, to_lower, contains}
use legacy_store.Catalog.Telemetry.{ClientTelemetry}

pub record ClientHeaders : Type 0 where
  pub user_agent : Text
  pub client_version : Text
  pub os_version : Text
  pub os_arch : Text
  pub device_model : Text

abbrev is_empty : Text → Bool
is_empty [] = true
is_empty (c ∷ s) = false

-- `trimLimit`
abbrev pub trim_limit : Text → ℕ → Text
trim_limit raw limit =
    let value = trim_space raw in if leb (length value) limit then value else take limit value

-- `ReplaceAll(version, "_", ".")`
abbrev dotted : Text → Text
dotted version = map (λ c. if c == b'_' then b'.' else c) version

-- `inferMacOSVersion`; `find_version` gives what the pattern matches in its parentheses.
abbrev pub infer_mac_os_version : (Text → Option Text) → Text → Text
infer_mac_os_version find_version user_agent = elim (find_version user_agent) [
  | none ↦ []
  | some v ↦ dotted v
]

-- `inferOSArch`
unfoldable pub infer_os_arch : Text → Text
infer_os_arch user_agent =
    let lower = to_lower user_agent in
    if contains lower (codes "x86_64") || contains lower (codes "x86-64")
    then codes "x86_64"
    else if contains lower (codes "i386") || contains lower (codes "i686")
    then codes "i386"
    else []

abbrev bot_patterns : List Text
bot_patterns =
    codes "bot"
    ∷ codes "crawler"
    ∷ codes "spider"
    ∷ codes "slurp"
    ∷ codes "curl/"
    ∷ codes "wget/"
    ∷ codes "python-requests"
    ∷ codes "go-http-client"
    ∷ codes "scrapy"
    ∷ codes "libwww-perl"
    ∷ codes "headlesschrome"
    ∷ codes "feedfetcher"
    ∷ []

-- `isLikelyBotUserAgent`
unfoldable pub is_likely_bot_user_agent : Text → Bool
is_likely_bot_user_agent user_agent =
    let lower = to_lower (trim_space user_agent) in
    is_empty lower || any (contains lower) bot_patterns

abbrev is_intel : Text → Bool
is_intel arch = eqb arch (codes "i386") || eqb arch (codes "x86_64")

abbrev or_inferred : Bool → Text → Text → Text
or_inferred is_browser value inferred = if is_empty value && is_browser then inferred else value

module _ (net : Net) (trust : Text) (find_version : Text → Option Text) where
  -- `clientContext`: the client, and whether its visits count.
  unfoldable pub client_context : ClientHeaders → Request → ClientTelemetry × Bool
  unfolding infer_os_arch is_likely_bot_user_agent
  client_context headers req =
      let ua = trim_limit headers.user_agent 512 in
      let client_version = trim_limit headers.client_version 64 in
      let is_browser = is_empty client_version in
      let os_version =
        or_inferred is_browser (trim_limit headers.os_version 32)
          (infer_mac_os_version find_version ua) in
      let os_arch = or_inferred is_browser (trim_space headers.os_arch) (infer_os_arch ua) in
      (
        record {
          user_id = 0;
          username_snapshot = [];
          ip_address = elim (client_ip net trust req) [ none ↦ [] | some ip ↦ ip ];
          source = if is_browser then codes "web" else codes "native";
          user_agent = ua;
          client_version = client_version;
          os_version = os_version;
          os_arch = if is_intel os_arch then os_arch else [];
          device_model = trim_limit headers.device_model 160;
        },
        (if is_browser
            then not (is_empty ua) && not (is_likely_bot_user_agent ua)
            else not (is_empty os_version)),
      )

  abbrev of_user : User → Session → ClientTelemetry → ClientTelemetry
  of_user who session t = record t {
    user_id = who.id;
    username_snapshot = if is_empty (trim_space who.nickname) then who.email else who.nickname;
    source =
        if not (is_web session.auth_kind) && is_empty t.client_version
        then codes "legacy"
        else t.source;
  }

  -- `requestTelemetry`; looking the session up changes its row.
  unfoldable pub request_telemetry :
      (Text → Text) → Database → ClientHeaders → Request → ℕ → Database × ClientTelemetry × Bool
  unfolding client_context
  request_telemetry token_hash db headers req now =
      let (t, acceptable) = client_context headers req in
      if not acceptable
      then (db, t, false)
      else if is_empty (session_token req) || not (is_secure_request trust req)
      then (db, t, true)
      else elim (user_by_session token_hash db (session_token req)
          (record { ip = client_ip net trust req; user_agent = headers.user_agent }) now) [
            | err e ↦ (db, t, true)
            | ok (after, who, session) ↦ (after, of_user who session t, true)
          ]

-- ===== src/Api/Security.antt =====
-- api/security_middleware.go: `SecurityMiddleware`, with `isSecureRequest` of router.go and
-- `clientIP` and `sessionToken` of account_handlers.go. The IP and URL parsers of Go's `net` and
-- `net/url` are parameters; nothing is assumed of them.
pub mod Csrf
pub mod Guards
pub mod Headers
pub mod Refusals
mod Tests
use legacy_store.Api.RateLimiter.{Limiter, allow}
use legacy_store.Base.{
  ℕ, Bool, true, false, not, ◌&&◌, ◌||◌, List, [], ◌∷◌, ◌++◌, Option, none, some, Text, String,
  codes, eqb, length, drop, if◌then◌else◌,
}
use legacy_store.Base.Strings.{trim_space, has_prefix, split}
use legacy_store.Base.Strings.Hosts.{equal_fold, split_host_port, trim_brackets}

pub record Request : Type 0 where
  pub method : Text
  pub path : Text
  pub authorization : Text
  pub session_cookie : Option Text
  pub origin : Text
  pub referer : Text
  pub host : Text
  pub tls : Bool
  pub forwarded_proto : Text
  pub forwarded_for : Text
  pub real_ip : Text
  pub remote_addr : Text

-- `net.ParseIP` followed by `String`, and the host of `url.Parse`; `none` for an error.
pub record Net : Type 0 where
  pub parse_ip : Text → Option Text
  pub url_host : Text → Option Text

abbrev is : Text → String → Bool
is v name = eqb v (codes name)

abbrev is_empty : Text → Bool
is_empty [] = true
is_empty (c ∷ s) = false

abbrev bearer : Text
bearer = codes "Bearer "

abbrev has_bearer : Request → Bool
has_bearer req = has_prefix req.authorization bearer

-- `trust` is the variable TRUST_PROXY_HEADERS of the environment.
pub is_secure_request : Text → Request → Bool
is_secure_request trust req =
    req.tls || (equal_fold trust (codes "true") && equal_fold req.forwarded_proto (codes "https"))

pub is_credential_endpoint : Request → Bool
is_credential_endpoint req =
    is req.method "POST"
    && (is req.path "/api/v1/auth/login"
        || (is req.path "/api/v1/auth/register"
            || (is req.path "/api/v1/auth/legacy/login"
                || (is req.path "/api/v1/auth/2fa/verify"
                    || (is req.path "/api/v1/auth/recovery/request"
                        || is req.path "/api/v1/auth/recovery/reset")))))

pub uses_cookie_authentication : Request → Bool
uses_cookie_authentication req =
    if has_bearer req then false else elim req.session_cookie [ none ↦ false | some c ↦ true ]

-- `sessionToken` of account_handlers.go: where the handlers take the session from.
pub session_token : Request → Text
session_token req =
    if has_bearer req
    then trim_space (drop (length bearer) req.authorization)
    else elim req.session_cookie [ none ↦ [] | some c ↦ c ]

pub is_state_changing_method : Text → Bool
is_state_changing_method m = is m "POST" || (is m "PUT" || (is m "PATCH" || is m "DELETE"))

pub split_host_port_loose : Text → Text × Text
split_host_port_loose value = elim (split_host_port value) [
  | none ↦ (trim_brackets value, [])
  | some (host, port) ↦ (host, port)
]

pub equal_host_port : Text → Text → Bool
equal_host_port a b =
    let (a_host, a_port) = split_host_port_loose a in
    let (b_host, b_port) = split_host_port_loose b in
    if not (equal_fold a_host b_host)
    then false
    else if is_empty a_port || is_empty b_port
    then true
    else eqb a_port b_port

abbrev first_part : List Text → Text
first_part [] = []
first_part (p ∷ ps) = p

module _ (net : Net) where
  remote_ip : Request → Option Text
  remote_ip req = elim (split_host_port req.remote_addr) [
    | none ↦ net.parse_ip req.remote_addr
    | some (host, port) ↦ net.parse_ip host
  ]

  ip_of_header : Text → Option Text
  ip_of_header value = if is_empty value then none else net.parse_ip value

  -- The first entry of X-Forwarded-For.
  forwarded_ip : Text → Option Text
  forwarded_ip value =
      if is_empty value then none else net.parse_ip (trim_space (first_part (split value b',')))

  or_else : Option Text → Option Text → Option Text
  or_else none d = d
  or_else (some ip) d = some ip

  pub client_ip : Text → Request → Option Text
  client_ip trust req =
      if equal_fold trust (codes "true")
      then or_else (forwarded_ip req.forwarded_for)
          (or_else (ip_of_header req.real_ip) (remote_ip req))
      else remote_ip req

  pub rate_limit_key : Text → Request → Text
  rate_limit_key trust req = elim (client_ip trust req) [
    | none ↦ req.path ++ codes "|unknown"
    | some ip ↦ req.path ++ (codes "|" ++ ip)
  ]

  pub origin_matches_host : Text → Text → Bool
  origin_matches_host raw_url request_host = elim (net.url_host raw_url) [
    | none ↦ false
    | some [] ↦ false
    | some (c ∷ h) ↦ equal_host_port (c ∷ h) request_host
  ]

  pub same_origin_request : Request → Bool
  same_origin_request req =
      let origin = trim_space req.origin in
      let referer = trim_space req.referer in
      if not (is_empty origin) && not (is origin "null")
      then origin_matches_host origin req.host
      else if not (is_empty referer)
      then origin_matches_host referer req.host
      else true

-- What the client gets: the handler's answer, or an error status with its code.
pub data Outcome : Type 0 where
  handled : Outcome
  failed : ℕ → Text → Outcome

pub record Response : Type 0 where
  pub headers : List (Text × Text)
  pub outcome : Outcome

abbrev pub header : String → String → Text × Text
header name value = (codes name, codes value)

abbrev pub baseline : List (Text × Text)
baseline =
    header "X-Content-Type-Options" "nosniff"
    ∷ header "X-Frame-Options" "DENY"
    ∷ header "Referrer-Policy" "no-referrer"
    ∷ header "Permissions-Policy" "camera=(), microphone=(), geolocation=()"
    ∷ []

abbrev pub transport : List (Text × Text)
transport = header "Strict-Transport-Security" "max-age=31536000; includeSubDomains" ∷ []

-- The headers that the middleware has set before it decides.
secure_headers : Text → Request → List (Text × Text)
secure_headers trust req = if is_secure_request trust req then baseline ++ transport else baseline

-- The headers of `writeError`.
abbrev pub json_headers : List (Text × Text)
json_headers =
    header "Content-Type" "application/json; charset=utf-8" ∷ header "Cache-Control" "no-store" ∷ []

write_error : List (Text × Text) → ℕ → String → Response
write_error headers status code = record {
  headers = headers ++ json_headers;
  outcome = failed status (codes code);
}

module _ (net : Net) where
  -- The second half: the origin check, then the next handler.
  check_origin : List (Text × Text) → Request → Response
  check_origin headers req =
      if uses_cookie_authentication req
        && (is_state_changing_method req.method && not (same_origin_request net req))
      then write_error headers 403 "csrf_origin_rejected"
      else record { headers = headers; outcome = handled }

  after_limiter : List (Text × Text) → Request → Limiter × Bool → Limiter × Response
  after_limiter headers req (l, true) = (l, check_origin headers req)
  after_limiter headers req (l, false) =
      (l, write_error (headers ++ (header "Retry-After" "300" ∷ [])) 429 "rate_limited")

  -- `SecurityMiddleware`, with the shared limiter as its state.
  pub security_middleware : Text → Limiter → ℕ → Request → Limiter × Response
  security_middleware trust l now req =
      let headers = secure_headers trust req in
      if is_credential_endpoint req
      then after_limiter headers req (allow l (rate_limit_key net trust req) now)
      else (l, check_origin headers req)

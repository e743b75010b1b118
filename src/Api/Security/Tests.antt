-- ===== src/Api/Security/Tests.antt =====
-- Runs of the middleware, with simple parsers of addresses and URLs.
use legacy_store.Base.{
  ℕ, ◌≡◌, ◌≢◌, refl, sym, ◌∙◌, inl, true, false, List, [], ◌∷◌, Option, none, some, Text, codes,
  drop, if◌then◌else◌, Mem,
}
use legacy_store.Base.Strings.{has_prefix}
use legacy_store.Api.RateLimiter.{Limiter, new_limiter}
use legacy_store.Api.Security.{
  Request, Net, handled, failed, security_middleware, has_bearer, session_token,
  is_state_changing_method, baseline, header,
}
use legacy_store.Api.Security.Csrf.{IsFromHere, handled-IsFromHere}
use legacy_store.Api.Security.Headers.{IsHardened, security_middleware-IsHardened}

abbrev host_of : Text → Option Text
host_of url = if has_prefix url (codes "https://") then some (drop 8 url) else none

abbrev net : Net
net = record { parse_ip = λ s. some s; url_host = host_of }

abbrev post : Text → Request
post origin = record {
  method = codes "POST";
  path = codes "/api/v1/apps";
  authorization = [];
  session_cookie = some (codes "secret");
  origin = origin;
  referer = [];
  host = codes "store.example";
  tls = true;
  forwarded_proto = [];
  forwarded_for = [];
  real_ip = [];
  remote_addr = codes "10.0.0.1:5000";
}

abbrev ours : Request
ours = post (codes "https://store.example:443")

abbrev theirs : Request
theirs = post (codes "https://other.example")

abbrev limiter : Limiter
limiter = new_limiter 20 300

ours_run : (security_middleware net [] limiter 0 ours).1.outcome ≡ handled
unfolding security_middleware legacy_store.Api.Security.is_credential_endpoint legacy_store.Base.eqb
    legacy_store.Api.Security.check_origin legacy_store.Api.Security.uses_cookie_authentication
    has_prefix is_state_changing_method legacy_store.Api.Security.same_origin_request
    legacy_store.Base.Strings.trim_space legacy_store.Base.Strings.is_space
    legacy_store.Api.Security.origin_matches_host legacy_store.Api.Security.equal_host_port
    legacy_store.Base.Strings.Hosts.equal_fold legacy_store.Base.Strings.to_lower
    legacy_store.Api.Security.split_host_port_loose legacy_store.Base.Strings.Hosts.split_host_port
    legacy_store.Base.Strings.Hosts.trim_brackets
ours_run = refl

ours-method : is_state_changing_method ours.method ≡ true
unfolding is_state_changing_method legacy_store.Base.eqb
ours-method = refl

ours-bearer : has_bearer ours ≡ false
unfolding has_prefix
ours-bearer = refl

token_run : session_token ours ≡ codes "secret"
unfolding session_token has_prefix
token_run = refl

ours-token : session_token ours ≢ []
ours-token h = let clash : codes "secret" ≡ [] = sym token_run ∙ h in cc

theirs_run :
    (security_middleware net [] limiter 0 theirs).1.outcome
    ≡ failed 403 (codes "csrf_origin_rejected")
unfolding security_middleware legacy_store.Api.Security.is_credential_endpoint legacy_store.Base.eqb
    legacy_store.Api.Security.check_origin legacy_store.Api.Security.uses_cookie_authentication
    has_prefix is_state_changing_method legacy_store.Api.Security.same_origin_request
    legacy_store.Base.Strings.trim_space legacy_store.Base.Strings.is_space
    legacy_store.Api.Security.origin_matches_host legacy_store.Api.Security.equal_host_port
    legacy_store.Base.Strings.Hosts.equal_fold legacy_store.Base.Strings.to_lower
    legacy_store.Api.Security.split_host_port_loose legacy_store.Base.Strings.Hosts.split_host_port
    legacy_store.Base.Strings.Hosts.trim_brackets legacy_store.Api.Security.write_error
theirs_run = refl

handled-IsFromHere_example : IsFromHere net ours
handled-IsFromHere_example =
    handled-IsFromHere net [] limiter 0 ours ours_run ours-method ours-bearer ours-token

security_middleware-IsHardened_example :
    IsHardened [] theirs (security_middleware net [] limiter 0 theirs).1
security_middleware-IsHardened_example = security_middleware-IsHardened net [] theirs limiter 0

-- ===== src/Api/Security/Refusals.antt =====
-- Which requests the middleware turns away.
use legacy_store.Api.RateLimiter.{Limiter}
use legacy_store.Api.RateLimiter.Full.{IsFull}
use legacy_store.Api.Security.{
  Request, Net, uses_cookie_authentication, is_state_changing_method, same_origin_request,
  rate_limit_key,
}
use legacy_store.Api.Security.Csrf.{IsFromHere}
use legacy_store.Base.{ℕ, ◌≡◌, Bool, not, ◌&&◌, ◌++◌, some, Text, codes, Mem}
use legacy_store.Api.Security.Guards.{changing, IsCredential}

module _ (net : Net) where
  -- A request that changes state, whose session stands in the cookie and not in a bearer token,
  -- and whose headers name another host as the page that it comes from.
  pub record IsForeign (req : Request) : Type 0 where
    pub cookie : Text
    pub of_cookie : req.session_cookie ≡ some cookie
    pub no_bearer : ¬ ((rest : Text) × (req.authorization ≡ codes "Bearer " ++ rest))
    pub changes : Mem req.method changing
    pub not_here : ¬ IsFromHere net req

  abbrev forbids : Request → Bool
  forbids req =
      uses_cookie_authentication req
      && (is_state_changing_method req.method && not (same_origin_request net req))

  module _ (trust : Text) (l : Limiter) (now : ℕ) (req : Request) where
    -- The request tries a credential, and its client has used up the tries at this path.
    abbrev pub IsLimited : Type 0
    IsLimited = IsCredential req × IsFull l (rate_limit_key net trust req) now

    pub data IsRefused (status : ℕ) (code : Text) : Type 0 where
      too_many : status ≡ 429 → code ≡ codes "rate_limited" → IsLimited → IsRefused status code
      foreign :
          status ≡ 403
          → code ≡ codes "csrf_origin_rejected"
          → ¬ IsLimited
          → IsForeign req
          → IsRefused status code

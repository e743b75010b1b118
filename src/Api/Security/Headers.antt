-- ===== src/Api/Security/Headers.antt =====
-- The headers of every response.
use legacy_store.Api.RateLimiter.{Limiter, allow}
use legacy_store.Api.Security.{
  Request, Net, Outcome, baseline, transport, json_headers, header, handled, failed, Response,
  uses_cookie_authentication, is_state_changing_method, is_credential_endpoint, is_secure_request,
  same_origin_request, rate_limit_key, secure_headers, write_error, check_origin, after_limiter,
  security_middleware,
}
use legacy_store.Base.{
  ℕ, ◌≡◌, ◌⊎◌, refl, arith, Bool, true, false, not, ◌&&◌, List, [], ◌∷◌, ◌++◌, Option, none, some,
  Text, String, codes, eqb, if◌then◌else◌, ◌==◌, Bool-cases, inl, inr,
}
use legacy_store.Base.Strings.Hosts.{equal_fold}

-- The value of the first header with this name.
unfoldable pub value_of : String → List (Text × Text) → Option Text
value_of name [] = none
value_of name (h ∷ headers) = if eqb h.0 (codes name) then some h.1 else value_of name headers

-- The client has come over TLS, or a proxy that is trusted says so.
abbrev pub IsSecure : Text → Request → Type 0
IsSecure trust req =
    (req.tls ≡ true)
    ⊎ ((equal_fold trust (codes "true") ≡ true)
        × (equal_fold req.forwarded_proto (codes "https") ≡ true))

-- The headers that the outcome asks for.
abbrev pub FitsOutcome : Outcome → List (Text × Text) → Type 0
FitsOutcome handled headers = value_of "Retry-After" headers ≡ none
FitsOutcome (failed status code) headers =
    (value_of "Content-Type" headers ≡ some (codes "application/json; charset=utf-8"))
    × (value_of "Cache-Control" headers ≡ some (codes "no-store"))
    × (value_of "Retry-After" headers ≡ (if status == 429 then some (codes "300") else none))

pub record IsHardened (trust : Text) (req : Request) (r : Response) : Type 0 where
  pub sniffing : value_of "X-Content-Type-Options" r.headers ≡ some (codes "nosniff")
  pub framing : value_of "X-Frame-Options" r.headers ≡ some (codes "DENY")
  pub referrer : value_of "Referrer-Policy" r.headers ≡ some (codes "no-referrer")
  pub permissions :
      value_of "Permissions-Policy" r.headers
      ≡ some (codes "camera=(), microphone=(), geolocation=()")
  pub transport :
      (IsSecure trust req
        × (value_of "Strict-Transport-Security" r.headers
            ≡ some (codes "max-age=31536000; includeSubDomains")))
      ⊎ (¬ IsSecure trust req × (value_of "Strict-Transport-Security" r.headers ≡ none))
  pub of_outcome : FitsOutcome r.outcome r.headers

abbrev base_headers : Bool → List (Text × Text)
base_headers secure = if secure then baseline ++ transport else baseline

abbrev retry : List (Text × Text)
retry = header "Retry-After" "300" ∷ []

module _ (net : Net) (trust : Text) (req : Request) where
  secure_iff : is_secure_request trust req ≡ true → IsSecure trust req
  unfolding is_secure_request
  secure_iff h = elim (Bool-cases req.tls) [
    | inl e ↦ inl e
    | inr e ↦ inr (ground arith, ground arith)
  ]

  insecure : is_secure_request trust req ≡ false → ¬ IsSecure trust req
  unfolding is_secure_request
  insecure h (inl e) = ground arith
  insecure h (inr (t, p)) = ground arith

  -- What comes after the headers of every response decides on those of the outcome.
  after_base :
      (secure : Bool) (extra : List (Text × Text)) (o : Outcome)
      → FitsOutcome o extra
      → FitsOutcome o (base_headers secure ++ extra)
  unfolding value_of eqb
  after_base true extra handled f = f
  after_base true extra (failed status code) f = f
  after_base false extra handled f = f
  after_base false extra (failed status code) f = f

  -- A response that sets `extra` after the headers of every response.
  extended-IsHardened :
      (secure : Bool) (extra : List (Text × Text)) (o : Outcome)
      → is_secure_request trust req ≡ secure
      → value_of "Strict-Transport-Security" extra ≡ none
      → FitsOutcome o extra
      → IsHardened trust req record { headers = base_headers secure ++ extra; outcome = o }
  unfolding value_of eqb
  extended-IsHardened true extra o e n f = record {
    sniffing = refl;
    framing = refl;
    referrer = refl;
    permissions = refl;
    transport = inl (secure_iff e, refl);
    of_outcome = after_base true extra o f;
  }
  extended-IsHardened false extra o e n f = record {
    sniffing = refl;
    framing = refl;
    referrer = refl;
    permissions = refl;
    transport = inr (insecure e, n);
    of_outcome = after_base false extra o f;
  }

  abbrev forbids : Bool
  forbids =
      uses_cookie_authentication req
      && (is_state_changing_method req.method && not (same_origin_request net req))

  refused :
      (secure : Bool)
      → is_secure_request trust req ≡ secure
      → IsHardened trust req (write_error (base_headers secure) 403 "csrf_origin_rejected")
  unfolding write_error value_of eqb
  refused secure e = extended-IsHardened secure json_headers _ e refl (refl, refl, refl)

  limited :
      (secure : Bool)
      → is_secure_request trust req ≡ secure
      → IsHardened trust req (write_error (base_headers secure ++ retry) 429 "rate_limited")
  unfolding write_error value_of eqb
  limited true e = extended-IsHardened true (retry ++ json_headers) _ e refl (refl, refl, refl)
  limited false e = extended-IsHardened false (retry ++ json_headers) _ e refl (refl, refl, refl)

  passed :
      (secure : Bool)
      → is_secure_request trust req ≡ secure
      → IsHardened trust req record { headers = base_headers secure; outcome = handled }
  unfolding value_of
  passed true e = extended-IsHardened true [] handled e refl refl
  passed false e = extended-IsHardened false [] handled e refl refl

  check_origin-IsHardened : IsHardened trust req (check_origin net (secure_headers trust req) req)
  unfolding check_origin secure_headers
  check_origin-IsHardened = elim (Bool-cases forbids) [
    | inl e ↦ rw e (refused (is_secure_request trust req) refl)
    | inr e ↦ rw e (passed (is_secure_request trust req) refl)
  ]

  after_limiter-IsHardened :
      (r : Limiter × Bool)
      → IsHardened trust req (after_limiter net (secure_headers trust req) req r).1
  unfolding after_limiter secure_headers
  after_limiter-IsHardened (l, true) = check_origin-IsHardened
  after_limiter-IsHardened (l, false) = limited (is_secure_request trust req) refl

  -- Every response, an error too, has nosniff, DENY, no-referrer and the closed permissions as
  -- the values of the four security headers; it has Strict-Transport-Security, for a year and the
  -- subdomains, exactly if the request came over TLS or a trusted proxy says so; an error is JSON
  -- that no cache stores; and Retry-After, with 300, is set exactly for 429.
  pub security_middleware-IsHardened :
      (l : Limiter) (now : ℕ) → IsHardened trust req (security_middleware net trust l now req).1
  unfolding security_middleware
  security_middleware-IsHardened l now = elim (Bool-cases (is_credential_endpoint req)) [
    | inl e ↦ rw e (after_limiter-IsHardened (allow l (rate_limit_key net trust req) now))
    | inr e ↦ rw e check_origin-IsHardened
  ]

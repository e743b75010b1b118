-- ===== src/Api/Security/Csrf.antt =====
-- What a request that reaches a handler has been checked for.
use legacy_store.Api.RateLimiter.{Limiter}
use legacy_store.Api.Security.{
  Request, Net, handled, is, is_empty, has_bearer, uses_cookie_authentication, session_token,
  is_state_changing_method, split_host_port_loose, equal_host_port, origin_matches_host,
  same_origin_request, secure_headers, write_error, check_origin, after_limiter,
  security_middleware,
}
use legacy_store.Base.{
  ℕ, ◌≡◌, ◌≢◌, ◌⊎◌, refl, arith, true, false, not, ◌&&◌, ◌||◌, List, [], ◌∷◌, none, some, Text,
  codes, eqb, eqb_iff, if◌then◌else◌, Bool-cases, Option-cases, inl, inr,
}
use legacy_store.Base.Strings.{trim_space}
use legacy_store.Base.Strings.Hosts.{equal_fold}

-- Two hosts are the same up to case, and so are their ports where both are given.
pub record IsSameHost (a b : Text) : Type 0 where
  pub host : equal_fold (split_host_port_loose a).0 (split_host_port_loose b).0 ≡ true
  pub port :
      ((split_host_port_loose a).1 ≡ [])
      ⊎ (((split_host_port_loose b).1 ≡ [])
          ⊎ ((split_host_port_loose a).1 ≡ (split_host_port_loose b).1))

ports_agree :
    (p q : Text)
    → (if is_empty p || is_empty q then true else eqb p q) ≡ true
    → (p ≡ []) ⊎ ((q ≡ []) ⊎ (p ≡ q))
ports_agree [] q h = inl refl
ports_agree (c ∷ p) [] h = inr (inl refl)
ports_agree (c ∷ p) (d ∷ q) h = inr (inr ((eqb_iff (c ∷ p) (d ∷ q)).0 h))

equal_host_port-IsSameHost : (a b : Text) → equal_host_port a b ≡ true → IsSameHost a b
unfolding equal_host_port
equal_host_port-IsSameHost a b h = record {
  host = ground arith;
  port = ports_agree _ _ (ground arith);
}

module _ (net : Net) where
  -- The page that a request comes from, as its headers tell: the Origin, and failing that the
  -- Referer, names the host that it goes to; or it names neither.
  pub data IsFromHere (req : Request) : Type 0 where
    by_origin :
        (h : Text)
        → trim_space req.origin ≢ []
        → trim_space req.origin ≢ codes "null"
        → net.url_host (trim_space req.origin) ≡ some h
        → h ≢ []
        → IsSameHost h req.host
        → IsFromHere req
    by_referer :
        (h : Text)
        → (trim_space req.origin ≡ []) ⊎ (trim_space req.origin ≡ codes "null")
        → trim_space req.referer ≢ []
        → net.url_host (trim_space req.referer) ≡ some h
        → h ≢ []
        → IsSameHost h req.host
        → IsFromHere req
    unnamed :
        (trim_space req.origin ≡ []) ⊎ (trim_space req.origin ≡ codes "null")
        → trim_space req.referer ≡ []
        → IsFromHere req

  matches_named :
      (raw host h : Text)
      → net.url_host raw ≡ some h
      → origin_matches_host net raw host ≡ true
      → (h' : Text) × (net.url_host raw ≡ some h') × (h' ≢ []) × IsSameHost h' host
  unfolding origin_matches_host
  matches_named raw host [] e m = ground arith
  matches_named raw host (c ∷ h) e m =
      (c ∷ h, e, (λ x. cc), equal_host_port-IsSameHost (c ∷ h) host (ground arith))

  matches-parsed :
      (raw host : Text) → net.url_host raw ≡ none → origin_matches_host net raw host ≡ true → ⊥
  unfolding origin_matches_host
  matches-parsed raw host e m = ground arith

  matches-host :
      (raw host : Text)
      → origin_matches_host net raw host ≡ true
      → (h : Text) × (net.url_host raw ≡ some h) × (h ≢ []) × IsSameHost h host
  matches-host raw host m = elim (Option-cases (net.url_host raw)) [
    | inl e ↦ absurd (matches-parsed raw host e m)
    | inr (h, e) ↦ matches_named raw host h e m
  ]

  unnamed_text :
      (t : Text) → (not (is_empty t) && not (is t "null")) ≡ false → (t ≡ []) ⊎ (t ≡ codes "null")
  unnamed_text [] h = inl refl
  unnamed_text (c ∷ s) h = inr ((eqb_iff (c ∷ s) (codes "null")).0 (ground arith))

  named_text :
      (t : Text) → (not (is_empty t) && not (is t "null")) ≡ true → (t ≢ []) × (t ≢ codes "null")
  named_text [] h = absurd (let clash : false ≡ true = h in cc)
  named_text (c ∷ s) h =
      ((λ e. cc), λ e. let same = (eqb_iff (c ∷ s) (codes "null")).1 e in ground arith)

  given_text : (t : Text) → not (is_empty t) ≡ true → t ≢ []
  given_text [] h = absurd (let clash : false ≡ true = h in cc)
  given_text (c ∷ s) h = λ e. cc

  empty_text : (t : Text) → not (is_empty t) ≡ false → t ≡ []
  empty_text [] h = refl
  empty_text (c ∷ s) h = cc

  pub same_origin-IsFromHere : (req : Request) → same_origin_request net req ≡ true → IsFromHere req
  unfolding same_origin_request
  same_origin-IsFromHere req e =
      let origin = trim_space req.origin in
      let referer = trim_space req.referer in
      elim (Bool-cases (not (is_empty origin) && not (is origin "null"))) [
        | inl named ↦
            let (h, host, ne, same) = matches-host origin req.host (ground arith) in
            let (given, real) = named_text origin named in by_origin h given real host ne same
        | inr nameless ↦ elim (Bool-cases (not (is_empty referer))) [
          | inl refers ↦
              let (h, host, ne, same) = matches-host referer req.host (ground arith) in
              by_referer h (unnamed_text origin nameless) (given_text referer refers) host ne same
          | inr silent ↦ unnamed (unnamed_text origin nameless) (empty_text referer silent)
        ]
      ]

  check_origin-handled :
      (headers : List (Text × Text)) (req : Request)
      → (check_origin net headers req).outcome ≡ handled
      → uses_cookie_authentication req ≡ true
      → is_state_changing_method req.method ≡ true
      → same_origin_request net req ≡ true
  unfolding check_origin write_error
  check_origin-handled headers req h c m = ground arith

  middleware-handled :
      (trust : Text) (l : Limiter) (now : ℕ) (req : Request)
      → (security_middleware net trust l now req).1.outcome ≡ handled
      → (check_origin net (secure_headers trust req) req).outcome ≡ handled
  unfolding security_middleware after_limiter write_error
  middleware-handled trust l now req h = ground arith

  -- The handlers take a session from the cookie only where the middleware knows it.
  cookie-authenticates :
      (req : Request)
      → has_bearer req ≡ false
      → session_token req ≢ []
      → uses_cookie_authentication req ≡ true
  unfolding session_token uses_cookie_authentication
  cookie-authenticates req h ne = elim (Option-cases req.session_cookie) [
    | inl e ↦ absurd (ne (ground arith))
    | inr (c, e) ↦ ground arith
  ]

  -- A request that changes state, has no bearer token and takes a session from the cookie reaches
  -- a handler only if its headers name this host as the page that it comes from, or name no page
  -- at all.
  pub handled-IsFromHere :
      (trust : Text) (l : Limiter) (now : ℕ) (req : Request)
      → (security_middleware net trust l now req).1.outcome ≡ handled
      → is_state_changing_method req.method ≡ true
      → has_bearer req ≡ false
      → session_token req ≢ []
      → IsFromHere req
  handled-IsFromHere trust l now req h m b t = same_origin-IsFromHere req (
      check_origin-handled (secure_headers trust req) req (middleware-handled trust l now req h)
        (cookie-authenticates req b t) m)

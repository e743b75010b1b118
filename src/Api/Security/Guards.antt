-- ===== src/Api/Security/Guards.antt =====
-- The tests of the middleware, each beside a description of what it looks for.
use legacy_store.Api.Security.{
  Request, Net, is, is_empty, is_state_changing_method, is_credential_endpoint, same_origin_request,
  origin_matches_host, equal_host_port, split_host_port_loose,
}
use legacy_store.Api.Security.Csrf.{IsSameHost, IsFromHere, by_origin, by_referer, unnamed}
use legacy_store.Base.{
  ◌≡◌, ◌≢◌, ◌⊎◌, ◌↔◌, refl, arith, Bool, true, false, not, ◌&&◌, ◌||◌, List, [], ◌∷◌, ◌++◌, some,
  Text, codes, eqb, eqb_iff, Mem, if◌then◌else◌, Bool-cases, inl, inr,
}
use legacy_store.Base.Strings.{trim_space, has_prefix}

-- The endpoints that check a password, a code or a token.
abbrev pub credential_paths : List Text
credential_paths =
    codes "/api/v1/auth/login"
    ∷ codes "/api/v1/auth/register"
    ∷ codes "/api/v1/auth/legacy/login"
    ∷ codes "/api/v1/auth/2fa/verify"
    ∷ codes "/api/v1/auth/recovery/request"
    ∷ codes "/api/v1/auth/recovery/reset"
    ∷ []

abbrev pub changing : List Text
changing = codes "POST" ∷ codes "PUT" ∷ codes "PATCH" ∷ codes "DELETE" ∷ []

abbrev pub IsCredential : Request → Type 0
IsCredential req = (req.method ≡ codes "POST") × Mem req.path credential_paths

pub has_prefix_iff : (s p : Text) → (has_prefix s p ≡ true) ↔ ((rest : Text) × (s ≡ p ++ rest))
unfolding has_prefix
has_prefix_iff s [] = ((λ h. (s, refl)), λ h. refl)
has_prefix_iff [] (d ∷ p) =
    ((λ h. absurd (let clash : false ≡ true = h in cc)), λ h. absurd (let clash = h.1 in cc))
has_prefix_iff (c ∷ s) (d ∷ p) =
    let (to, from) = has_prefix_iff s p in
    (
      (λ h. let (rest, e) = to (ground arith) in let same : c ≡ d = ground arith in (rest, cc)),
      λ h.
          let (rest, e) = h in
          let tails : s ≡ p ++ rest = cc in
          let same : c ≡ d = cc in
          let further = from (rest, tails) in ground (arith, further, same),
    )

listed_iff :
    (x y : Text) {rest : Bool} {Rest : Type 0}
    → (rest ≡ true) ↔ Rest
    → ((eqb x y || rest) ≡ true) ↔ ((x ≡ y) ⊎ Rest)
listed_iff x y others = elim (Bool-cases (eqb x y)) [
  | inl e ↦ (λ h. inl ((eqb_iff x y).0 e), λ h. rw e refl)
  | inr e ↦ (
    λ h. inr (others.0 (rw e at h)),
    λ h. elim h [
      | inl same ↦ absurd (let equal = (eqb_iff x y).1 same in ground arith)
      | inr m ↦ rw e (others.1 m)
    ],
  )
]

last_iff : (x y : Text) → (eqb x y ≡ true) ↔ ((x ≡ y) ⊎ ⊥)
last_iff x y = (
  λ h. inl ((eqb_iff x y).0 h),
  λ h. elim h [ inl same ↦ (eqb_iff x y).1 same | inr m ↦ absurd m ],
)

pub changing_iff : (m : Text) → (is_state_changing_method m ≡ true) ↔ Mem m changing
unfolding is_state_changing_method
changing_iff m = listed_iff m _ (listed_iff m _ (listed_iff m _ (last_iff m _)))

pub is_credential_endpoint-IsCredential :
    (req : Request) → (is_credential_endpoint req ≡ true) ↔ IsCredential req
unfolding is_credential_endpoint
is_credential_endpoint-IsCredential req =
    let path = req.path in
    let (to, from) = listed_iff path _ (
      listed_iff path _
        (listed_iff path _ (listed_iff path _ (listed_iff path _ (last_iff path _))))) in
    elim (Bool-cases (eqb req.method (codes "POST"))) [
      | inl e ↦ (λ h. ((eqb_iff req.method _).0 e, to (rw e at h)), λ h. rw e (from h.1))
      | inr e ↦ (
        λ h. absurd (let clash : false ≡ true = rw e at h in cc),
        λ h. absurd (let same = (eqb_iff req.method _).1 h.0 in ground arith),
      )
    ]

ports_match :
    (p q : Text)
    → (p ≡ []) ⊎ ((q ≡ []) ⊎ (p ≡ q))
    → (if is_empty p || is_empty q then true else eqb p q) ≡ true
ports_match [] q h = refl
ports_match (c ∷ p) [] h = refl
ports_match (c ∷ p) (d ∷ q) h = (eqb_iff (c ∷ p) (d ∷ q)).1 (ground arith)

IsSameHost-equal_host_port : (a b : Text) → IsSameHost a b → equal_host_port a b ≡ true
unfolding equal_host_port
IsSameHost-equal_host_port a b same =
    let ports = ports_match (split_host_port_loose a).1 (split_host_port_loose b).1 same.port in
    rw same.host ports

module _ (net : Net) where
  IsSameHost-matches :
      (raw host h : Text)
      → net.url_host raw ≡ some h
      → h ≢ []
      → IsSameHost h host
      → origin_matches_host net raw host ≡ true
  unfolding origin_matches_host
  IsSameHost-matches raw host [] e ne same = absurd (ne refl)
  IsSameHost-matches raw host (c ∷ h) e ne same =
      rw (e, origin_matches_host) (IsSameHost-equal_host_port (c ∷ h) host same)

  nameless :
      (t : Text) → (t ≡ []) ⊎ (t ≡ codes "null") → (not (is_empty t) && not (is t "null")) ≡ false
  unfolding eqb
  nameless t (inl e) = rw e refl
  nameless t (inr e) = rw e refl

  given_test : (t : Text) → t ≢ [] → not (is_empty t) ≡ true
  given_test [] ne = absurd (ne refl)
  given_test (c ∷ t) ne = refl

  named_test :
      (t : Text) → t ≢ [] → t ≢ codes "null" → (not (is_empty t) && not (is t "null")) ≡ true
  named_test [] ne real = absurd (ne refl)
  named_test (c ∷ t) ne real = elim (Bool-cases (eqb (c ∷ t) (codes "null"))) [
    | inl e ↦ absurd (real ((eqb_iff (c ∷ t) (codes "null")).0 e))
    | inr e ↦ rw e refl
  ]

  pub IsFromHere-same_origin :
      (req : Request) → IsFromHere net req → same_origin_request net req ≡ true
  unfolding same_origin_request
  IsFromHere-same_origin req (by_origin h given real e ne same) =
      rw (named_test (trim_space req.origin) given real)
        (IsSameHost-matches (trim_space req.origin) req.host h e ne same)
  IsFromHere-same_origin req (by_referer h no_origin given e ne same) =
      rw (nameless (trim_space req.origin) no_origin) (
        rw (given_test (trim_space req.referer) given)
          (IsSameHost-matches (trim_space req.referer) req.host h e ne same))
  IsFromHere-same_origin req (unnamed no_origin no_referer) =
      rw (nameless (trim_space req.origin) no_origin) (rw no_referer refl)

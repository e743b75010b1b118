-- ===== src/Architecture/Hosts.antt =====
-- Which builds a host runs, and what `Compatible` decides.
use legacy_store.Base.{
  ℕ, ◌≡◌, ◌↔◌, ◌⊎◌, refl, sym, ◌∙◌, arith, Bool, true, false, ◌&&◌, ◌||◌, List, [], ◌∷◌, Option,
  none, some, Text, codes, eqb, any, any-mem, mem-any, all, all-mem, Mem, inl, inr, leb,
  if◌then◌else◌, Option-cases,
}
use legacy_store.Architecture.{supported, has, is, known, normalize_one, runs_on, compatible}
use legacy_store.Architecture.Canonical.{has-mem, mem-has, normalize_one-supported}
use legacy_store.Architecture.Collecting.{Names, Names-cons}

known-none :
    (v : Text) (values : List Text) → normalize_one v ≡ none → known (v ∷ values) ≡ known values
unfolding known
known-none v values e = rw (e, known)

known-some :
    (v : Text) (values : List Text) (n : Text)
    → normalize_one v ≡ some n
    → known (v ∷ values) ≡ n ∷ known values
unfolding known
known-some v values n e = rw (e, known)

pub known-Names : (values : List Text) (w : Text) → Mem w (known values) → Names values w
known-Names [] w m = absurd (unfold known in m)
known-Names (v ∷ values) w m = elim (Option-cases (normalize_one v)) [
  | inl e ↦ Names-cons values v (known-Names values w (rw (known-none v values e) at m))
  | inr (n, e) ↦
      let m' : (w ≡ n) ⊎ Mem w (known values) = rw (known-some v values n e) at m in
      elim m' [
        | inl same ↦ (v, inl refl, rw same e)
        | inr later ↦ Names-cons values v (known-Names values w later)
      ]
]

pub Names-known : (values : List Text) (w : Text) → Names values w → Mem w (known values)
Names-known [] w (v, m, h) = absurd m
Names-known (u ∷ values) w (v, m, h) = elim (Option-cases (normalize_one u)) [
  | inl e ↦ rw (known-none u values e) (elim m [
    | inl same ↦ let h' : normalize_one u ≡ some w = rw (← same) h in ground arith
    | inr later ↦ Names-known values w (v, later, h)
  ])
  | inr (n, e) ↦ rw (known-some u values n e) (elim m [
    | inl same ↦ let h' : normalize_one u ≡ some w = rw (← same) h in inl (ground arith)
    | inr later ↦ inr (Names-known values w (v, later, h))
  ])
]

-- The 32-bit Intel names, and the generations of the 32-bit PowerPC line: a processor runs what
-- was built for its own generation or an earlier one.
abbrev is_intel32 : Text → Bool
is_intel32 v = is v "i386" || is v "i686"

abbrev generation : Text → Option ℕ
generation v =
    if is v "ppc"
    then some 0
    else if is v "ppc-g3"
    then some 3
    else if is v "ppc-g4"
    then some 4
    else if is v "ppc-g5"
    then some 5
    else none

abbrev not_newer : Option ℕ → Option ℕ → Bool
not_newer (some b) (some h) = leb b h
not_newer (some b) none = false
not_newer none h = false

-- A host runs its own builds; 32-bit Intel builds where the system still has 32-bit support;
-- builds for its own or an earlier PowerPC generation; and a G5 also 64-bit PowerPC builds.
pub runs : Bool → Text → Text → Bool
runs with32 host build =
    eqb host build
    || (is_intel32 build && (is_intel32 host || (with32 && is host "x86_64")))
    || not_newer (generation build) (generation host)
    || (is host "ppc-g5" && is build "ppc64")

-- The builds that the switch of `Compatible` looks for, by host.
builds : Bool → Text → List Text
builds with32 host =
    if is_intel32 host
    then codes "i386" ∷ codes "i686" ∷ []
    else if is host "x86_64"
    then codes "x86_64" ∷ (if with32 then codes "i386" ∷ codes "i686" ∷ [] else [])
    else if is host "ppc"
    then codes "ppc" ∷ []
    else if is host "ppc-g3"
    then codes "ppc" ∷ codes "ppc-g3" ∷ []
    else if is host "ppc-g4"
    then codes "ppc" ∷ codes "ppc-g3" ∷ codes "ppc-g4" ∷ []
    else if is host "ppc-g5"
    then codes "ppc" ∷ codes "ppc-g3" ∷ codes "ppc-g4" ∷ codes "ppc-g5" ∷ codes "ppc64" ∷ []
    else if is host "ppc64"
    then codes "ppc64" ∷ []
    else []

runs_on-builds :
    (host : Text) (set : List Text) (with32 : Bool)
    → runs_on host set with32 ≡ any (has set) (builds with32 host)
unfolding runs_on builds
runs_on-builds host set true = ground arith
runs_on-builds host set false = ground arith

abbrev same_bool : Bool → Bool → Bool
same_bool true b = b
same_bool false true = false
same_bool false false = true

same_bool-eq : (a b : Bool) → same_bool a b ≡ true → a ≡ b
same_bool-eq a b h = ground arith

abbrev agrees : Bool → Bool
agrees with32 =
    all (λ host. all (λ b. same_bool (has (builds with32 host) b) (runs with32 host b)) supported)
      supported

builds-agree : (with32 : Bool) → agrees with32 ≡ true
unfolding builds runs has eqb
builds-agree true = refl
builds-agree false = refl

agree :
    (with32 : Bool) (host b : Text)
    → Mem host supported
    → Mem b supported
    → has (builds with32 host) b ≡ runs with32 host b
agree with32 host b mh mb = same_bool-eq _ _ (
    all-mem (λ c. same_bool (has (builds with32 host) c) (runs with32 host c)) b supported
      (all-mem (λ h. all (λ c. same_bool (has (builds with32 h) c) (runs with32 h c)) supported)
        host supported (builds-agree with32) mh)
      mb)

runs_on-true :
    (host : Text) (values : List Text) (with32 : Bool)
    → Mem host supported
    → runs_on host (known values) with32 ≡ true
    → (b : Text) × Names values b × (runs with32 host b ≡ true)
runs_on-true host values with32 mh h =
    let (b, m, k) =
      any-mem (has (known values)) (builds with32 host)
        (sym (runs_on-builds host (known values) with32) ∙ h) in
    let (v, mv, norm) = known-Names values b (has-mem (known values) b k) in
    let listed = mem-has (builds with32 host) b m in
    (b, (v, mv, norm), sym (agree with32 host b mh (normalize_one-supported v b norm)) ∙ listed)

true-runs_on :
    (host : Text) (values : List Text) (with32 : Bool) (b : Text)
    → Mem host supported
    → Names values b
    → runs with32 host b ≡ true
    → runs_on host (known values) with32 ≡ true
true-runs_on host values with32 b mh (v, mv, norm) h =
    let listed = agree with32 host b mh (normalize_one-supported v b norm) ∙ h in
    runs_on-builds host (known values) with32
    ∙ mem-any (has (known values)) b (builds with32 host) (has-mem (builds with32 host) b listed)
        (mem-has (known values) b (Names-known values b (v, mv, norm)))

-- The host is known, and one of the build's architectures is one that it runs.
abbrev pub Fits : Text → List Text → Bool → Type 0
Fits target artifact with32 =
    (host : Text) × (normalize_one target ≡ some host)
    × ((b : Text) × Names artifact b × (runs with32 host b ≡ true))

compatible-Fits :
    (target : Text) (artifact : List Text) (with32 : Bool)
    → compatible target artifact with32 ≡ true
    → Fits target artifact with32
unfolding compatible
compatible-Fits target artifact with32 h = elim (Option-cases (normalize_one target)) [
  | inl e ↦ ground arith
  | inr (host, e) ↦
      let canonical = normalize_one-supported target host e in
      (host, e, runs_on-true host artifact with32 canonical (ground arith))
]

Fits-compatible :
    (target : Text) (artifact : List Text) (with32 : Bool)
    → Fits target artifact with32
    → compatible target artifact with32 ≡ true
unfolding compatible
Fits-compatible target artifact with32 (host, e, (b, n, r)) =
    let canonical = normalize_one-supported target host e in
    rw (e, compatible) (true-runs_on host artifact with32 b canonical n r)

-- `Compatible` accepts a build exactly if the host is known and the host runs one of the build's
-- known architectures: its own builds, 32-bit Intel builds where the system allows, earlier
-- PowerPC generations, and 64-bit PowerPC on a G5.
pub compatible_iff :
    (target : Text) (artifact : List Text) (with32 : Bool)
    → (compatible target artifact with32 ≡ true) ↔ Fits target artifact with32
compatible_iff target artifact with32 =
    (compatible-Fits target artifact with32, Fits-compatible target artifact with32)

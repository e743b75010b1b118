-- ===== src/Catalog/Versions/Complete.antt =====
-- The versions of an application are in order, and each published file stands under its version.
use mathlib.Core.Option.{some-injective}
use legacy_store.Base.{
  ◌≡◌, refl, sym, ap, ◌∙◌, arith, true, false, List, [], ◌∷◌, ◌++◌, map, some, Text, inl, inr, eqb,
  eqb_iff, Bool-cases, Option-cases, if◌then◌else◌, Mem, mem-append_left, mem-append_right,
}
use legacy_store.Base.Dict.{lookup, lookup-insert}
use legacy_store.Base.Sorting
use legacy_store.Catalog.Row.{ArtifactRow, ArtifactResponse}
use legacy_store.Catalog.Versions.{
  VersionResponse, new_version, judged_response, version_in, add_row, by_version, is_newer,
  versions_from_artifacts,
}
use legacy_store.Compatibility.Engine.{Target}
use legacy_store.Compatibility.Version.Order.{compare_versions-flip, compare_versions_trans}

is_newer-asym : (a b : VersionResponse) → is_newer a b ≡ true → is_newer b a ≡ false
unfolding is_newer
is_newer-asym a b h = ground (arith, compare_versions-flip a.version b.version)

is_newer_trans :
    (a b c : VersionResponse) → is_newer b a ≡ false → is_newer c b ≡ false → is_newer c a ≡ false
unfolding is_newer
is_newer_trans a b c h k = compare_versions_trans c.version b.version a.version k h

-- The version of `key` holds the answer `a`.
record Holds (key : Text) (a : ArtifactResponse) (known : List (Text × VersionResponse))
    : Type 0 where
  found : VersionResponse
  known_there : lookup key known ≡ some found
  named : found.version ≡ key
  has : Mem a found.artifacts

-- A version under its name, one file longer.
abbrev longer : ArtifactResponse → VersionResponse → VersionResponse
longer a v = record v { artifacts = v.artifacts ++ a ∷ [] }

-- What is known after a round: the row's version is longer, all others are as before.
add_row-lookup :
    (target : Target) (known : List (Text × VersionResponse)) (row : ArtifactRow) (key : Text)
    → lookup key (add_row target known row) ≡ (
        if eqb row.version key
        then some (longer (judged_response target row) (version_in known row))
        else lookup key known)
unfolding add_row
add_row-lookup target known row key =
    lookup-insert row.version key (longer (judged_response target row) (version_in known row)) known

-- Each version is known under its own name.
IsKeyed : List (Text × VersionResponse) → Type 0
IsKeyed known = (key : Text) (v : VersionResponse) → lookup key known ≡ some v → v.version ≡ key

version_in-version :
    (known : List (Text × VersionResponse)) (row : ArtifactRow)
    → IsKeyed known
    → (version_in known row).version ≡ row.version
unfolding version_in IsKeyed new_version
version_in-version known row h = elim (Option-cases (lookup row.version known)) [
  | inl e ↦ rw (version_in, e) refl
  | inr (v, e) ↦ rw (version_in, e) (h row.version v e)
]

add_row-IsKeyed :
    (target : Target) (known : List (Text × VersionResponse)) (row : ArtifactRow)
    → IsKeyed known
    → IsKeyed (add_row target known row)
unfolding IsKeyed
add_row-IsKeyed target known row h key v e = elim (Bool-cases (eqb row.version key)) [
  | inl same ↦
      let found = rw (add_row-lookup target known row key, same) at e in
      sym (ap (λ w. w.version) (some-injective _ _ found))
      ∙ version_in-version known row h
      ∙ (eqb_iff row.version key).0 same
  | inr other ↦ h key v (rw (add_row-lookup target known row key, other) at e)
]

add_row-Holds :
    (target : Target) (known : List (Text × VersionResponse)) (row : ArtifactRow)
    → IsKeyed known
    → Holds row.version (judged_response target row) (add_row target known row)
add_row-Holds target known row h =
    let a = judged_response target row in
    let v = version_in known row in
    record {
      found = longer a v;
      known_there =
          add_row-lookup target known row row.version
          ∙ rw ((eqb_iff row.version row.version).1 refl) refl;
      named = version_in-version known row h;
      has = mem-append_right a v.artifacts (a ∷ []) (inl refl);
    }

Holds-add_row :
    (target : Target) (known : List (Text × VersionResponse)) (row : ArtifactRow) (key : Text)
    (a : ArtifactResponse)
    → Holds key a known
    → Holds key a (add_row target known row)
unfolding version_in
Holds-add_row target known row key a h = elim (Bool-cases (eqb row.version key)) [
  | inl same ↦
      let there : version_in known row ≡ h.found =
        rw (version_in, (eqb_iff row.version key).0 same, h.known_there) refl in
      let b = judged_response target row in
      record {
        found = longer b h.found;
        known_there = add_row-lookup target known row key ∙ rw (same, there) refl;
        named = h.named;
        has = mem-append_left a h.found.artifacts (b ∷ []) h.has;
      }
  | inr other ↦ record {
    found = h.found;
    known_there = add_row-lookup target known row key ∙ rw other h.known_there;
    named = h.named;
    has = h.has;
  }
]

Holds-by_version :
    (target : Target) (known : List (Text × VersionResponse)) (rows : List ArtifactRow) (key : Text)
    (a : ArtifactResponse)
    → Holds key a known
    → Holds key a (by_version target known rows)
unfolding by_version
Holds-by_version target known [] key a h = h
Holds-by_version target known (row ∷ rows) key a h =
    Holds-by_version target (add_row target known row) rows key a
      (Holds-add_row target known row key a h)

by_version-Holds :
    (target : Target) (known : List (Text × VersionResponse)) (rows : List ArtifactRow)
    (row : ArtifactRow)
    → IsKeyed known
    → Mem row rows
    → Holds row.version (judged_response target row) (by_version target known rows)
unfolding by_version
by_version-Holds target known [] row h m = absurd m
by_version-Holds target known (first ∷ rows) row h (inl e) = rw e (
    Holds-by_version target (add_row target known first) rows first.version
      (judged_response target first) (add_row-Holds target known first h))
by_version-Holds target known (first ∷ rows) row h (inr m) =
    by_version-Holds target (add_row target known first) rows row
      (add_row-IsKeyed target known first h) m

lookup-mem :
    (key : Text) (v : VersionResponse) (known : List (Text × VersionResponse))
    → lookup key known ≡ some v
    → Mem v (map (λ entry. entry.1) known)
unfolding lookup
lookup-mem key v [] h = absurd cc
lookup-mem key v ((k, w) ∷ known) h = elim (Bool-cases (eqb k key)) [
  | inl e ↦ inl (sym (some-injective w v (rw e at h)))
  | inr e ↦ inr (lookup-mem key v known (rw e at h))
]

-- The answer for a row stands in `versions`, under the row's version.
pub record Lists (target : Target) (row : ArtifactRow) (versions : List VersionResponse)
    : Type 0 where
  pub listed : VersionResponse
  pub listed_there : Mem listed versions
  pub version_same : listed.version ≡ row.version
  pub answer_there : Mem (judged_response target row) listed.artifacts

-- The answer of `versionsFromArtifacts` has newer versions first, and holds for each row a
-- version of the row's name with the row's answer and verdict, in whatever order the map of
-- versions is visited, as long as the visit leaves none out.
pub versions_from_artifacts-Lists :
    (visited : List VersionResponse → List VersionResponse) (target : Target)
    (rows : List ArtifactRow) (row : ArtifactRow)
    → ((v : VersionResponse) (vs : List VersionResponse) → Mem v vs → Mem v (visited vs))
    → Mem row rows
    → Sorting.IsOrdered is_newer (versions_from_artifacts visited target rows)
      × Lists target row (versions_from_artifacts visited target rows)
unfolding versions_from_artifacts IsKeyed
versions_from_artifacts-Lists visited target rows row all m =
    let known = by_version target [] rows in
    let found = map (λ entry. entry.1) known in
    let h = by_version-Holds target [] rows row (unfold lookup in λ key v e. absurd cc) m in
    (
      Sorting.sort-IsOrdered is_newer is_newer-asym is_newer_trans (visited found),
      record {
        listed = h.found;
        listed_there =
            Sorting.sort-mem is_newer h.found (visited found)
              (all h.found found (lookup-mem row.version h.found known h.known_there));
        version_same = h.named;
        answer_there = h.has;
      },
    )

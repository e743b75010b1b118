-- ===== src/Catalog/Manifest/Extended.antt =====
-- The versions of the manifest as they stand once further rows are added to them.
use legacy_store.Base.{
  ℕ, suc, ◌≡◌, refl, sym, ap, ap₂, arith, true, false, List, [], ◌∷◌, ◌++◌, map, some, inl, inr,
  ◌==◌, ==_iff, Bool-cases, Option-cases, if◌then◌else◌, length,
}
use legacy_store.Base.Queries.{select}
use mathlib.Core.List.{append_assoc, append-nil}
use legacy_store.Catalog.Row.{ArtifactRow}
use legacy_store.Catalog.Manifest.Index.{is_listed, place_in, Once, is_listed-append}
use legacy_store.Catalog.Manifest.{
  ManifestArtifact, ManifestVersion, manifest_artifact, manifest_version, add_artifact, append_at,
}

-- The rows of one version, in their order.
abbrev pub of_version : ℕ → List ArtifactRow → List ManifestArtifact
of_version id rows = map manifest_artifact (select (λ row. row.version_id == id) rows)

abbrev pub with_rows : List ArtifactRow → ℕ → ManifestVersion → ManifestVersion
with_rows rows id v = record v { artifacts = v.artifacts ++ of_version id rows }

-- The version that a row opens, with all its files.
abbrev pub version_of : List ArtifactRow → ArtifactRow → ManifestVersion
version_of rows row = with_rows rows row.version_id (manifest_version row)

-- The rows whose version no earlier row has and `ids` does not hold.
abbrev pub first_rows : List ℕ → List ArtifactRow → List ArtifactRow
first_rows ids [] = []
first_rows ids (row ∷ rows) =
    if is_listed row.version_id ids
    then first_rows ids rows
    else row ∷ first_rows (ids ++ row.version_id ∷ []) rows

abbrev pub extended : List ArtifactRow → List ℕ → List ManifestVersion → List ManifestVersion
extended rows [] versions = versions
extended rows (id ∷ ids) [] = []
extended rows (id ∷ ids) (v ∷ versions) = with_rows rows id v ∷ extended rows ids versions

-- A row of another version adds nothing.
pub with_rows_other :
    (row : ArtifactRow) (rows : List ArtifactRow) (id : ℕ) (v : ManifestVersion)
    → (row.version_id == id) ≡ false
    → with_rows (row ∷ rows) id v ≡ with_rows rows id v
unfolding select
with_rows_other row rows id v h = rw h refl

-- A row of the version is added first.
pub with_rows_same :
    (row : ArtifactRow) (rows : List ArtifactRow) (id : ℕ) (v : ManifestVersion)
    → row.version_id ≡ id
    → with_rows rows id (add_artifact (manifest_artifact row) v) ≡ with_rows (row ∷ rows) id v
unfolding select add_artifact
with_rows_same row rows id v h =
    let e : (row.version_id == id) ≡ true = (==_iff row.version_id id).1 h in
    rw e (
      ap (λ l. record v { artifacts = l })
        (append_assoc v.artifacts (manifest_artifact row ∷ []) (of_version id rows)))

pub extended_other :
    (row : ArtifactRow) (rows : List ArtifactRow) (ids : List ℕ) (versions : List ManifestVersion)
    → is_listed row.version_id ids ≡ false
    → extended (row ∷ rows) ids versions ≡ extended rows ids versions
extended_other row rows [] versions h = refl
extended_other row rows (id ∷ ids) [] h = refl
extended_other row rows (id ∷ ids) (v ∷ versions) h =
    let here : (row.version_id == id) ≡ false = ground (arith, h) in
    let there : is_listed row.version_id ids ≡ false = ground (arith, h) in
    ap₂ (λ w ws. w ∷ ws) (with_rows_other row rows id v here)
      (extended_other row rows ids versions there)

pub extended_new :
    (rows : List ArtifactRow) (k : ℕ) (v : ManifestVersion) (ids : List ℕ)
    (versions : List ManifestVersion)
    → length ids ≡ length versions
    → extended rows (ids ++ k ∷ []) (versions ++ v ∷ [])
      ≡ extended rows ids versions ++ with_rows rows k v ∷ []
extended_new rows k v [] [] h = refl
extended_new rows k v [] (w ∷ versions) h = absurd (omega arith)
extended_new rows k v (id ∷ ids) [] h = absurd (omega arith)
extended_new rows k v (id ∷ ids) (w ∷ versions) h =
    ap (◌∷◌ (with_rows rows id w)) (extended_new rows k v ids versions (omega arith))

-- The versions after a file of the version at a known place has been added.
pub record IsPlaced (row : ArtifactRow) (rows : List ArtifactRow) (position : ℕ) (ids : List ℕ)
    (versions : List ManifestVersion) : Type 0 where
  pub further : List ManifestVersion
  pub placed_there : append_at position (manifest_artifact row) versions ≡ some further
  pub as_many : length ids ≡ length further
  pub agrees : extended rows ids further ≡ extended (row ∷ rows) ids versions

pub append_at-IsPlaced :
    (row : ArtifactRow) (rows : List ArtifactRow) (position : ℕ) (ids : List ℕ)
    (versions : List ManifestVersion)
    → place_in row.version_id ids ≡ some position
    → length ids ≡ length versions
    → Once ids
    → IsPlaced row rows position ids versions
unfolding append_at
append_at-IsPlaced row rows position [] versions h l o = absurd cc
append_at-IsPlaced row rows position (id ∷ ids) [] h l o = absurd (omega arith)
append_at-IsPlaced row rows position (id ∷ ids) (v ∷ versions) h l (fresh, o) =
    elim (Bool-cases (id == row.version_id)) [
      | inl e ↦
          let same : row.version_id ≡ id = sym ((==_iff id row.version_id).0 e) in
          let start : position ≡ 0 = ground (arith, e, h) in
          record {
            further = add_artifact (manifest_artifact row) v ∷ versions;
            placed_there = rw start refl;
            as_many = l;
            agrees =
                ap₂ (λ w ws. w ∷ ws) (with_rows_same row rows id v same)
                  (sym (extended_other row rows ids versions (rw same fresh)));
          }
      | inr e ↦ elim (Option-cases (place_in row.version_id ids)) [
        | inl none_there ↦ absurd (ground (arith, e, none_there, h))
        | inr (n, e') ↦
            let next : position ≡ suc n = ground (arith, e, e', h) in
            let there = append_at-IsPlaced row rows n ids versions e' (omega arith) o in
            let other : (row.version_id == id) ≡ false = ground arith in
            record {
              further = v ∷ there.further;
              placed_there = rw (next, there.placed_there) refl;
              as_many = ap suc there.as_many;
              agrees =
                  ap₂ (λ w ws. w ∷ ws) (sym (with_rows_other row rows id v other)) there.agrees;
            }
      ]
    ]

pub append_at_new :
    (a : ManifestArtifact) (v : ManifestVersion) (versions : List ManifestVersion)
    → append_at (length versions) a (versions ++ v ∷ []) ≡ some (versions ++ add_artifact a v ∷ [])
unfolding append_at
append_at_new a v [] = refl
append_at_new a v (w ∷ versions) = rw (append_at_new a v versions) refl

-- A version that is known already gets nothing from the rows of new versions.
pub map-version_of :
    (row : ArtifactRow) (all : List ArtifactRow) (ids : List ℕ) (rows : List ArtifactRow)
    → is_listed row.version_id ids ≡ true
    → map (version_of (row ∷ all)) (first_rows ids rows)
      ≡ map (version_of all) (first_rows ids rows)
map-version_of row all ids [] h = refl
map-version_of row all ids (r ∷ rows) h = elim (Bool-cases (is_listed r.version_id ids)) [
  | inl e ↦ rw e (map-version_of row all ids rows h)
  | inr e ↦
      let other : (row.version_id == r.version_id) ≡ false =
        elim (Bool-cases (row.version_id == r.version_id)) [
          | inl same ↦ absurd (let k = rw ((==_iff row.version_id r.version_id).0 same) at h in cc)
          | inr different ↦ different
        ] in
      let later : is_listed row.version_id (ids ++ r.version_id ∷ []) ≡ true =
        ground (arith, h, is_listed-append row.version_id r.version_id ids) in
      rw e (
        ap₂ (λ w ws. w ∷ ws) (with_rows_other row all r.version_id (manifest_version r) other)
          (map-version_of row all (ids ++ r.version_id ∷ []) rows later))
]

pub extended-none :
    (ids : List ℕ) (versions : List ManifestVersion)
    → length ids ≡ length versions
    → extended [] ids versions ≡ versions
unfolding select
extended-none [] versions h = refl
extended-none (id ∷ ids) [] h = absurd (omega arith)
extended-none (id ∷ ids) (v ∷ versions) h =
    ap₂ (λ a b. record v { artifacts = a } ∷ b) (append-nil v.artifacts)
      (extended-none ids versions (omega arith))

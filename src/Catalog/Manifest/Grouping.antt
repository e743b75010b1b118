-- ===== src/Catalog/Manifest/Grouping.antt =====
-- `manifestVersions` against a description of its result that has no index and no state.
use legacy_store.Base.{
  ℕ, ◌≡◌, refl, sym, ap, ap₂, ◌∙◌, arith, true, false, List, [], ◌∷◌, ◌++◌, map, none, some, inl,
  inr, Option-cases, length, length-append,
}
use mathlib.Core.List.{append_assoc, append-nil}
use legacy_store.Catalog.Row.{ArtifactRow}
use legacy_store.Catalog.Manifest.Index.{
  is_listed, place_in, IsIndex, Once, place_in-none, place_in-some, is_listed-append, Once-append,
  IsIndex-new,
}
use legacy_store.Catalog.Manifest.{
  ManifestVersion, manifest_artifact, manifest_version, add_artifact, position_of, append_at,
  placed, group_from, manifest_versions,
}
use legacy_store.Catalog.Manifest.Extended.{
  with_rows, version_of, first_rows, extended, with_rows_same, extended_other, extended_new,
  append_at-IsPlaced, append_at_new, map-version_of, extended-none,
}

-- One round of the loop.
group_from_round :
    (row : ArtifactRow) (rows : List ArtifactRow) (index index' : List (ℕ × ℕ))
    (versions versions' further : List ManifestVersion) (position : ℕ)
    → placed row index versions ≡ (position, index', versions')
    → append_at position (manifest_artifact row) versions' ≡ some further
    → group_from index versions (row ∷ rows) ≡ group_from index' further rows
unfolding group_from
group_from_round row rows index index' versions versions' further position e k =
    rw (group_from, e, k) (ap (λ p. group_from p.1 further rows) e)

placed_known :
    (row : ArtifactRow) (index : List (ℕ × ℕ)) (versions : List ManifestVersion) (n : ℕ)
    → position_of row.version_id index ≡ some n
    → placed row index versions ≡ (n, index, versions)
unfolding placed
placed_known row index versions n e = rw (placed, e) refl

placed_new :
    (row : ArtifactRow) (index : List (ℕ × ℕ)) (versions : List ManifestVersion)
    → position_of row.version_id index ≡ none
    → placed row index versions ≡ (
      length versions,
      (row.version_id, length versions) ∷ index,
      versions ++ manifest_version row ∷ [],
    )
unfolding placed
placed_new row index versions e = rw (placed, e) refl

-- A new version stands last.
extended_opened :
    (row : ArtifactRow) (rows : List ArtifactRow) (ids : List ℕ) (versions : List ManifestVersion)
    → is_listed row.version_id ids ≡ false
    → length ids ≡ length versions
    → extended rows
          (ids ++ row.version_id ∷ [])
          (versions ++ add_artifact (manifest_artifact row) (manifest_version row) ∷ [])
        ++ map (version_of rows) (first_rows (ids ++ row.version_id ∷ []) rows)
      ≡ extended (row ∷ rows) ids versions
        ++ map (version_of (row ∷ rows)) (first_rows ids (row ∷ rows))
extended_opened row rows ids versions h l =
    let ids' = ids ++ row.version_id ∷ [] in
    let opened = add_artifact (manifest_artifact row) (manifest_version row) in
    let known : is_listed row.version_id ids' ≡ true =
      ground (arith, is_listed-append row.version_id row.version_id ids) in
    let later = map (version_of rows) (first_rows ids' rows) in
    ap (λ vs. vs ++ later) (extended_new rows row.version_id opened ids versions l)
    ∙ append_assoc (extended rows ids versions) (with_rows rows row.version_id opened ∷ []) later
    ∙ ap₂ (λ a b. a ++ b) (sym (extended_other row rows ids versions h))
        (rw h (
          ap₂ (λ w ws. w ∷ ws) (with_rows_same row rows row.version_id (manifest_version row) refl)
            (sym (map-version_of row rows ids' rows known))))

-- What the loop makes of the versions and the index of the rows before.
group_from_lem :
    (rows : List ArtifactRow) (index : List (ℕ × ℕ)) (ids : List ℕ)
    (versions : List ManifestVersion)
    → IsIndex index ids
    → length ids ≡ length versions
    → Once ids
    → group_from index versions rows
      ≡ some (extended rows ids versions ++ map (version_of rows) (first_rows ids rows))
unfolding group_from
group_from_lem [] index ids versions h l o =
    ap some (sym (append-nil (extended [] ids versions) ∙ extended-none ids versions l))
group_from_lem (row ∷ rows) index ids versions h l o =
    elim (Option-cases (place_in row.version_id ids)) [
      | inl e ↦
          let listed = place_in-none row.version_id ids e in
          let opened = add_artifact (manifest_artifact row) (manifest_version row) in
          group_from_round row rows index _ versions _ _ _
            (placed_new row index versions (h row.version_id ∙ e))
            (append_at_new (manifest_artifact row) (manifest_version row) versions)
          ∙ group_from_lem rows ((row.version_id, length versions) ∷ index)
              (ids ++ row.version_id ∷ []) (versions ++ opened ∷ [])
              (IsIndex-new index ids row.version_id (length versions) h e (sym l))
              (omega (
                arith,
                l,
                length-append ids (row.version_id ∷ []),
                length-append versions (opened ∷ []),
              ))
              (Once-append row.version_id ids listed o)
          ∙ ap some (extended_opened row rows ids versions listed l)
      | inr (n, e) ↦
          let there = append_at-IsPlaced row rows n ids versions e l o in
          let listed = place_in-some row.version_id ids n e in
          group_from_round row rows index index versions versions there.further n
            (placed_known row index versions n (h row.version_id ∙ e)) there.placed_there
          ∙ group_from_lem rows index ids there.further h there.as_many o
          ∙ ap some (
              ap₂ (λ a b. a ++ b) there.agrees
                (rw listed (sym (map-version_of row rows ids rows listed))))
    ]

-- `manifestVersions` returns, without a panic, one version for each version identifier, in the
-- order of the first rows that have it, with the data of that first row and with the files of all
-- its rows in their order.
pub manifest_versions_lem :
    (rows : List ArtifactRow)
    → manifest_versions rows ≡ some (map (version_of rows) (first_rows [] rows))
unfolding manifest_versions
manifest_versions_lem rows = group_from_lem rows [] [] [] (unfold position_of in λ id. refl) refl tt

-- ===== src/Catalog/Versions.antt =====
-- catalog/store.go: `versionsFromArtifacts`, the versions of the page of an application. A map is
-- an association list; `range` visits it in any order, so the order is an argument.
pub mod Complete
mod Tests
use legacy_store.Architecture.{human_labels}
use legacy_store.Base.{
  ℕ, Bool, List, [], ◌∷◌, ◌++◌, map, Option, none, some, Text, codes, eqb, ltb, if◌then◌else◌,
}
use legacy_store.Base.Dict.{insert, lookup}
use legacy_store.Base.Int.{ℤ, pos, is_positive}
use legacy_store.Base.Sorting
use legacy_store.Catalog.Row.{ArtifactRow, ArtifactResponse, artifact_response, status_text}
use legacy_store.Catalog.Selection.{judge_row}
use legacy_store.Compatibility.Engine.{Target, Verdict}
use legacy_store.Compatibility.Version.{compare_versions}

pub record VersionResponse : Type 0 where
  pub version : Text
  pub release_date : Text
  pub changelog : Text
  pub is_recommended : Bool
  pub downloads : ℕ
  pub artifacts : List ArtifactResponse

-- The literal of a version that has no file yet.
unfoldable pub new_version : ArtifactRow → VersionResponse
new_version row = record {
  version = row.version;
  release_date = row.release_date;
  changelog = row.changelog;
  is_recommended = row.is_recommended;
  downloads = 0;
  artifacts = [];
}

-- The answer for one file, with the label and the status of its verdict.
unfoldable pub judged_response : Target → ArtifactRow → ArtifactResponse
judged_response target row =
    let result = judge_row target row in
    record (artifact_response row) {
      compatibility_label = result.label;
      compatibility_status = status_text result.status;
    }

unfoldable pub version_in : List (Text × VersionResponse) → ArtifactRow → VersionResponse
version_in known row = elim (lookup row.version known) [ none ↦ new_version row | some v ↦ v ]

-- One round of the loop over the rows.
unfoldable pub add_row :
    Target → List (Text × VersionResponse) → ArtifactRow → List (Text × VersionResponse)
add_row target known row =
    let v = version_in known row in
    insert row.version (record v { artifacts = v.artifacts ++ judged_response target row ∷ [] })
      known

unfoldable pub by_version :
    Target → List (Text × VersionResponse) → List ArtifactRow → List (Text × VersionResponse)
by_version target known [] = known
by_version target known (row ∷ rows) = by_version target (add_row target known row) rows

-- The test of `sort.SliceStable`: newer versions first.
unfoldable pub is_newer : VersionResponse → VersionResponse → Bool
is_newer a b = is_positive (compare_versions a.version b.version)

-- `versionsFromArtifacts`
unfoldable pub versions_from_artifacts :
    (List VersionResponse → List VersionResponse) → Target → List ArtifactRow → List VersionResponse
versions_from_artifacts visited target rows =
    Sorting.sort is_newer (visited (map (λ entry. entry.1) (by_version target [] rows)))

-- `archBadges`; a nil pointer is `none`.
pub arch_badges : Option ArtifactRow → List Text
arch_badges none = []
arch_badges (some row) = human_labels row.architectures

-- ===== src/Catalog/Manifest.antt =====
-- catalog/manifest.go: the versions of one application in the manifest that the clients download.
pub mod Index
pub mod Extended
pub mod Grouping
mod Tests
use legacy_store.Base.{
  ℕ, Bool, List, [], ◌∷◌, ◌++◌, Option, none, some, Text, ◌==◌, if◌then◌else◌, length, zero, suc,
}
use legacy_store.Catalog.Row.{ArtifactRow}

pub record ManifestArtifact : Type 0 where
  pub id : ℕ
  pub file_name : Text
  pub package_type : Text
  pub source_type : Text
  pub download_url : Text
  pub torrent_url : Text
  pub magnet_url : Text
  pub size_bytes : ℕ
  pub sha256 : Text
  pub min_os : Text
  pub max_supported_os : Text
  pub max_tested_os : Text
  pub hard_block_above_max : Bool
  pub architectures : List Text
  pub requires_rosetta : Bool
  pub requires_java : Bool
  pub install_notes : Text

pub record ManifestVersion : Type 0 where
  pub version : Text
  pub release_date : Text
  pub changelog : Text
  pub is_recommended : Bool
  pub artifacts : List ManifestArtifact

-- The literal of `manifestVersions` for one row.
unfoldable pub manifest_artifact : ArtifactRow → ManifestArtifact
manifest_artifact row = record {
  id = row.id;
  file_name = row.file_name;
  package_type = row.package_type;
  source_type = row.source_type;
  download_url = row.primary_download_url;
  torrent_url = row.torrent_url;
  magnet_url = row.magnet_url;
  size_bytes = row.size_bytes;
  sha256 = row.sha256;
  min_os = row.min_os;
  max_supported_os = row.max_supported_os;
  max_tested_os = row.max_tested_os;
  hard_block_above_max = row.hard_block_above_max;
  architectures = row.architectures;
  requires_rosetta = row.requires_rosetta;
  requires_java = row.requires_java;
  install_notes = row.install_notes;
}

-- The literal of a version that has no file yet.
unfoldable pub manifest_version : ArtifactRow → ManifestVersion
manifest_version row = record {
  version = row.version;
  release_date = row.release_date;
  changelog = row.changelog;
  is_recommended = row.is_recommended;
  artifacts = [];
}

-- `append` to the files of one version.
unfoldable pub add_artifact : ManifestArtifact → ManifestVersion → ManifestVersion
add_artifact a v = record v { artifacts = v.artifacts ++ a ∷ [] }

-- `index[id]`: the position of a version, where one is known. The newest entry stands first.
unfoldable pub position_of : ℕ → List (ℕ × ℕ) → Option ℕ
position_of id [] = none
position_of id ((known, position) ∷ index) =
    let further = position_of id index in if known == id then some position else further

-- `versions[position].Artifacts = append(...)`. A position out of range is a panic of the program,
-- here `none`.
unfoldable pub append_at :
    ℕ → ManifestArtifact → List ManifestVersion → Option (List ManifestVersion)
append_at position a [] = none
append_at zero a (v ∷ versions) = some (add_artifact a v ∷ versions)
append_at (suc position) a (v ∷ versions) = elim (append_at position a versions) [
  | none ↦ none
  | some rest ↦ some (v ∷ rest)
]

-- The position of the version of a row, and the index and the versions that know it.
unfoldable pub placed :
    ArtifactRow → List (ℕ × ℕ) → List ManifestVersion → ℕ × List (ℕ × ℕ) × List ManifestVersion
unfolding position_of
placed row index versions = elim (position_of row.version_id index) [
  | none ↦ (
    length versions,
    (row.version_id, length versions) ∷ index,
    versions ++ manifest_version row ∷ [],
  )
  | some position ↦ (position, index, versions)
]

-- The loop over the rows.
unfoldable pub group_from :
    List (ℕ × ℕ) → List ManifestVersion → List ArtifactRow → Option (List ManifestVersion)
unfolding append_at placed
group_from index versions [] = some versions
group_from index versions (row ∷ rows) =
    let (position, index', versions') = placed row index versions in
    elim (append_at position (manifest_artifact row) versions') [
      | none ↦ none
      | some further ↦ group_from index' further rows
    ]

-- `manifestVersions`
unfoldable pub manifest_versions : List ArtifactRow → Option (List ManifestVersion)
unfolding group_from
manifest_versions rows = group_from [] [] rows

-- ===== src/Catalog/Row.antt =====
-- catalog/sql.go and catalog/models.go: the row of an artifact and its answer to a client.
-- Identifiers and sizes are natural numbers: the columns hold no negative ones.
use legacy_store.Architecture.{human_labels}
use legacy_store.Base.{ℕ, Bool, List, [], Text, codes, eqb, if◌then◌else◌}
use legacy_store.Compatibility.Engine.{Artifact, Status}

pub record ArtifactRow : Type 0 where
  pub id : ℕ
  pub version_id : ℕ
  pub version : Text
  pub release_date : Text
  pub changelog : Text
  pub is_recommended : Bool
  pub file_name : Text
  pub package_type : Text
  pub source_type : Text
  pub storage_path : Text
  pub primary_download_url : Text
  pub torrent_url : Text
  pub magnet_url : Text
  pub size_bytes : ℕ
  pub sha256 : Text
  pub min_os : Text
  pub max_supported_os : Text
  pub max_tested_os : Text
  pub hard_block_above_max : Bool
  pub architectures : List Text
  pub requires_rosetta : Bool
  pub requires_java : Bool
  pub install_notes : Text

unfoldable pub compatibility_artifact : ArtifactRow → Artifact
compatibility_artifact a = record {
  min_os = a.min_os;
  max_supported_os = a.max_supported_os;
  max_tested_os = a.max_tested_os;
  hard_block_above_max = a.hard_block_above_max;
  architectures = a.architectures;
  requires_rosetta = a.requires_rosetta;
  requires_java = a.requires_java;
}

pub record ArtifactResponse : Type 0 where
  pub id : ℕ
  pub version : Text
  pub file_name : Text
  pub package_type : Text
  pub source_type : Text
  pub download_url : Text
  pub external_page_url : Text
  pub torrent_url : Text
  pub magnet_url : Text
  pub size_bytes : ℕ
  pub sha256 : Text
  pub min_os : Text
  pub max_supported_os : Text
  pub max_tested_os : Text
  pub hard_block_above_max : Bool
  pub archs : List Text
  pub architecture_labels : List Text
  pub requires_java : Bool
  pub install_notes : Text
  pub compatibility_label : Text
  pub compatibility_status : Text

-- The status and the label of a verdict are filled in by the callers.
unfoldable pub artifact_response : ArtifactRow → ArtifactResponse
artifact_response row =
    let external = eqb row.source_type (codes "external_page") in
    record {
      id = row.id;
      version = row.version;
      file_name = row.file_name;
      package_type = row.package_type;
      source_type = row.source_type;
      download_url = if external then [] else row.primary_download_url;
      external_page_url = if external then row.primary_download_url else [];
      torrent_url = row.torrent_url;
      magnet_url = row.magnet_url;
      size_bytes = row.size_bytes;
      sha256 = row.sha256;
      min_os = row.min_os;
      max_supported_os = row.max_supported_os;
      max_tested_os = row.max_tested_os;
      hard_block_above_max = row.hard_block_above_max;
      archs = row.architectures;
      architecture_labels = human_labels row.architectures;
      requires_java = row.requires_java;
      install_notes = row.install_notes;
      compatibility_label = [];
      compatibility_status = [];
    }

-- The string constants behind the statuses.
unfoldable pub status_text : Status → Text
status_text Status.blocked = codes "blocked"
status_text Status.untested = codes "untested"
status_text Status.probably_compatible = codes "probably_compatible"
status_text Status.compatible = codes "compatible"

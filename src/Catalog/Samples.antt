-- ===== src/Catalog/Samples.antt =====
-- The published files of the catalog's runs.
use legacy_store.Base.{ℕ, false, List, [], ◌∷◌, Text, codes}
use legacy_store.Catalog.Row.{ArtifactRow}
use legacy_store.Compatibility.Engine.{Target}

abbrev pub lion : Target
lion = record { os_version = codes "10.7.5"; arch = codes "x86_64"; os_series = false }

abbrev pub release : ℕ → Text → Text → ArtifactRow
release id version min_os = record {
  id = id;
  version_id = id;
  version = version;
  release_date = [];
  changelog = [];
  is_recommended = false;
  file_name = codes "app.dmg";
  package_type = codes "dmg";
  source_type = codes "hosted";
  storage_path = codes "objects/app.dmg";
  primary_download_url = [];
  torrent_url = [];
  magnet_url = [];
  size_bytes = 10;
  sha256 = [];
  min_os = min_os;
  max_supported_os = [];
  max_tested_os = codes "10.14";
  hard_block_above_max = false;
  architectures = codes "x86_64" ∷ [];
  requires_rosetta = false;
  requires_java = false;
  install_notes = [];
}

abbrev pub releases : List ArtifactRow
releases = release 1 (codes "1.0") (codes "10.5") ∷ release 2 (codes "2.0") (codes "10.8") ∷ []

-- Two files of the first version, with one of the second between them.
abbrev pub mixed : List ArtifactRow
mixed =
    release 1 (codes "1.0") []
    ∷ release 2 (codes "2.0") []
    ∷ record (release 3 (codes "1.0") []) { version_id = 1 }
    ∷ []

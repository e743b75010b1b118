-- ===== src/Catalog/Manifest/Tests.antt =====
-- Runs of the grouping of the manifest.
use legacy_store.Base.{◌≡◌, refl, some, map, Option, none, List, [], ◌∷◌, ℕ, length}
use legacy_store.Catalog.Manifest.{ManifestVersion, manifest_versions}
use legacy_store.Catalog.Manifest.Extended.{first_rows, version_of}
use legacy_store.Catalog.Manifest.Grouping.{manifest_versions_lem}
use legacy_store.Catalog.Samples.{mixed}

abbrev file_counts : Option (List ManifestVersion) → List ℕ
file_counts none = []
file_counts (some versions) = map (λ v. length v.artifacts) versions

mixed_run : file_counts (manifest_versions mixed) ≡ 2 ∷ 1 ∷ []
unfolding manifest_versions legacy_store.Catalog.Manifest.add_artifact
    legacy_store.Catalog.Manifest.manifest_version
mixed_run = refl

manifest_versions_lem_example :
    manifest_versions mixed ≡ some (map (version_of mixed) (first_rows [] mixed))
manifest_versions_lem_example = manifest_versions_lem mixed

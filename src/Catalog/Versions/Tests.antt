-- ===== src/Catalog/Versions/Tests.antt =====
-- Runs of the versions of an application's page.
use legacy_store.Base.{◌≡◌, refl, map, List, [], ◌∷◌, codes, inl, inr}
use legacy_store.Base.Sorting
use legacy_store.Catalog.Samples.{lion, release, mixed}
use legacy_store.Catalog.Versions.{VersionResponse, is_newer, versions_from_artifacts}
use legacy_store.Catalog.Versions.Complete.{Lists, versions_from_artifacts-Lists}

-- A map that is visited in the order in which its keys were added.
abbrev as_added : List VersionResponse → List VersionResponse
as_added versions = versions

versions_run :
    map (λ v. v.version) (versions_from_artifacts as_added lion mixed)
    ≡ codes "2.0" ∷ codes "1.0" ∷ []
unfolding versions_from_artifacts Sorting.sort legacy_store.Catalog.Versions.by_version
    legacy_store.Catalog.Versions.add_row legacy_store.Base.Dict.insert legacy_store.Base.eqb
    is_newer legacy_store.Compatibility.Version.compare_versions
    legacy_store.Compatibility.Version.parse_version legacy_store.Base.Strings.trim_space
    legacy_store.Catalog.Versions.version_in legacy_store.Base.Dict.lookup
    legacy_store.Catalog.Versions.new_version legacy_store.Base.Strings.is_space
    legacy_store.Base.Strings.split legacy_store.Base.Strings.atoi
    legacy_store.Base.Strings.magnitude legacy_store.Base.Strings.digits_value
    legacy_store.Base.Strings.is_digit
versions_run = refl

versions_from_artifacts-Lists_example :
    Sorting.IsOrdered is_newer (versions_from_artifacts as_added lion mixed)
    × Lists lion (release 2 (codes "2.0") []) (versions_from_artifacts as_added lion mixed)
versions_from_artifacts-Lists_example =
    versions_from_artifacts-Lists as_added lion mixed (release 2 (codes "2.0") []) (λ v vs m. m)
      (inr (inl refl))

-- ===== src/Catalog/Telemetry/Tests.antt =====
-- Runs of the counting of downloads.
use legacy_store.Base.{ℕ, ◌≡◌, suc, refl, Bool, true, false, [], ◌∷◌, some, codes}
use legacy_store.Catalog.Telemetry.{
  ClientTelemetry, PublishedArtifact, EventTables, is_same_client, record_completed_download,
  download_count,
}
use legacy_store.Catalog.Telemetry.Counting.{
  client_trace, published, record_completed_download_once,
}

abbrev dmg : PublishedArtifact
dmg = record { id = 1; version_id = 7; app_id = 3; is_approved = true }

abbrev zip : PublishedArtifact
zip = record { id = 2; version_id = 7; app_id = 3; is_approved = true }

abbrev tables : EventTables
tables = record { artifacts = dmg ∷ zip ∷ []; versions = []; apps = []; downloads = []; views = [] }

abbrev browser : ClientTelemetry
browser = record {
  user_id = 0;
  username_snapshot = [];
  ip_address = codes "10.0.0.1";
  source = codes "web";
  user_agent = codes "Safari";
  client_version = [];
  os_version = [];
  os_arch = [];
  device_model = [];
}

abbrev counted : EventTables × Bool
counted = record_completed_download tables 1 browser 100

counted_run : counted ≡ (counted.0, true)
unfolding record_completed_download legacy_store.Base.Strings.trim_space
    legacy_store.Base.Strings.is_space
counted_run = refl

dmg_run : published tables 1 ≡ some dmg
unfolding legacy_store.Base.Queries.first
dmg_run = refl

zip_run : published tables 2 ≡ some zip
unfolding legacy_store.Base.Queries.first
zip_run = refl

same_run : is_same_client (client_trace browser) (client_trace browser) ≡ true
unfolding legacy_store.Catalog.Telemetry.normalize_telemetry legacy_store.Base.Strings.trim_space
    legacy_store.Base.Strings.is_space legacy_store.Base.eqb
same_run = refl

record_completed_download_once_example :
    (download_count counted.0 7 ≡ suc (download_count tables 7))
    × (record_completed_download counted.0 2 browser 200 ≡ (counted.0, false))
record_completed_download_once_example =
    record_completed_download_once tables counted.0 1 2 browser browser 100 200 dmg zip dmg_run
      zip_run refl same_run counted_run

-- ===== src/Catalog/Telemetry.antt =====
-- catalog/telemetry.go: counting downloads and views. An address is the text of an IP that
-- `clientIP` has parsed, so the cast to `inet` keeps it.
pub mod Counting
mod Tests
use legacy_store.Base.{
  ℕ, suc, ◌+◌, Bool, true, false, not, ◌&&◌, ◌||◌, List, [], ◌∷◌, ◌++◌, Option, none, some, Text,
  codes, ltb, leb, ◌==◌, eqb, if◌then◌else◌, length, take, map, any,
}
use legacy_store.Base.Queries.{first, update, select}
use legacy_store.Base.Strings.{trim_space}

pub record ClientTelemetry : Type 0 where
  pub user_id : ℕ
  pub username_snapshot : Text
  pub ip_address : Text
  pub source : Text
  pub user_agent : Text
  pub client_version : Text
  pub os_version : Text
  pub os_arch : Text
  pub device_model : Text

-- The columns of `artifacts`, joined with `app_versions`, that an event needs.
pub record PublishedArtifact : Type 0 where
  pub id : ℕ
  pub version_id : ℕ
  pub app_id : ℕ
  pub is_approved : Bool

pub record PublishedVersion : Type 0 where
  pub id : ℕ
  pub app_id : ℕ
  pub version : Text

pub record PublishedApp : Type 0 where
  pub id : ℕ
  pub slug : Text
  pub is_approved : Bool

-- What an event keeps of its client: NULL for the empty text.
pub record Trace : Type 0 where
  pub user_id : Option ℕ
  pub username_snapshot : Option Text
  pub ip_address : Option Text
  pub source : Text
  pub user_agent : Option Text
  pub client_version : Option Text
  pub os_version : Option Text
  pub os_arch : Option Text
  pub device_model : Option Text

-- A row of `download_events`.
pub record DownloadEvent : Type 0 where
  pub artifact_id : ℕ
  pub app_id : ℕ
  pub version_id : ℕ
  pub trace : Trace
  pub completed_at : ℕ

-- A row of `app_view_events`.
pub record ViewEvent : Type 0 where
  pub app_id : ℕ
  pub trace : Trace
  pub first_viewed_at : ℕ
  pub last_viewed_at : ℕ

pub record EventTables : Type 0 where
  pub artifacts : List PublishedArtifact
  pub versions : List PublishedVersion
  pub apps : List PublishedApp
  pub downloads : List DownloadEvent
  pub views : List ViewEvent

-- `truncateTelemetry`
abbrev pub truncate_telemetry : Text → ℕ → Text
truncate_telemetry raw limit =
    let value = trim_space raw in if leb (length value) limit then value else take limit value

abbrev is_source : Text → Bool
is_source s = eqb s (codes "web") || eqb s (codes "legacy") || eqb s (codes "native")

abbrev is_intel : Text → Bool
is_intel s = eqb s (codes "i386") || eqb s (codes "x86_64")

-- `normalizeTelemetry`
unfoldable pub normalize_telemetry : ClientTelemetry → ClientTelemetry
normalize_telemetry t = record {
  user_id = t.user_id;
  username_snapshot = truncate_telemetry t.username_snapshot 160;
  ip_address = trim_space t.ip_address;
  source = let s = trim_space t.source in if is_source s then s else codes "web";
  user_agent = truncate_telemetry t.user_agent 512;
  client_version = truncate_telemetry t.client_version 64;
  os_version = truncate_telemetry t.os_version 32;
  os_arch = let s = trim_space t.os_arch in if is_intel s then s else [];
  device_model = truncate_telemetry t.device_model 160;
}

abbrev null_if_empty : Text → Option Text
null_if_empty [] = none
null_if_empty (c ∷ s) = some (c ∷ s)

abbrev is_empty : Text → Bool
is_empty [] = true
is_empty (c ∷ s) = false

abbrev is_anonymous : ClientTelemetry → Bool
is_anonymous t = t.user_id == 0

-- The columns that both inserts fill; an anonymous one has no user and no name.
abbrev pub trace_of : ClientTelemetry → Trace
trace_of t = record {
  user_id = if is_anonymous t then none else some t.user_id;
  username_snapshot = if is_anonymous t then none else null_if_empty t.username_snapshot;
  ip_address = null_if_empty t.ip_address;
  source = t.source;
  user_agent = null_if_empty t.user_agent;
  client_version = null_if_empty t.client_version;
  os_version = null_if_empty t.os_version;
  os_arch = null_if_empty t.os_arch;
  device_model = null_if_empty t.device_model;
}

abbrev same_option_text : Option Text → Option Text → Bool
same_option_text (some a) (some b) = eqb a b
same_option_text _ _ = false

-- The unique indexes: one event for a user, and one for an address without a user.
abbrev pub is_same_client : Trace → Trace → Bool
is_same_client a b = elim a.user_id [
  | some n ↦ elim b.user_id [ none ↦ false | some m ↦ m == n ]
  | none ↦ elim b.user_id [ none ↦ same_option_text b.ip_address a.ip_address | some m ↦ false ]
]

abbrev pub is_counted : ℕ → Trace → DownloadEvent → Bool
is_counted version_id trace e = (e.version_id == version_id) && is_same_client trace e.trace

unfoldable pub add_download : EventTables → PublishedArtifact → Trace → ℕ → EventTables × Bool
add_download t a trace now =
    let event : DownloadEvent = record {
      artifact_id = a.id;
      app_id = a.app_id;
      version_id = a.version_id;
      trace = trace;
      completed_at = now;
    } in
    if any (is_counted a.version_id trace) t.downloads
    then (t, false)
    else (record t { downloads = t.downloads ++ event ∷ [] }, true)

abbrev pub is_unknown : ClientTelemetry → Bool
is_unknown t = is_anonymous t && is_empty t.ip_address

-- `RecordCompletedDownload`: whether the download counts.
unfoldable pub record_completed_download :
    EventTables → ℕ → ClientTelemetry → ℕ → EventTables × Bool
unfolding normalize_telemetry first add_download
record_completed_download t artifact_id raw now =
    let client = normalize_telemetry raw in
    if is_unknown client
    then (t, false)
    else elim (first (λ a. (a.id == artifact_id) && a.is_approved) t.artifacts) [
      | none ↦ (t, false)
      | some a ↦ add_download t a (trace_of client) now
    ]

abbrev pub is_viewed : ℕ → Trace → ViewEvent → Bool
is_viewed app_id trace e = (e.app_id == app_id) && is_same_client trace e.trace

-- The columns that a repeated view sets: the user and the name stay.
abbrev pub viewed_again : Trace → ℕ → ViewEvent → ViewEvent
viewed_again trace now e = record {
  app_id = e.app_id;
  trace = record trace {
    user_id = (e.trace).user_id;
    username_snapshot = (e.trace).username_snapshot;
  };
  first_viewed_at = e.first_viewed_at;
  last_viewed_at = now;
}

unfoldable pub add_view : EventTables → ℕ → Trace → ℕ → EventTables
unfolding update
add_view t app_id trace now =
    let event : ViewEvent = record {
      app_id = app_id;
      trace = trace;
      first_viewed_at = now;
      last_viewed_at = now;
    } in
    if any (is_viewed app_id trace) t.views
    then record t { views = update (is_viewed app_id trace) (viewed_again trace now) t.views }
    else record t { views = t.views ++ event ∷ [] }

-- `RecordAppView`: whether the application is there.
unfoldable pub record_app_view : EventTables → Text → ClientTelemetry → ℕ → EventTables × Bool
unfolding normalize_telemetry first add_view
record_app_view t slug raw now =
    let client = normalize_telemetry raw in
    if is_unknown client
    then (t, false)
    else elim (first (λ a. eqb a.slug slug && a.is_approved) t.apps) [
      | none ↦ (t, false)
      | some a ↦ (add_view t a.id (trace_of client) now, true)
    ]

-- `AppIDBySlug`; `none` is `ErrNotFound`.
unfoldable pub app_id_of_slug : EventTables → Text → Option ℕ
unfolding first
app_id_of_slug t slug = elim (first (λ a. eqb a.slug slug && a.is_approved) t.apps) [
  | none ↦ none
  | some a ↦ some a.id
]

-- The rows that join a version.
unfoldable pub download_count : EventTables → ℕ → ℕ
unfolding select
download_count t version_id = length (select (λ e. e.version_id == version_id) t.downloads)

-- `VersionDownloadCounts`: the versions of an application have different names.
unfoldable pub version_download_counts : EventTables → ℕ → List (Text × ℕ)
unfolding select download_count
version_download_counts t app_id =
    map (λ v. (v.version, download_count t v.id)) (select (λ v. v.app_id == app_id) t.versions)

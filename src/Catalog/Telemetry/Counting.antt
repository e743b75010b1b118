-- ===== src/Catalog/Telemetry/Counting.antt =====
-- A client's download of a version counts once.
use legacy_store.Base.{
  ℕ, ◌≡◌, suc, refl, sym, ap, arith, Bool, true, false, ◌&&◌, List, [], ◌∷◌, ◌++◌, Option, some,
  inl, inr, ◌==◌, ==_iff, any, Bool-cases, length,
}
use legacy_store.Base.Queries.{first, select}
use legacy_store.Catalog.Telemetry.{
  ClientTelemetry, EventTables, PublishedArtifact, DownloadEvent, Trace, normalize_telemetry,
  trace_of, is_unknown, is_same_client, is_counted, add_download, record_completed_download,
  download_count,
}

-- The client as an event keeps it.
abbrev pub client_trace : ClientTelemetry → Trace
client_trace raw = trace_of (normalize_telemetry raw)

-- The artifact that the query finds.
abbrev pub published : EventTables → ℕ → Option PublishedArtifact
published t artifact_id = first (λ a. (a.id == artifact_id) && a.is_approved) t.artifacts

select-append :
    (p : DownloadEvent → Bool) (xs : List DownloadEvent) (y : DownloadEvent)
    → p y ≡ true
    → length (select p (xs ++ y ∷ [])) ≡ suc (length (select p xs))
unfolding select
select-append p [] y h = ground (arith, h)
select-append p (x ∷ xs) y h = ground (arith, h, select-append p xs y)

any-append :
    (p : DownloadEvent → Bool) (xs : List DownloadEvent) (y : DownloadEvent)
    → p y ≡ true
    → any p (xs ++ y ∷ []) ≡ true
any-append p [] y h = ground (arith, h)
any-append p (x ∷ xs) y h = ground (arith, any-append p xs y h)

-- What a download that counts has changed.
record IsAdded (t after : EventTables) (a : PublishedArtifact) (trace : Trace) : Type 0 where
  event : DownloadEvent
  of_version : event.version_id ≡ a.version_id
  of_client : event.trace ≡ trace
  adds : after.downloads ≡ t.downloads ++ event ∷ []
  same_artifacts : after.artifacts ≡ t.artifacts

add_download-IsAdded :
    (t after : EventTables) (a : PublishedArtifact) (trace : Trace) (now : ℕ)
    → add_download t a trace now ≡ (after, true)
    → IsAdded t after a trace
unfolding add_download
add_download-IsAdded t after a trace now h =
    elim (Bool-cases (any (is_counted a.version_id trace) t.downloads)) [
      | inl before ↦
          absurd (let e = rw before at h in let clash : false ≡ true = ap (λ p. p.1) e in cc)
      | inr fresh ↦
          let e = rw fresh at h in
          record {
            event = record {
              artifact_id = a.id;
              app_id = a.app_id;
              version_id = a.version_id;
              trace = trace;
              completed_at = now;
            };
            of_version = refl;
            of_client = refl;
            adds = sym (ap (λ p. (p.0).downloads) e);
            same_artifacts = sym (ap (λ p. (p.0).artifacts) e);
          }
    ]

record_completed_download-IsAdded :
    (t after : EventTables) (artifact_id : ℕ) (raw : ClientTelemetry) (now : ℕ)
    (a : PublishedArtifact)
    → published t artifact_id ≡ some a
    → record_completed_download t artifact_id raw now ≡ (after, true)
    → IsAdded t after a (client_trace raw)
unfolding record_completed_download
record_completed_download-IsAdded t after artifact_id raw now a found h =
    elim (Bool-cases (is_unknown (normalize_telemetry raw))) [
      | inl unknown ↦
          absurd (let e = rw unknown at h in let clash : false ≡ true = ap (λ p. p.1) e in cc)
      | inr known ↦
          add_download-IsAdded t after a (client_trace raw) now (rw found at (rw known at h))
    ]

-- A download that `RecordCompletedDownload` counts adds one to the downloads of its version;
-- after it, a download of the same version by the same client, be it of another file, is not
-- counted and changes nothing.
pub record_completed_download_once :
    (t after : EventTables) (artifact_id other_id : ℕ) (raw again : ClientTelemetry) (now later : ℕ)
    (a b : PublishedArtifact)
    → published t artifact_id ≡ some a
    → published t other_id ≡ some b
    → b.version_id ≡ a.version_id
    → is_same_client (client_trace again) (client_trace raw) ≡ true
    → record_completed_download t artifact_id raw now ≡ (after, true)
    → (download_count after a.version_id ≡ suc (download_count t a.version_id))
      × (record_completed_download after other_id again later ≡ (after, false))
unfolding record_completed_download download_count add_download
record_completed_download_once t after artifact_id other_id raw again now later a b found other
      same_version same_client h =
    let added = record_completed_download-IsAdded t after artifact_id raw now a found h in
    let e = added.event in
    let in_version : (e.version_id == a.version_id) ≡ true = (==_iff _ _).1 added.of_version in
    let of_client : is_same_client (client_trace again) e.trace ≡ true =
      rw added.of_client same_client in
    let counts : is_counted b.version_id (client_trace again) e ≡ true =
      rw same_version (rw in_version of_client) in
    let seen : any (is_counted b.version_id (client_trace again)) after.downloads ≡ true =
      rw added.adds (any-append _ t.downloads e counts) in
    let still : published after other_id ≡ some b = rw added.same_artifacts other in
    (
      rw added.adds (select-append (λ x. x.version_id == a.version_id) t.downloads e in_version),
      elim (Bool-cases (is_unknown (normalize_telemetry again))) [
        | inl unknown ↦ rw unknown refl
        | inr known ↦ rw known (rw still (rw seen refl))
      ],
    )

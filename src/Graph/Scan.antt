-- ===== src/Graph/Scan.antt =====
-- Full-volume observation scans: the durable session and its pages
-- (crates/filesystem-graph/src/store.rs).
pub mod Live
use local_search.Prelude.{
  ℕ, ◌+◌, ◌≡◌, Bool, true, false, not, ◌&&◌, ◌||◌, Option, none, some, List, [], ◌∷◌, ◌++◌, map,
  length, take, ltb, leb, ◌==◌, if◌then◌else◌, String, Result, ok, err, ◌>>=◌, ◌>>◌, reject_if,
  ok_or,
}
use local_search.Core.Ids.{VolumeId, FileLinkId, FileKey, be_bytes}
use local_search.Core.Models.{Text, FilesystemEvent, ReconciliationReason}
use local_search.Platform.{VolumeDescriptor, ProviderCheckpoint}
use local_search.Graph.Rows.{order_by, select, exists, find, delete, update, upsert}
use local_search.Graph.Types.{
  GraphError, GraphResult, VolumeState, ObservationScanMode, ObservationScanPhase,
  ObservationSession, ObservationFinalizeSummary, GraphMutationBatch, ApplySummary, from_events,
}
use local_search.Graph.Tables.{
  ObjectRow, LinkRow, SessionRow, FilesystemGraph, of_volume, of_session, links_to, checked_add_one,
  generation_of, set_generation, upsert_volume, save_checkpoint, enqueue_volume_projection_refresh,
}
use local_search.Graph.Links.{phase_eq, set_tombstoned, remove_link_internal}
use local_search.Graph.Projection.{durable, Encoding, sync_catalog_projection}
use local_search.Graph.Batch.{require_single_update, transact, apply_batch}

unfoldable pub begin_scan :
    VolumeDescriptor
    → ObservationScanMode
    → ReconciliationReason
    → FilesystemGraph
    → GraphResult (FilesystemGraph × ObservationSession)
begin_scan descriptor mode reason g = do
  let volume_id = descriptor.volume_id
  scan_generation ←
      checked_add_one (generation_of volume_id g.volumes) "observation scan generation"
  let known = upsert_volume descriptor g
  let marked : FilesystemGraph = record known {
    volumes =
        update (of_volume volume_id)
          (λ row. record row {
            state = VolumeState.needs_reconciliation;
            reconciliation_reason = some reason;
            generation = scan_generation;
          })
          known.volumes;
  }
  let queued = enqueue_volume_projection_refresh volume_id scan_generation marked
  let session : SessionRow = record {
    volume_id = volume_id;
    scan_generation = scan_generation;
    scan_mode = mode;
    phase = ObservationScanPhase.scanning;
    final_checkpoint = none;
  }
  ok (
    record queued {
      sessions = upsert (of_session volume_id) (λ old. session) session queued.sessions;
    },
    record {
      volume_id = volume_id;
      scan_generation = scan_generation;
      mode = mode;
      phase = ObservationScanPhase.scanning;
    },
  )

unfoldable pub begin_observation_scan :
    VolumeDescriptor
    → ObservationScanMode
    → ReconciliationReason
    → FilesystemGraph
    → FilesystemGraph × GraphResult ObservationSession
begin_observation_scan descriptor mode reason g = transact g (begin_scan descriptor mode reason g)

abbrev as_session : Option SessionRow → Option ObservationSession
as_session none = none
as_session (some row) = some (record {
  volume_id = row.volume_id;
  scan_generation = row.scan_generation;
  mode = row.scan_mode;
  phase = row.phase;
})

unfoldable pub observation_session : VolumeId → FilesystemGraph → Option ObservationSession
observation_session volume_id g = as_session (find (of_session volume_id) g.sessions)

-- "localsearch-observation-scan"
abbrev scan_provider_id : Text
scan_provider_id =
    108 ∷ 111 ∷ 99 ∷ 97 ∷ 108 ∷ 115 ∷ 101 ∷ 97 ∷ 114 ∷ 99 ∷ 104 ∷ 45 ∷ 111 ∷ 98 ∷ 115 ∷ 101 ∷ 114
    ∷ 118 ∷ 97 ∷ 116 ∷ 105 ∷ 111 ∷ 110 ∷ 45 ∷ 115 ∷ 99 ∷ 97 ∷ 110 ∷ []

unfoldable pub observation_scan_checkpoint : ObservationSession → ProviderCheckpoint
observation_scan_checkpoint session = record {
  provider_id = scan_provider_id;
  format_version = 1;
  volume_id = session.volume_id;
  opaque = be_bytes 8 session.scan_generation;
}

unfoldable pub stage_observation_checkpoint :
    VolumeId → ProviderCheckpoint → FilesystemGraph → FilesystemGraph × GraphResult (Unit {0})
stage_observation_checkpoint volume_id checkpoint g =
    let scanning = λ (s : SessionRow).
      of_session volume_id s && phase_eq s.phase ObservationScanPhase.scanning in
    if not (checkpoint.volume_id == volume_id)
    then (g, err (GraphError.invalid_batch "observation checkpoint crosses volumes"))
    else (
      record g {
        sessions =
            update scanning
              (λ s. record s {
                phase = ObservationScanPhase.sweeping_links;
                final_checkpoint = some checkpoint;
              })
              g.sessions;
      },
      require_single_update (length (select scanning g.sessions))
          "observation checkpoint has no scanning session",
    )

module _ (encoding : Encoding) where
  abbrev pub apply_page :
      VolumeId
      → List FilesystemEvent
      → FilesystemGraph
      → ObservationSession
      → FilesystemGraph × GraphResult ApplySummary
  apply_page volume_id [] g session = (
    g,
    ok (record {
      mutations = 0;
      generation = session.scan_generation;
      refresh_jobs_enqueued = 0;
      outbox_mutations_appended = 0;
    }),
  )
  apply_page volume_id (e ∷ es) g session =
      apply_batch encoding (from_events volume_id (observation_scan_checkpoint session) (e ∷ es)) g

  abbrev pub page_of_session :
      VolumeId
      → List FilesystemEvent
      → FilesystemGraph
      → Option ObservationSession
      → FilesystemGraph × GraphResult ApplySummary
  page_of_session volume_id events g none =
      (g, err (GraphError.invariant "observation scan page has no durable session"))
  page_of_session volume_id events g (some session) =
      if phase_eq session.phase ObservationScanPhase.scanning
      then apply_page volume_id events g session
      else (
        g,
        err (GraphError.invariant "observation scan page arrived after finalization started"),
      )

  unfoldable pub apply_observation_scan_page :
      VolumeId → List FilesystemEvent → FilesystemGraph → FilesystemGraph × GraphResult ApplySummary
  apply_observation_scan_page volume_id events g =
      page_of_session volume_id events g (observation_session volume_id g)

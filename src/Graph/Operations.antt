-- ===== src/Graph/Operations.antt =====
-- The calls of the store that write, in any sequence
-- (crates/filesystem-graph/src/store.rs).
pub mod Batches
pub mod Numbered
pub mod Reachable
pub mod Steps
use local_search.Prelude.{
  take, ℕ, Bool, ◌||◌, Option, none, some, List, [], ◌∷◌, ltb, ◌==◌, ok, err, reject_if,
  is_some_and, Ensures, bind-Ensures, arith, Bool-cases, inl, inr,
}
use local_search.Core.Ids.{VolumeId}
use local_search.Core.Models.{Text, FilesystemEvent, ReconciliationReason}
use local_search.Platform.{VolumeDescriptor, ProviderCheckpoint}
use local_search.Graph.Types.{
  GraphResult, ObservationScanMode, ObservationScanPhase, ObservationSession, GraphMutationBatch,
  OutboxMaintenanceSummary, DesiredPayloadMaintenanceSummary, from_events,
}
use local_search.Graph.Tables.{DocumentRow, Payload, compact, legacy, FilesystemGraph, try_i64}
use local_search.Graph.Links.{phase_eq}
use local_search.Graph.Links.LiveRows.{LinksLive}
use local_search.Graph.Projection.{ProjectionOutboxMode, durable, Encoding}
use local_search.Graph.Batch.{transact, apply_batch, apply_batch_with_outbox_mode, run_batch}
use local_search.Graph.Outbox.{
  latest_outbox_sequence, projector_checkpoint, least, safe_through, acknowledge_projection,
  reset_projection_consumer, prune_through, prune_consumed_outbox, prune_bounded,
  prune_rebuildable_outbox_bounded,
}
use local_search.Graph.Refresh.{
  refresh_projection_paths, refresh_volume_projection, complete_refresh_job,
}
use local_search.Graph.Desired.{
  is_legacy, by_document_id, compact_payload, compact_rows, compact_legacy,
  compact_legacy_desired_payloads_bounded,
}
use local_search.Graph.Rows.{select}
use local_search.Graph.Scan.{
  begin_scan, begin_observation_scan, observation_session, observation_scan_checkpoint,
  stage_observation_checkpoint, page_of_session, apply_observation_scan_page,
}
use local_search.Graph.Sweep.{finalize_observation_scan}

-- The calls that write.
pub data Operation : Type 0 where
  batch : GraphMutationBatch → ProjectionOutboxMode → Operation
  begin : VolumeDescriptor → ObservationScanMode → ReconciliationReason → Operation
  page : VolumeId → List FilesystemEvent → Operation
  stage : VolumeId → ProviderCheckpoint → Operation
  finalize : VolumeId → ℕ → Operation
  acknowledge : Text → ℕ → ℕ → Operation
  reset : Text → Operation
  prune : Operation
  prune_rebuildable : ℕ → Bool → Operation
  refresh_paths refresh_volume : ℕ → Operation
  complete_job : ℕ → Operation
  compact_payloads : ℕ → Operation

abbrev pub empty_graph : FilesystemGraph
empty_graph = record {
  volumes = [];
  checkpoints = [];
  objects = [];
  links = [];
  path_jobs = [];
  volume_jobs = [];
  documents = [];
  outbox = [];
  sequence = 0;
  consumers = [];
  sessions = [];
}

abbrev pub succeeded : FilesystemGraph → GraphResult FilesystemGraph → FilesystemGraph
succeeded g (ok g') = g'
succeeded g (err error) = g

abbrev pub succeeded_fst :
    {A : Type 0} → FilesystemGraph → GraphResult (FilesystemGraph × A) → FilesystemGraph
succeeded_fst g r = (transact g r).0

module _ (encoding : Encoding) where
  -- What a call leaves, whether it succeeds or not.
  unfoldable pub step : Operation → FilesystemGraph → FilesystemGraph
  step (batch b mode) g = (apply_batch_with_outbox_mode encoding b mode g).0
  step (begin descriptor mode reason) g = (begin_observation_scan descriptor mode reason g).0
  step (page volume_id events) g = (apply_observation_scan_page encoding volume_id events g).0
  step (stage volume_id checkpoint) g = (stage_observation_checkpoint volume_id checkpoint g).0
  step (finalize volume_id maximum_rows) g =
      (finalize_observation_scan encoding volume_id maximum_rows g).0
  step (acknowledge consumer sequence generation) g =
      succeeded g (acknowledge_projection consumer sequence generation g)
  step (reset consumer) g = (reset_projection_consumer consumer g).0
  step prune g = (prune_consumed_outbox g).0
  step (prune_rebuildable maximum_rows allow) g =
      succeeded_fst g (prune_rebuildable_outbox_bounded maximum_rows allow g)
  step (refresh_paths maximum_links) g = (refresh_projection_paths encoding maximum_links g).0
  step (refresh_volume maximum_links) g = (refresh_volume_projection encoding maximum_links g).0
  step (complete_job job_id) g = (complete_refresh_job job_id g).0
  step (compact_payloads maximum_rows) g =
      (compact_legacy_desired_payloads_bounded encoding maximum_rows g).0

  unfoldable pub run : List Operation → FilesystemGraph → FilesystemGraph
  run [] g = g
  run (op ∷ ops) g = run ops (step op g)

-- ===== src/Graph/Operations/Reachable.antt =====
-- The graphs that the calls of the store can reach, batches, scans and outbox maintenance together
-- (crates/filesystem-graph/src/store.rs).
use local_search.Prelude.{
  ℕ, ◌||◌, Option, none, some, List, [], ◌∷◌, ltb, ◌==◌, ok, err, reject_if, is_some_and, Ensures,
  bind-Ensures, arith, Bool-cases, inl, inr,
}
use local_search.Core.Ids.{VolumeId}
use local_search.Core.Models.{Text, FilesystemEvent}
use local_search.Graph.Types.{
  GraphResult, ObservationScanPhase, ObservationSession, OutboxMaintenanceSummary, from_events,
}
use local_search.Graph.Tables.{FilesystemGraph, try_i64}
use local_search.Graph.Links.{phase_eq}
use local_search.Graph.Links.LiveRows.{LinksLive}
use local_search.Graph.Projection.{durable, Encoding}
use local_search.Graph.Batch.{apply_batch, apply_batch_with_outbox_mode, run_batch}
use local_search.Graph.Batch.Live.{run_batch-LinksLive}
use local_search.Graph.Outbox.{
  latest_outbox_sequence, projector_checkpoint, least, safe_through, acknowledge_projection,
  reset_projection_consumer, prune_through, prune_consumed_outbox, prune_bounded,
  prune_rebuildable_outbox_bounded,
}
use local_search.Graph.Refresh.{complete_refresh_job}
use local_search.Graph.Refresh.Live.{refresh_paths-LinksLive, refresh_volume-LinksLive}
use local_search.Graph.Desired.{compact_legacy, compact_legacy_desired_payloads_bounded}
use local_search.Graph.Desired.Live.{compact_legacy-LinksLive}
use local_search.Graph.Operations.{Operation, empty_graph, succeeded, step, run}
use local_search.Graph.Scan.Live.{begin_scan-LinksLive, transact-LinksLive, stage-LinksLive}
use local_search.Graph.Sweep.Live.{finalize-LinksLive}
use local_search.Graph.Scan.{
  begin_scan, begin_observation_scan, observation_session, observation_scan_checkpoint,
  page_of_session, apply_observation_scan_page,
}

module _ (encoding : Encoding) where
  page-LinksLive :
      (volume_id : VolumeId) (events : List FilesystemEvent) (g : FilesystemGraph)
      (session : Option ObservationSession)
      → LinksLive g
      → LinksLive (page_of_session encoding volume_id events g session).0
  unfolding apply_batch apply_batch_with_outbox_mode
  page-LinksLive volume_id events g none h = h
  page-LinksLive volume_id [] g (some session) h = ground (arith, h)
  page-LinksLive volume_id (e ∷ es) g (some session) h =
      elim (Bool-cases (phase_eq session.phase ObservationScanPhase.scanning)) [
        | inl w ↦ rw w (
            let batch = from_events volume_id (observation_scan_checkpoint session) (e ∷ es) in
            transact-LinksLive g (run_batch encoding batch durable g) h
              (run_batch-LinksLive encoding batch durable g h))
        | inr w ↦ rw w h
      ]

  acknowledge-LinksLive :
      (consumer : Text) (sequence generation : ℕ) (g : FilesystemGraph)
      → LinksLive g
      → Ensures LinksLive (acknowledge_projection consumer sequence generation g)
  unfolding acknowledge_projection
  acknowledge-LinksLive consumer sequence generation g h =
      bind-Ensures LinksLive (reject_if (ltb (latest_outbox_sequence g) sequence) _) _ λ u r.
        bind-Ensures LinksLive (reject_if (is_some_and (projector_checkpoint consumer g) _) _) _
          λ v s.
            bind-Ensures LinksLive (try_i64 sequence _) _
              λ m e. bind-Ensures LinksLive (try_i64 generation _) _ λ n f. h

  prune_bounded-LinksLive :
      (maximum_rows : ℕ) (safe : Option ℕ) (g : FilesystemGraph)
      → LinksLive g
      → LinksLive (prune_bounded maximum_rows g safe).0
  prune_bounded-LinksLive maximum_rows none g h = h
  prune_bounded-LinksLive maximum_rows (some n) g h = h

  prune_through-LinksLive :
      (safe : Option ℕ) (g : FilesystemGraph) → LinksLive g → LinksLive (prune_through safe g).0
  prune_through-LinksLive none g h = h
  prune_through-LinksLive (some n) g h = h

  succeeded-LinksLive :
      (g : FilesystemGraph) (r : GraphResult FilesystemGraph)
      → LinksLive g
      → Ensures LinksLive r
      → LinksLive (succeeded g r)
  succeeded-LinksLive g (ok g') h k = k
  succeeded-LinksLive g (err error) h k = h

  step-LinksLive :
      (op : Operation) (g : FilesystemGraph) → LinksLive g → LinksLive (step encoding op g)
  unfolding step complete_refresh_job compact_legacy_desired_payloads_bounded
      apply_batch_with_outbox_mode begin_observation_scan apply_observation_scan_page
      reset_projection_consumer prune_consumed_outbox prune_rebuildable_outbox_bounded
  step-LinksLive (Operation.batch b mode) g h =
      transact-LinksLive g (run_batch encoding b mode g) h (run_batch-LinksLive encoding b mode g h)
  step-LinksLive (Operation.begin descriptor mode reason) g h =
      transact-LinksLive g (begin_scan descriptor mode reason g) h
        (begin_scan-LinksLive descriptor mode reason g h)
  step-LinksLive (Operation.page volume_id events) g h =
      page-LinksLive volume_id events g (observation_session volume_id g) h
  step-LinksLive (Operation.stage volume_id checkpoint) g h =
      stage-LinksLive volume_id checkpoint g h
  step-LinksLive (Operation.finalize volume_id maximum_rows) g h =
      finalize-LinksLive encoding volume_id maximum_rows g h
  step-LinksLive (Operation.acknowledge consumer sequence generation) g h =
      succeeded-LinksLive g _ h (acknowledge-LinksLive consumer sequence generation g h)
  step-LinksLive (Operation.reset consumer) g h = h
  step-LinksLive Operation.prune g h = prune_through-LinksLive (least g.consumers) g h
  step-LinksLive (Operation.prune_rebuildable maximum_rows allow) g h =
      transact-LinksLive g (prune_rebuildable_outbox_bounded maximum_rows allow g) h (
        bind-Ensures (λ (p : FilesystemGraph × OutboxMaintenanceSummary). LinksLive p.0)
          (reject_if (maximum_rows == 0 || ltb 100000 maximum_rows) _) _
          λ u r.
            prune_bounded-LinksLive maximum_rows (safe_through allow (least g.consumers) g.sequence)
              g h)
  step-LinksLive (Operation.refresh_paths maximum_links) g h =
      refresh_paths-LinksLive encoding maximum_links g h
  step-LinksLive (Operation.refresh_volume maximum_links) g h =
      refresh_volume-LinksLive encoding maximum_links g h
  step-LinksLive (Operation.complete_job job_id) g h = h
  step-LinksLive (Operation.compact_payloads maximum_rows) g h =
      transact-LinksLive g (compact_legacy encoding maximum_rows g) h
        (compact_legacy-LinksLive encoding maximum_rows g h)

  run-LinksLive :
      (ops : List Operation) (g : FilesystemGraph) → LinksLive g → LinksLive (run encoding ops g)
  unfolding run
  run-LinksLive [] g h = h
  run-LinksLive (op ∷ ops) g h = run-LinksLive ops (step encoding op g) (step-LinksLive op g h)

  -- After any sequence of batches, scans, pages, staged checkpoints, finalizations, acknowledgements,
  -- consumer resets, prunings, refreshes, completed jobs and compactions from the empty graph, whether
  -- each succeeds or fails, every link leads to an object that is there and is not tombstoned.
  pub run-reaches-LinksLive : (ops : List Operation) → LinksLive (run encoding ops empty_graph)
  run-reaches-LinksLive ops = run-LinksLive ops empty_graph tt

-- ===== src/Graph/Operations/Numbered.antt =====
-- The outbox has no gap after any sequence of calls
-- (crates/filesystem-graph/src/store.rs and crates/core/src/models.rs).
use local_search.Prelude.{
  not, ℕ, ◌||◌, Option, none, some, List, [], ◌∷◌, ltb, ◌==◌, ok, err, reject_if, is_some_and,
  Ensures, bind-Ensures, arith, Bool-cases, inl, inr, if◌then◌else◌, take, Ensures-ok,
}
use local_search.Core.Ids.{VolumeId}
use local_search.Core.Models.{Text, FilesystemEvent, ReconciliationReason}
use local_search.Graph.Types.{
  GraphResult, ObservationScanPhase, ObservationSession, OutboxMaintenanceSummary, from_events,
  DesiredPayloadMaintenanceSummary, ObservationScanMode,
}
use local_search.Graph.Tables.{
  FilesystemGraph, try_i64, DocumentRow, Payload, compact, legacy, generation_of, checked_add_one,
  upsert_volume, enqueue_volume_projection_refresh,
}
use local_search.Graph.Links.{phase_eq}
use local_search.Graph.Projection.{durable, Encoding}
use local_search.Graph.Batch.{apply_batch, apply_batch_with_outbox_mode, run_batch, transact}
use local_search.Graph.Outbox.{
  latest_outbox_sequence, projector_checkpoint, least, safe_through, acknowledge_projection,
  reset_projection_consumer, prune_through, prune_consumed_outbox, prune_bounded,
  prune_rebuildable_outbox_bounded,
}
use local_search.Graph.Refresh.{
  complete_refresh_job, first_volume_job, refresh_projection_paths, refresh_volume_projection,
}
use local_search.Graph.Desired.{
  compact_legacy, compact_legacy_desired_payloads_bounded, is_legacy, by_document_id,
  compact_payload, compact_rows,
}
use local_search.Graph.Operations.{Operation, succeeded, step, run}
use local_search.Graph.Scan.{
  begin_scan, begin_observation_scan, observation_session, observation_scan_checkpoint,
  page_of_session, apply_observation_scan_page, stage_observation_checkpoint,
}
use local_search.Graph.Rows.{find, select}
use local_search.Platform.{VolumeDescriptor, ProviderCheckpoint}
use local_search.Graph.Outbox.Sequence.{Numbered, SomeRun-delete, SomeRun-delete_first}
use local_search.Graph.Operations.Steps.{
  run_batch-Numbered, finalize_scan-Numbered, refresh_path_job-Numbered,
  refresh_volume_job-Numbered,
}
use local_search.Graph.Sweep.{finalize_scan, finalize_observation_scan}

transact-Numbered :
    {A : Type 0} (g : FilesystemGraph) (r : GraphResult (FilesystemGraph × A))
    → Numbered g
    → Ensures (λ p. Numbered p.0) r
    → Numbered (transact g r).0
transact-Numbered g (ok p) h k = k
transact-Numbered g (err error) h k = h

begin_scan-Numbered :
    (descriptor : VolumeDescriptor) (mode : ObservationScanMode) (reason : ReconciliationReason)
    (g : FilesystemGraph)
    → Numbered g
    → Ensures (λ p. Numbered p.0) (begin_scan descriptor mode reason g)
unfolding begin_scan upsert_volume enqueue_volume_projection_refresh
begin_scan-Numbered descriptor mode reason g h =
    bind-Ensures (λ p. Numbered p.0)
      (checked_add_one (generation_of descriptor.volume_id g.volumes) _) _ λ n e. h

stage-Numbered :
    (volume_id : VolumeId) (checkpoint : ProviderCheckpoint) (g : FilesystemGraph)
    → Numbered g
    → Numbered (stage_observation_checkpoint volume_id checkpoint g).0
unfolding stage_observation_checkpoint
stage-Numbered volume_id checkpoint g h =
    elim (Bool-cases (not (checkpoint.volume_id == volume_id))) [ inl e ↦ rw e h | inr e ↦ rw e h ]

-- A call that does nothing for a bound of zero.
unless_zero-Numbered :
    {A : Type 0} (n : ℕ) (nothing : GraphResult A) (g : FilesystemGraph)
    (r : GraphResult (FilesystemGraph × A))
    → Numbered g
    → Ensures (λ p. Numbered p.0) r
    → Numbered (if n == 0 then (g, nothing) else transact g r).0
unless_zero-Numbered n nothing g r h k = elim (Bool-cases (n == 0)) [
  | inl e ↦ rw e h
  | inr e ↦ rw e (transact-Numbered g r h k)
]

module _ (encoding : Encoding) where
  page-Numbered :
      (volume_id : VolumeId) (events : List FilesystemEvent) (g : FilesystemGraph)
      (session : Option ObservationSession)
      → Numbered g
      → Numbered (page_of_session encoding volume_id events g session).0
  unfolding apply_batch apply_batch_with_outbox_mode
  page-Numbered volume_id events g none h = h
  page-Numbered volume_id [] g (some session) h = ground (arith, h)
  page-Numbered volume_id (e ∷ es) g (some session) h =
      elim (Bool-cases (phase_eq session.phase ObservationScanPhase.scanning)) [
        | inl w ↦ rw w (
            let batch = from_events volume_id (observation_scan_checkpoint session) (e ∷ es) in
            transact-Numbered g (run_batch encoding batch durable g) h
              (run_batch-Numbered encoding batch durable g h))
        | inr w ↦ rw w h
      ]

  acknowledge-Numbered :
      (consumer : Text) (sequence generation : ℕ) (g : FilesystemGraph)
      → Numbered g
      → Ensures Numbered (acknowledge_projection consumer sequence generation g)
  unfolding acknowledge_projection
  acknowledge-Numbered consumer sequence generation g h =
      bind-Ensures Numbered (reject_if (ltb (latest_outbox_sequence g) sequence) _) _ λ u r.
        bind-Ensures Numbered (reject_if (is_some_and (projector_checkpoint consumer g) _) _) _
          λ v s.
            bind-Ensures Numbered (try_i64 sequence _) _
              λ m e. bind-Ensures Numbered (try_i64 generation _) _ λ n f. h

  prune_bounded-Numbered :
      (maximum_rows : ℕ) (safe : Option ℕ) (g : FilesystemGraph)
      → Numbered g
      → Numbered (prune_bounded maximum_rows g safe).0
  prune_bounded-Numbered maximum_rows none g h = h
  prune_bounded-Numbered maximum_rows (some n) g ((k, runs), bounded) =
      (SomeRun-delete_first maximum_rows k n g.sequence g.outbox runs, bounded)

  prune_through-Numbered :
      (safe : Option ℕ) (g : FilesystemGraph) → Numbered g → Numbered (prune_through safe g).0
  prune_through-Numbered none g h = h
  prune_through-Numbered (some n) g ((k, runs), bounded) =
      (SomeRun-delete k n g.sequence g.outbox runs, bounded)

  succeeded-Numbered :
      (g : FilesystemGraph) (r : GraphResult FilesystemGraph)
      → Numbered g
      → Ensures Numbered r
      → Numbered (succeeded g r)
  succeeded-Numbered g (ok g') h k = k
  succeeded-Numbered g (err error) h k = h

  compact_payload-Numbered :
      (row : DocumentRow) (payload : Payload) (g : FilesystemGraph)
      → Numbered g
      → Ensures Numbered (compact_payload encoding row payload g)
  compact_payload-Numbered row (compact path fingerprint) g h = h
  compact_payload-Numbered row (legacy none) g h = tt
  compact_payload-Numbered row (legacy (some document)) g h = h

  compact_rows-Numbered :
      (rows : List DocumentRow) (g : FilesystemGraph)
      → Numbered g
      → Ensures Numbered (compact_rows encoding rows g)
  unfolding compact_rows
  compact_rows-Numbered [] g h = h
  compact_rows-Numbered (row ∷ rows) g h =
      bind-Ensures Numbered (compact_payload encoding row row.payload g) _ λ g' e.
        compact_rows-Numbered rows g'
          (Ensures-ok Numbered _ g' (compact_payload-Numbered row row.payload g h) e)

  compact_legacy-Numbered :
      (maximum_rows : ℕ) (g : FilesystemGraph)
      → Numbered g
      → Ensures (λ p. Numbered p.0) (compact_legacy encoding maximum_rows g)
  unfolding compact_legacy
  compact_legacy-Numbered maximum_rows g h =
      let P = λ (p : FilesystemGraph × DesiredPayloadMaintenanceSummary). Numbered p.0 in
      let rows = take maximum_rows (by_document_id (select is_legacy g.documents)) in
      bind-Ensures P (reject_if (maximum_rows == 0 || ltb 100000 maximum_rows) _) _ λ u r.
        bind-Ensures P (compact_rows encoding rows g) _
          λ g' e. Ensures-ok Numbered _ g' (compact_rows-Numbered rows g h) e

  step-Numbered :
      (op : Operation) (g : FilesystemGraph) → Numbered g → Numbered (step encoding op g)
  unfolding step complete_refresh_job compact_legacy_desired_payloads_bounded
      finalize_observation_scan refresh_projection_paths refresh_volume_projection
      apply_batch_with_outbox_mode begin_observation_scan apply_observation_scan_page
      reset_projection_consumer prune_consumed_outbox prune_rebuildable_outbox_bounded
  step-Numbered (Operation.batch b mode) g h =
      transact-Numbered g (run_batch encoding b mode g) h (run_batch-Numbered encoding b mode g h)
  step-Numbered (Operation.begin descriptor mode reason) g h =
      transact-Numbered g (begin_scan descriptor mode reason g) h
        (begin_scan-Numbered descriptor mode reason g h)
  step-Numbered (Operation.page volume_id events) g h =
      page-Numbered volume_id events g (observation_session volume_id g) h
  step-Numbered (Operation.stage volume_id checkpoint) g h = stage-Numbered volume_id checkpoint g h
  step-Numbered (Operation.finalize volume_id maximum_rows) g h =
      unless_zero-Numbered maximum_rows _ g (finalize_scan encoding volume_id maximum_rows g) h
        (finalize_scan-Numbered encoding volume_id maximum_rows g h)
  step-Numbered (Operation.acknowledge consumer sequence generation) g h =
      succeeded-Numbered g _ h (acknowledge-Numbered consumer sequence generation g h)
  step-Numbered (Operation.reset consumer) g h = h
  step-Numbered Operation.prune g h = prune_through-Numbered (least g.consumers) g h
  step-Numbered (Operation.prune_rebuildable maximum_rows allow) g h =
      transact-Numbered g (prune_rebuildable_outbox_bounded maximum_rows allow g) h (
        bind-Ensures (λ (p : FilesystemGraph × OutboxMaintenanceSummary). Numbered p.0)
          (reject_if (maximum_rows == 0 || ltb 100000 maximum_rows) _) _
          λ u r.
            prune_bounded-Numbered maximum_rows (safe_through allow (least g.consumers) g.sequence)
              g h)
  step-Numbered (Operation.refresh_paths maximum_links) g h =
      unless_zero-Numbered maximum_links _ g _ h
        (refresh_path_job-Numbered encoding maximum_links g (find (λ j. j.pending) g.path_jobs) h)
  step-Numbered (Operation.refresh_volume maximum_links) g h =
      unless_zero-Numbered maximum_links _ g _ h
        (refresh_volume_job-Numbered encoding maximum_links g (first_volume_job g) h)
  step-Numbered (Operation.complete_job job_id) g h = h
  step-Numbered (Operation.compact_payloads maximum_rows) g h =
      transact-Numbered g (compact_legacy encoding maximum_rows g) h
        (compact_legacy-Numbered maximum_rows g h)

  pub run-Numbered :
      (ops : List Operation) (g : FilesystemGraph) → Numbered g → Numbered (run encoding ops g)
  unfolding run
  run-Numbered [] g h = h
  run-Numbered (op ∷ ops) g h = run-Numbered ops (step encoding op g) (step-Numbered op g h)

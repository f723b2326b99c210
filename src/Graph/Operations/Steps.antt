-- ===== src/Graph/Operations/Steps.antt =====
-- The transactions that append to the outbox leave it without a gap
-- (crates/filesystem-graph/src/store.rs).
use local_search.Prelude.{
  ℕ, ◌≤◌, ◌≡◌, refl, sym, subst, Bool, true, false, Option, none, some, List, [], ◌∷◌, length, ltb,
  ok, if◌then◌else◌, ok_or, reject_if, Ensures, bind-Ensures, Ensures-ok, Bool-cases, inl, inr,
}
use local_search.Core.Ids.{VolumeId, FileLinkId}
use local_search.Platform.{ProviderCheckpoint}
use local_search.Graph.Rows.{select, find}
use local_search.Graph.Types.{
  GraphMutationBatch, ApplySummary, validate, ObservationScanPhase, ObservationFinalizeSummary,
  ProjectionRefreshSummary,
}
use local_search.Graph.Tables.{
  LinkRow, SessionRow, PathRefreshRow, VolumeRefreshRow, FilesystemGraph, i64_max, of_session,
  of_volume, checked_add_one, generation_of, set_generation, save_checkpoint,
  enqueue_volume_projection_refresh,
}
use local_search.Graph.Links.{phase_eq, remove_link_internal}
use local_search.Graph.Projection.{ProjectionOutboxMode, durable, Encoding, sync_catalog_projection}
use local_search.Graph.Batch.{
  require_single_update, refuses, apply_mutations, close_batch, sync_all, run_batch,
}
use local_search.Graph.Batch.Frame.{Aside, aside, Keeps, remove_link_internal-Keeps}
use local_search.Graph.Batch.Follows.{apply_mutations-Keeps}
use local_search.Graph.Outbox.Sequence.{SomeRun, Numbered, sync-Numbered, sync_all-Numbered}
use local_search.Graph.Refresh.{
  last_of, page_of, link_ids, document_link_ids, advance_path_job, advance_volume_job, refresh_page,
  refresh_path_job, refresh_volume_job,
}
use local_search.Graph.Sweep.{
  stale_links, sweep_links, sweep_stale_observation_links, sweep_stale_observation_objects,
  activate_observation_checkpoint, finalize_phase, finalize_scan,
}

pub Numbered-aside : (g g' : FilesystemGraph) → Keeps g g' → Numbered g → Numbered g'
Numbered-aside g g' kept h =
    subst (λ (a : Aside). SomeRun a.outbox a.sequence × (a.sequence ≤ i64_max)) (sym kept) h

module _ (encoding : Encoding) where
  close_batch-Numbered :
      (batch : GraphMutationBatch) (generation : ℕ) (g : FilesystemGraph) (summary : ApplySummary)
      → Numbered g
      → Ensures (λ p. Numbered p.0) (close_batch batch generation g summary)
  unfolding close_batch set_generation save_checkpoint
  close_batch-Numbered batch generation g summary h =
      bind-Ensures _
        (require_single_update (length (select (of_volume batch.volume_id) g.volumes)) _) _ λ u w. h

  pub run_batch-Numbered :
      (batch : GraphMutationBatch) (mode : ProjectionOutboxMode) (g : FilesystemGraph)
      → Numbered g
      → Ensures (λ p. Numbered p.0) (run_batch encoding batch mode g)
  unfolding run_batch
  run_batch-Numbered batch mode g h =
      let P = λ (p : FilesystemGraph × ApplySummary). Numbered p.0 in
      bind-Ensures P (validate batch) _ λ u v.
        bind-Ensures P (reject_if (refuses mode g) _) _ λ u' r.
          bind-Ensures P (checked_add_one (generation_of batch.volume_id g.volumes) _) _
            λ generation c.
              bind-Ensures P (apply_mutations batch.mutations generation g 0 []) _ λ p e.
                let kept =
                  Ensures-ok (λ p. Keeps g p.0) _ p
                    (apply_mutations-Keeps batch.mutations generation g 0 []) e in
                bind-Ensures P (sync_all encoding p.2 generation mode p.0 0) _ λ q s.
                  close_batch-Numbered batch generation q.0 _ (
                    Ensures-ok (λ p. Numbered p.0) _ q
                      (sync_all-Numbered encoding p.2 generation mode p.0 0
                        (Numbered-aside g p.0 kept h))
                      s)

  sweep_links-Numbered :
      (stale : List LinkRow) (generation : ℕ) (g : FilesystemGraph)
      → Numbered g
      → Ensures Numbered (sweep_links encoding stale generation g)
  unfolding sweep_links
  sweep_links-Numbered [] generation g h = h
  sweep_links-Numbered (l ∷ ls) generation g h =
      bind-Ensures Numbered (remove_link_internal l.file_link_id l.object_key generation false g) _
        λ p e.
          let kept =
            Ensures-ok (λ p. Keeps g p.0) _ p
              (remove_link_internal-Keeps l.file_link_id l.object_key generation false g) e in
          bind-Ensures Numbered
            (sync_catalog_projection encoding l.file_link_id generation durable p.0) _
            λ q s. sweep_links-Numbered ls generation q.0 (
              Ensures-ok (λ p. Numbered p.0) _ q
                (sync-Numbered encoding l.file_link_id generation durable p.0
                  (Numbered-aside g p.0 kept h))
                s)

  sweep_stale_links-Numbered :
      (volume_id : VolumeId) (scan_generation generation maximum_rows : ℕ) (g : FilesystemGraph)
      → Numbered g
      → Ensures
          (λ p. Numbered p.0)
          (sweep_stale_observation_links encoding volume_id scan_generation generation maximum_rows
            g)
  unfolding sweep_stale_observation_links
  sweep_stale_links-Numbered volume_id scan_generation generation maximum_rows g h =
      let stale = stale_links volume_id scan_generation maximum_rows g in
      bind-Ensures _ (sweep_links encoding stale generation g) _ λ g' e.
        let numbered = Ensures-ok Numbered _ g' (sweep_links-Numbered stale generation g h) e in
        elim (Bool-cases (ltb (length stale) maximum_rows)) [
          | inl few ↦ rw few numbered
          | inr full ↦ rw full numbered
        ]

  close_sweep-Numbered :
      (terminal : Bool) (volume_id : VolumeId) (generation : ℕ)
      (checkpoint : Option ProviderCheckpoint) (g : FilesystemGraph)
      → Numbered g
      → Ensures Numbered (
          if terminal
          then activate_observation_checkpoint volume_id generation checkpoint g
          else ok (set_generation volume_id generation g))
  unfolding set_generation activate_observation_checkpoint save_checkpoint
      enqueue_volume_projection_refresh
  close_sweep-Numbered true volume_id generation checkpoint g h =
      bind-Ensures Numbered (ok_or checkpoint _) _ λ c e. h
  close_sweep-Numbered false volume_id generation checkpoint g h = h

  finalize_phase-Numbered :
      (phase : ObservationScanPhase) (volume_id : VolumeId) (session : SessionRow)
      (generation maximum_rows : ℕ) (g : FilesystemGraph)
      → Numbered g
      → Ensures
          (λ p. Numbered p.0)
          (finalize_phase encoding phase volume_id session generation maximum_rows g)
  unfolding set_generation sweep_stale_observation_objects
  finalize_phase-Numbered ObservationScanPhase.sweeping_objects volume_id session generation
        maximum_rows g h =
      let swept =
        sweep_stale_observation_objects volume_id session.scan_generation maximum_rows g in
      bind-Ensures _
        (if swept.2
          then activate_observation_checkpoint volume_id generation session.final_checkpoint swept.0
          else ok (set_generation volume_id generation swept.0))
        _
        λ g' e.
          Ensures-ok Numbered _ g'
            (close_sweep-Numbered swept.2 volume_id generation session.final_checkpoint swept.0 h) e
  finalize_phase-Numbered ObservationScanPhase.sweeping_links volume_id session generation
        maximum_rows g h =
      bind-Ensures _
        (sweep_stale_observation_links encoding volume_id session.scan_generation generation
          maximum_rows g)
        _
        λ p e.
          Ensures-ok (λ p. Numbered p.0) _ p
            (sweep_stale_links-Numbered volume_id session.scan_generation generation maximum_rows g
              h)
            e
  finalize_phase-Numbered ObservationScanPhase.scanning volume_id session generation maximum_rows g
        h =
      bind-Ensures _
        (sweep_stale_observation_links encoding volume_id session.scan_generation generation
          maximum_rows g)
        _
        λ p e.
          Ensures-ok (λ p. Numbered p.0) _ p
            (sweep_stale_links-Numbered volume_id session.scan_generation generation maximum_rows g
              h)
            e

  pub finalize_scan-Numbered :
      (volume_id : VolumeId) (maximum_rows : ℕ) (g : FilesystemGraph)
      → Numbered g
      → Ensures (λ p. Numbered p.0) (finalize_scan encoding volume_id maximum_rows g)
  unfolding finalize_scan
  finalize_scan-Numbered volume_id maximum_rows g h =
      let P = λ (p : FilesystemGraph × ObservationFinalizeSummary). Numbered p.0 in
      bind-Ensures P (ok_or (find (of_session volume_id) g.sessions) _) _ λ session s.
        bind-Ensures P (reject_if (phase_eq session.phase ObservationScanPhase.scanning) _) _ λ u r.
          bind-Ensures P (ok_or (find (of_volume volume_id) g.volumes) _) _ λ volume v.
            bind-Ensures P (checked_add_one volume.generation _) _ λ generation c.
              finalize_phase-Numbered session.phase volume_id session generation maximum_rows g h

  refresh_page-Numbered :
      (volume_id : VolumeId) (links : List FileLinkId) (maximum_links : ℕ)
      (advance : Bool → Option FileLinkId → FilesystemGraph → FilesystemGraph) (g : FilesystemGraph)
      → ((complete : Bool) (last : Option FileLinkId) (g' : FilesystemGraph)
          → aside (advance complete last g') ≡ aside g')
      → Numbered g
      → Ensures (λ p. Numbered p.0) (refresh_page encoding volume_id links maximum_links advance g)
  unfolding refresh_page
  refresh_page-Numbered volume_id links maximum_links advance g a h =
      let P = λ (p : FilesystemGraph × ProjectionRefreshSummary). Numbered p.0 in
      bind-Ensures P (ok_or (find (of_volume volume_id) g.volumes) _) _ λ volume v.
        bind-Ensures P (sync_all encoding links volume.generation durable g 0) _ λ q s.
          Numbered-aside q.0 (advance (ltb (length links) maximum_links) (last_of links) q.0)
            (a (ltb (length links) maximum_links) (last_of links) q.0)
            (Ensures-ok (λ p. Numbered p.0) _ q
              (sync_all-Numbered encoding links volume.generation durable g 0 h) s)

  pub refresh_path_job-Numbered :
      (maximum_links : ℕ) (g : FilesystemGraph) (job : Option PathRefreshRow)
      → Numbered g
      → Ensures (λ p. Numbered p.0) (refresh_path_job encoding maximum_links g job)
  unfolding advance_path_job
  refresh_path_job-Numbered maximum_links g none h = h
  refresh_path_job-Numbered maximum_links g (some job) h =
      refresh_page-Numbered job.root_object.volume_id
        (page_of maximum_links job.cursor (link_ids job.root_object.volume_id g)) maximum_links
        (advance_path_job job.job_id) g (λ complete last g'. refl) h

  pub refresh_volume_job-Numbered :
      (maximum_links : ℕ) (g : FilesystemGraph) (job : Option VolumeRefreshRow)
      → Numbered g
      → Ensures (λ p. Numbered p.0) (refresh_volume_job encoding maximum_links g job)
  unfolding advance_volume_job
  refresh_volume_job-Numbered maximum_links g none h = h
  refresh_volume_job-Numbered maximum_links g (some job) h =
      refresh_page-Numbered job.volume_id
        (page_of maximum_links job.cursor (document_link_ids job.volume_id g)) maximum_links
        (advance_volume_job job.volume_id) g (λ complete last g'. refl) h

-- ===== src/Graph/Sweep.antt =====
-- The bounded sweeps that end a full-volume observation scan
-- (crates/filesystem-graph/src/store.rs).
pub mod Complete
pub mod Live
mod Removes
use local_search.Prelude.{
  ℕ, ◌+◌, ◌≡◌, Bool, true, false, not, ◌&&◌, ◌||◌, Option, none, some, List, [], ◌∷◌, ◌++◌, map,
  length, take, ltb, leb, ◌==◌, if◌then◌else◌, String, Result, ok, err, ◌>>=◌, ◌>>◌, reject_if,
  ok_or,
}
use local_search.Core.Ids.{VolumeId, FileLinkId, FileKey, be_bytes}
use local_search.Core.Models.{Text, FilesystemEvent, ReconciliationReason}
use local_search.Platform.{VolumeDescriptor, ProviderCheckpoint}
use local_search.Graph.Rows.{order_by, select, exists, find, delete, update, upsert}
use local_search.Graph.Types.{
  GraphError, GraphResult, VolumeState, ObservationScanMode, ObservationScanPhase,
  ObservationSession, ObservationFinalizeSummary, GraphMutationBatch, ApplySummary, from_events,
}
use local_search.Graph.Tables.{
  ObjectRow, LinkRow, SessionRow, FilesystemGraph, of_volume, of_session, links_to, checked_add_one,
  generation_of, set_generation, upsert_volume, save_checkpoint, enqueue_volume_projection_refresh,
}
use local_search.Graph.Links.{phase_eq, set_tombstoned, remove_link_internal}
use local_search.Graph.Projection.{durable, Encoding, sync_catalog_projection}
use local_search.Graph.Batch.{require_single_update, transact, apply_batch}

abbrev update_session : VolumeId → (SessionRow → SessionRow) → FilesystemGraph → FilesystemGraph
update_session volume_id f g = record g { sessions = update (of_session volume_id) f g.sessions }

abbrev pub is_stale_link : VolumeId → ℕ → LinkRow → Bool
is_stale_link volume_id scan_generation row =
    row.object_key.volume_id == volume_id && ltb row.observation_generation scan_generation

unfoldable pub stale_links : VolumeId → ℕ → ℕ → FilesystemGraph → List LinkRow
stale_links volume_id scan_generation maximum_rows g = take maximum_rows (
    order_by (λ (l : LinkRow). l.observation_generation) (λ l. l.file_link_id)
      (select (is_stale_link volume_id scan_generation) g.links))

abbrev pub is_stale_object : VolumeId → ℕ → List LinkRow → ObjectRow → Bool
is_stale_object volume_id scan_generation links row =
    row.object_key.volume_id == volume_id
    && not row.tombstoned
    && ltb row.observation_generation scan_generation
    && not (exists (links_to row.object_key) links)

unfoldable pub stale_objects : VolumeId → ℕ → ℕ → FilesystemGraph → List ObjectRow
stale_objects volume_id scan_generation maximum_rows g = take maximum_rows (
    order_by (λ (o : ObjectRow). o.observation_generation) (λ o. o.object_key.file_id)
      (select (is_stale_object volume_id scan_generation g.links) g.objects))

unfoldable pub tombstone_all : List ObjectRow → List ObjectRow → List ObjectRow
tombstone_all [] objects = objects
tombstone_all (o ∷ os) objects = tombstone_all os (set_tombstoned true o.object_key objects)

unfoldable pub sweep_stale_observation_objects :
    VolumeId → ℕ → ℕ → FilesystemGraph → FilesystemGraph × ℕ × Bool
sweep_stale_observation_objects volume_id scan_generation maximum_rows g =
    let stale = stale_objects volume_id scan_generation maximum_rows g in
    (
      record g { objects = tombstone_all stale g.objects },
      length stale,
      ltb (length stale) maximum_rows,
    )

unfoldable pub activate_observation_checkpoint :
    VolumeId → ℕ → Option ProviderCheckpoint → FilesystemGraph → GraphResult FilesystemGraph
activate_observation_checkpoint volume_id generation final_checkpoint g = do
  checkpoint ← ok_or final_checkpoint (GraphError.invariant "final observation provider is missing")
  let saved = save_checkpoint checkpoint g
  let active : FilesystemGraph = record saved {
    volumes =
        update (of_volume volume_id)
          (λ row. record row {
            state = VolumeState.online;
            reconciliation_reason = none;
            generation = generation;
          })
          saved.volumes;
  }
  let queued = enqueue_volume_projection_refresh volume_id generation active
  ok (record queued { sessions = delete (of_session volume_id) queued.sessions })

module _ (encoding : Encoding) where
  unfoldable pub sweep_links : List LinkRow → ℕ → FilesystemGraph → GraphResult FilesystemGraph
  sweep_links [] generation g = ok g
  sweep_links (l ∷ ls) generation g = do
    (removed, jobs) ← remove_link_internal l.file_link_id l.object_key generation false g
    (synced, appended) ← sync_catalog_projection encoding l.file_link_id generation durable removed
    sweep_links ls generation synced

  unfoldable pub sweep_stale_observation_links :
      VolumeId → ℕ → ℕ → ℕ → FilesystemGraph → GraphResult (FilesystemGraph × ℕ)
  sweep_stale_observation_links volume_id scan_generation generation maximum_rows g = do
    let stale = stale_links volume_id scan_generation maximum_rows g
    swept ← sweep_links stale generation g
    ok (
      (if ltb (length stale) maximum_rows
          then update_session volume_id
              (λ s. record s { phase = ObservationScanPhase.sweeping_objects }) swept
          else swept),
      length stale,
    )

  -- One step of the finalization: of links, or of objects, which may end the scan.
  abbrev pub finalize_phase :
      ObservationScanPhase
      → VolumeId
      → SessionRow
      → ℕ
      → ℕ
      → FilesystemGraph
      → GraphResult (FilesystemGraph × ObservationFinalizeSummary)
  finalize_phase ObservationScanPhase.sweeping_objects volume_id session generation maximum_rows g =
      do
        let (swept, tombstoned, terminal) =
            sweep_stale_observation_objects volume_id session.scan_generation maximum_rows g
        active ←
            if terminal
            then activate_observation_checkpoint volume_id generation session.final_checkpoint swept
            else ok (set_generation volume_id generation swept)
        ok (
          active,
          record {
            stale_links_removed = 0;
            stale_objects_tombstoned = tombstoned;
            completed = terminal;
          },
        )
  finalize_phase _ volume_id session generation maximum_rows g = do
    (swept, removed) ←
        sweep_stale_observation_links volume_id session.scan_generation generation maximum_rows g
    ok (
      set_generation volume_id generation swept,
      record { stale_links_removed = removed; stale_objects_tombstoned = 0; completed = false },
    )

  -- the transaction of `finalize_observation_scan`
  unfoldable pub finalize_scan :
      VolumeId → ℕ → FilesystemGraph → GraphResult (FilesystemGraph × ObservationFinalizeSummary)
  finalize_scan volume_id maximum_rows g = do
    session ←
        ok_or (find (of_session volume_id) g.sessions)
          (GraphError.invariant "observation finalization has no durable session")
    reject_if (phase_eq session.phase ObservationScanPhase.scanning)
        (GraphError.invariant "observation finalization started before provider checkpoint")
    volume ← ok_or (find (of_volume volume_id) g.volumes) GraphError.sqlite
    generation ← checked_add_one volume.generation "observation finalization generation"
    finalize_phase session.phase volume_id session generation maximum_rows g

  unfoldable pub finalize_observation_scan :
      VolumeId → ℕ → FilesystemGraph → FilesystemGraph × GraphResult ObservationFinalizeSummary
  finalize_observation_scan volume_id maximum_rows g =
      if maximum_rows == 0
      then (
        g,
        ok (record { stale_links_removed = 0; stale_objects_tombstoned = 0; completed = false }),
      )
      else transact g (finalize_scan volume_id maximum_rows g)

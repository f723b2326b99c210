-- ===== src/Observation/Controller.antt =====
-- The operations of `BrokerObservationController` (crates/agent/src/observation.rs). A step is given
-- the graph under its path and gives the new one.
use local_search.Prelude.{
  ℕ, ◌+◌, ◌%◌, Bool, true, false, Option, none, some, List, [], ◌∷◌, map, length, if◌then◌else◌,
  Result, ok, err,
}
use local_search.Core.Ids.{VolumeId}
use local_search.Core.Models.{FilesystemEvent, ReconciliationReason}
use local_search.Platform.{
  VolumeDescriptor, ProviderCheckpoint, ChangeBatch, PlatformErrorKind, PlatformResult,
}
use local_search.Wire.Broker.{ScanPage}
use local_search.Graph.Types.{
  VolumeState, ObservationScanMode, ObservationScanPhase, ObservationSession, GraphMutation,
  from_event,
}
use local_search.Graph.Tables.{FilesystemGraph, checkpoint}
use local_search.Graph.Projection.{Encoding}
use local_search.Graph.Batch.{apply_batch}
use local_search.Graph.Scan.{
  begin_observation_scan, observation_session, apply_observation_scan_page,
}
use local_search.Graph.Sweep.{finalize_observation_scan}
use local_search.Observation.State.{
  SourceCall, Surroundings, ObservationStep, ObservationError, ActiveScan, Controller, Progress,
  Stepped,
}
use local_search.Observation.Outcomes.{
  clamp, end_page, in_range, with_graph, commit_then, broker_scan_mode, scan_reason, state_of,
  is_offline, needs_reconciliation, calling, commit, restart_session, removed_rows, back_online,
  changes_step, refresh_discovery_if_due, get_elem?,
}

module _ (encoding : Encoding) where
  -- the `match` on the session's phase
  abbrev pub in_phase :
      ObservationScanPhase
      → ℕ
      → Surroundings
      → VolumeDescriptor
      → ObservationSession
      → Progress
      → Stepped
  in_phase ObservationScanPhase.scanning maximum_events w descriptor session p =
      let mode = broker_scan_mode session.mode in
      restart_session descriptor session (w.source.start_scan descriptor.volume_id mode)
        (calling (SourceCall.start_scan descriptor.volume_id mode) p)
  in_phase _ maximum_events w descriptor session p =
      commit p (finalize_observation_scan encoding descriptor.volume_id maximum_events p.graph)
        λ summary.
          ObservationStep.finalized descriptor.volume_id (removed_rows summary) summary.completed

  unfoldable pub handle_session :
      ℕ → Surroundings → VolumeDescriptor → ObservationSession → Progress → Stepped
  handle_session maximum_events w descriptor session p =
      in_phase session.phase maximum_events w descriptor session p

  -- A batch of the one mutation that a failed read calls for.
  abbrev pub record_failure :
      VolumeId → ProviderCheckpoint → GraphMutation → ObservationStep → Progress → Stepped
  record_failure volume_id checkpoint mutation outcome p =
      commit p
        (apply_batch encoding
          (record { volume_id = volume_id; checkpoint = checkpoint; mutations = mutation ∷ [] })
          p.graph)
        λ _. outcome

  unfoldable pub changes_failed :
      VolumeId → ProviderCheckpoint → PlatformErrorKind → Progress → Stepped
  changes_failed volume_id checkpoint PlatformErrorKind.source_history_gap p =
      record_failure volume_id checkpoint
        (GraphMutation.require_reconciliation volume_id
          ReconciliationReason.source_history_unavailable)
        (ObservationStep.reconciliation_required volume_id) p
  changes_failed volume_id checkpoint PlatformErrorKind.invalid_checkpoint p =
      record_failure volume_id checkpoint
        (GraphMutation.require_reconciliation volume_id ReconciliationReason.provider_requested)
        (ObservationStep.reconciliation_required volume_id) p
  changes_failed volume_id checkpoint PlatformErrorKind.unavailable p =
      let outcome = ObservationStep.offline volume_id in
      if is_offline (state_of volume_id p.graph)
      then (p, ok outcome)
      else record_failure volume_id checkpoint
          (GraphMutation.set_volume_state volume_id VolumeState.offline) outcome p
  changes_failed volume_id checkpoint kind p = (p, err (ObservationError.provider kind))

  unfoldable pub changes_read :
      VolumeId
      → ProviderCheckpoint
      → PlatformResult (List FilesystemEvent × ChangeBatch)
      → Progress
      → Stepped
  changes_read volume_id checkpoint (err error) p = changes_failed volume_id checkpoint error.kind p
  changes_read volume_id checkpoint (ok (events, batch)) p =
      commit p
        (apply_batch encoding
          (record {
            volume_id = volume_id;
            checkpoint = batch.checkpoint;
            mutations =
                back_online volume_id (is_offline (state_of volume_id p.graph))
                  (map from_event events);
          })
          p.graph)
        λ _. changes_step volume_id events batch.has_more

  unfoldable pub read_incremental :
      ℕ → Surroundings → VolumeDescriptor → ProviderCheckpoint → Progress → Stepped
  read_incremental maximum_events w descriptor checkpoint p =
      changes_read descriptor.volume_id checkpoint (w.source.read_changes checkpoint maximum_events)
        (calling (SourceCall.read_changes checkpoint maximum_events) p)

  abbrev pub apply_page : ActiveScan → ScanPage → Progress → Stepped
  apply_page active page p =
      commit_then p (apply_observation_scan_page encoding active.volume_id page.events p.graph)
        (end_page active page)

  abbrev pub page_read : ActiveScan → Surroundings → PlatformResult ScanPage → Progress → Stepped
  page_read active w (err error) p = (
    calling (SourceCall.cancel_scan active.scan_id) p,
    err (ObservationError.provider error.kind),
  )
  page_read active w (ok page) p = with_graph w.opens (apply_page active page) p

  unfoldable pub read_active_scan : ℕ → Surroundings → ActiveScan → Progress → Stepped
  read_active_scan maximum_events w active p =
      page_read active w (w.source.read_scan_page active.scan_id maximum_events)
        (calling (SourceCall.read_scan_page active.scan_id maximum_events) p)

  abbrev pub prepare : VolumeDescriptor → ObservationScanMode → Progress → Stepped
  prepare descriptor mode p =
      commit p (begin_observation_scan descriptor mode (scan_reason mode) p.graph)
        λ _. ObservationStep.scan_prepared descriptor.volume_id

  -- The turn of a volume without a session, by its checkpoint and whether it needs reconciliation.
  -- The `let … else` of the source on the checkpoint cannot fail.
  abbrev pub observe_changes :
      ℕ → Surroundings → VolumeDescriptor → Option ProviderCheckpoint → Bool → Progress → Stepped
  observe_changes maximum_events w descriptor none needed p =
      prepare descriptor ObservationScanMode.initial p
  observe_changes maximum_events w descriptor (some _) true p =
      prepare descriptor ObservationScanMode.reconcile p
  observe_changes maximum_events w descriptor (some checkpoint) false p =
      read_incremental maximum_events w descriptor checkpoint p

  abbrev pub observe_session :
      ℕ → Surroundings → VolumeDescriptor → Option ObservationSession → Progress → Stepped
  observe_session maximum_events w descriptor (some session) p =
      handle_session maximum_events w descriptor session p
  observe_session maximum_events w descriptor none p =
      observe_changes maximum_events w descriptor (checkpoint descriptor.volume_id p.graph)
        (needs_reconciliation (state_of descriptor.volume_id p.graph)) p

  -- The turn of a volume, once the graph is open.
  unfoldable pub observe_volume : ℕ → Surroundings → VolumeDescriptor → Progress → Stepped
  observe_volume maximum_events w descriptor p =
      observe_session maximum_events w descriptor (observation_session descriptor.volume_id p.graph)
        p

  abbrev pub volume_turn : ℕ → Surroundings → Option VolumeDescriptor → ℕ → Progress → Stepped
  volume_turn maximum_events w none next p = (p, ok ObservationStep.idle)
  volume_turn maximum_events w (some descriptor) next p =
      with_graph w.opens (observe_volume maximum_events w descriptor)
        (record p { controller = record p.controller { cursor = next } })

  -- the volume under the cursor, which goes on to the next one; none only where there is no volume
  unfoldable pub take_turn : ℕ → Surroundings → Progress → Stepped
  take_turn maximum_events w p =
      let volumes = p.controller.volumes in
      let cursor = in_range p.controller.cursor (length volumes) in
      volume_turn maximum_events w (get_elem? volumes cursor) ((cursor + 1) % length volumes) p

  abbrev pub after_discovery :
      ℕ → Surroundings → Progress × Result ObservationError (Unit {0}) → Stepped
  after_discovery maximum_events w (p, err error) = (p, err error)
  after_discovery maximum_events w (p, ok _) = take_turn maximum_events w p

  abbrev pub resume : ℕ → Surroundings → Option ActiveScan → Progress → Stepped
  resume maximum_events w (some active) p = read_active_scan maximum_events w active p
  resume maximum_events w none p = after_discovery maximum_events w (refresh_discovery_if_due w p)

  unfoldable pub step : ℕ → Surroundings → Controller → FilesystemGraph → Stepped
  step maximum_events w c g =
      resume (clamp maximum_events) w c.active_scan
        (record { controller = record c { active_scan = none }; graph = g; calls = [] })

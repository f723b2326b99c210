-- ===== src/Observation/Decisions.antt =====
-- The calls of the store that a step of the observation controller is to make
-- (crates/agent/src/observation.rs over crates/filesystem-graph/src/store.rs).
use local_search.Prelude.{
  ℕ, ◌≡◌, ◌<◌, ◌≤◌, ◌-◌, ◌⊎◌, true, false, Option, none, some, List, [], ◌∷◌, map, length, min, ok,
  err,
}
use local_search.Core.Ids.{VolumeId}
use local_search.Core.Models.{FilesystemEvent, ReconciliationReason}
use local_search.Platform.{
  VolumeDescriptor, ProviderCheckpoint, ChangeBatch, PlatformError, PlatformErrorKind,
}
use local_search.Wire.Broker.{ScanMode, ScanPage}
use local_search.Graph.Types.{
  GraphError, VolumeState, ObservationScanMode, ObservationScanPhase, ObservationSession,
  GraphMutation, ApplySummary, from_event,
}
use local_search.Graph.Tables.{FilesystemGraph, checkpoint}
use local_search.Graph.Projection.{Encoding, durable}
use local_search.Graph.Scan.{observation_session, apply_observation_scan_page}
use local_search.Graph.Operations.{Operation}
use local_search.Observation.Selection.{selected_volumes}
use local_search.Observation.State.{discovery_refresh, Surroundings, ActiveScan, Controller}
use local_search.Observation.Outcomes.{
  state_of, get_elem?, in_range, needs_reconciliation, is_offline,
}

-- The mode in which the source scans for a session of the mode.
pub data Asks : ObservationScanMode → ScanMode → ReconciliationReason → Type 0 where
  asks_initial :
      Asks ObservationScanMode.initial ScanMode.initial ReconciliationReason.provider_requested
  asks_reconcile :
      Asks ObservationScanMode.reconcile ScanMode.reconcile
        ReconciliationReason.source_history_unavailable

-- The mutation that records a failed reading of changes, by the kind of the failure.
abbrev pub recorded : VolumeId → PlatformErrorKind → Option GraphMutation
recorded volume_id PlatformErrorKind.source_history_gap =
    some (
      GraphMutation.require_reconciliation volume_id
        ReconciliationReason.source_history_unavailable)
recorded volume_id PlatformErrorKind.invalid_checkpoint =
    some (GraphMutation.require_reconciliation volume_id ReconciliationReason.provider_requested)
recorded volume_id PlatformErrorKind.unavailable =
    some (GraphMutation.set_volume_state volume_id VolumeState.offline)
recorded volume_id _ = none

-- A durable batch of the volume.
abbrev pub batch_of : VolumeId → ProviderCheckpoint → List GraphMutation → Operation
batch_of volume_id checkpoint mutations =
    Operation.batch
      (record { volume_id = volume_id; checkpoint = checkpoint; mutations = mutations }) durable

module _ (encoding : Encoding) (w : Surroundings) (n : ℕ) (g : FilesystemGraph) where
  -- The turn of an active scan, by the answer of the source. A page that the graph takes is followed,
  -- where it is the last, by the staging of its checkpoint.
  pub data Paged (a : ActiveScan) : List Operation → Type 0 where
    unread : (e : PlatformError) → w.source.read_scan_page a.scan_id n ≡ err e → Paged a []
    unopened :
        (page : ScanPage) (e : GraphError)
        → w.source.read_scan_page a.scan_id n ≡ ok page
        → w.opens ≡ err e
        → Paged a []
    refused :
        (page : ScanPage) (e : GraphError)
        → w.source.read_scan_page a.scan_id n ≡ ok page
        → w.opens ≡ ok tt
        → (apply_observation_scan_page encoding a.volume_id page.events g).1 ≡ err e
        → Paged a (Operation.page a.volume_id page.events ∷ [])
    applied :
        (page : ScanPage) (summary : ApplySummary)
        → w.source.read_scan_page a.scan_id n ≡ ok page
        → w.opens ≡ ok tt
        → (apply_observation_scan_page encoding a.volume_id page.events g).1 ≡ ok summary
        → (page.complete ≡ false) ⊎ (page.checkpoint ≡ none)
        → Paged a (Operation.page a.volume_id page.events ∷ [])
    staged :
        (page : ScanPage) (summary : ApplySummary) (c : ProviderCheckpoint)
        → w.source.read_scan_page a.scan_id n ≡ ok page
        → w.opens ≡ ok tt
        → (apply_observation_scan_page encoding a.volume_id page.events g).1 ≡ ok summary
        → page.complete ≡ true
        → page.checkpoint ≡ some c
        → Paged a (Operation.page a.volume_id page.events ∷ Operation.stage a.volume_id c ∷ [])

  -- The turn of a volume whose graph is open, by its session, its checkpoint, its state and the answer
  -- of the source: a scan is started or swept, a scan is prepared, or changes are followed.
  pub data Turn (d : VolumeDescriptor) : List Operation → Type 0 where
    starts :
        (s : ObservationSession) (mode : ScanMode) (reason : ReconciliationReason) (scan_id : ℕ)
        → observation_session d.volume_id g ≡ some s
        → s.phase ≡ ObservationScanPhase.scanning
        → Asks s.mode mode reason
        → w.source.start_scan d.volume_id mode ≡ ok scan_id
        → Turn d (Operation.begin d s.mode reason ∷ [])
    unstarted :
        (s : ObservationSession) (mode : ScanMode) (reason : ReconciliationReason)
        (e : PlatformError)
        → observation_session d.volume_id g ≡ some s
        → s.phase ≡ ObservationScanPhase.scanning
        → Asks s.mode mode reason
        → w.source.start_scan d.volume_id mode ≡ err e
        → Turn d []
    sweeps :
        (s : ObservationSession)
        → observation_session d.volume_id g ≡ some s
        → (s.phase ≡ ObservationScanPhase.sweeping_links)
          ⊎ (s.phase ≡ ObservationScanPhase.sweeping_objects)
        → Turn d (Operation.finalize d.volume_id n ∷ [])
    prepares :
        observation_session d.volume_id g ≡ none
        → checkpoint d.volume_id g ≡ none
        → Turn d (
            Operation.begin d ObservationScanMode.initial ReconciliationReason.provider_requested
            ∷ [])
    reconciles :
        (c : ProviderCheckpoint)
        → observation_session d.volume_id g ≡ none
        → checkpoint d.volume_id g ≡ some c
        → state_of d.volume_id g ≡ some VolumeState.needs_reconciliation
        → Turn d (
            Operation.begin d ObservationScanMode.reconcile
              ReconciliationReason.source_history_unavailable
            ∷ [])
    follows :
        (c : ProviderCheckpoint) (events : List FilesystemEvent) (changes : ChangeBatch)
        → observation_session d.volume_id g ≡ none
        → checkpoint d.volume_id g ≡ some c
        → needs_reconciliation (state_of d.volume_id g) ≡ false
        → is_offline (state_of d.volume_id g) ≡ false
        → w.source.read_changes c n ≡ ok (events, changes)
        → Turn d (batch_of d.volume_id changes.checkpoint (map from_event events) ∷ [])
    returns :
        (c : ProviderCheckpoint) (events : List FilesystemEvent) (changes : ChangeBatch)
        → observation_session d.volume_id g ≡ none
        → checkpoint d.volume_id g ≡ some c
        → state_of d.volume_id g ≡ some VolumeState.offline
        → w.source.read_changes c n ≡ ok (events, changes)
        → Turn d (
            batch_of d.volume_id changes.checkpoint (
              GraphMutation.set_volume_state d.volume_id VolumeState.online ∷ map from_event events)
            ∷ [])
    loses :
        (c : ProviderCheckpoint) (e : PlatformError) (mutation : GraphMutation)
        → observation_session d.volume_id g ≡ none
        → checkpoint d.volume_id g ≡ some c
        → needs_reconciliation (state_of d.volume_id g) ≡ false
        → w.source.read_changes c n ≡ err e
        → recorded d.volume_id e.kind ≡ some mutation
        → (e.kind ≡ PlatformErrorKind.source_history_gap)
          ⊎ (e.kind ≡ PlatformErrorKind.invalid_checkpoint)
          ⊎ (is_offline (state_of d.volume_id g) ≡ false)
        → Turn d (batch_of d.volume_id c (mutation ∷ []) ∷ [])
    stays_offline :
        (c : ProviderCheckpoint) (e : PlatformError)
        → observation_session d.volume_id g ≡ none
        → checkpoint d.volume_id g ≡ some c
        → state_of d.volume_id g ≡ some VolumeState.offline
        → w.source.read_changes c n ≡ err e
        → e.kind ≡ PlatformErrorKind.unavailable
        → Turn d []
    fails :
        (c : ProviderCheckpoint) (e : PlatformError)
        → observation_session d.volume_id g ≡ none
        → checkpoint d.volume_id g ≡ some c
        → needs_reconciliation (state_of d.volume_id g) ≡ false
        → w.source.read_changes c n ≡ err e
        → recorded d.volume_id e.kind ≡ none
        → Turn d []

  -- The volumes to take turns and whose turn it is: those that the controller has, or after 30 seconds
  -- those that the source then finds.
  abbrev pub Offers : Controller → List VolumeDescriptor → ℕ → Type 0
  Offers c volumes cursor =
      ((w.now - c.last_discovery < discovery_refresh) × (volumes ≡ c.volumes) × (cursor ≡ c.cursor))
      ⊎ ((found : List VolumeDescriptor) × ((discovery_refresh ≤ w.now - c.last_discovery)
            × (w.source.discover_volumes ≡ ok found)
            × (volumes ≡ selected_volumes found c.selection)
            × (cursor ≡ min c.cursor (length volumes - 1))))

  -- What a step of the controller is to do to the graph: the turn of its active scan, or without one
  -- that of the volume under the cursor.
  pub data Decides (c : Controller) : List Operation → Type 0 where
    resumes :
        (a : ActiveScan) (ops : List Operation)
        → c.active_scan ≡ some a
        → Paged a ops
        → Decides c ops
    undiscovered :
        (e : PlatformError)
        → c.active_scan ≡ none
        → discovery_refresh ≤ w.now - c.last_discovery
        → w.source.discover_volumes ≡ err e
        → Decides c []
    idle : (cursor : ℕ) → c.active_scan ≡ none → Offers c [] cursor → Decides c []
    closed : (e : GraphError) → c.active_scan ≡ none → w.opens ≡ err e → Decides c []
    turns :
        (volumes : List VolumeDescriptor) (cursor : ℕ) (d : VolumeDescriptor) (ops : List Operation)
        → c.active_scan ≡ none
        → Offers c volumes cursor
        → get_elem? volumes (in_range cursor (length volumes)) ≡ some d
        → w.opens ≡ ok tt
        → Turn d ops
        → Decides c ops

-- ===== src/Observation/Outcomes.antt =====
-- What the controller makes of an answer of its source or of the graph, and its discovery of volumes
-- (crates/agent/src/observation.rs).
use local_search.Prelude.{
  max, leb, zero, suc, ℕ, min, Bool, true, false, Option, none, some, List, [], ◌∷◌, length, ltb,
  if◌then◌else◌, Result, ok, err, u32_max, saturating_sub, saturating_add_u64,
}
use local_search.Core.Ids.{VolumeId}
use local_search.Core.Models.{FilesystemEvent, ReconciliationReason}
use local_search.Platform.{VolumeDescriptor, ProviderCheckpoint, PlatformErrorKind, PlatformResult}
use local_search.Wire.Broker.{max_broker_page_events, ScanPage, ScanMode}
use local_search.Graph.Rows.{exists, find}
use local_search.Graph.Types.{
  GraphResult, VolumeState, ObservationScanMode, ObservationSession, ObservationFinalizeSummary,
  GraphMutation,
}
use local_search.Graph.Tables.{FilesystemGraph, of_volume}
use local_search.Graph.Scan.{stage_observation_checkpoint, begin_observation_scan}
use local_search.Observation.Selection.{ObservationSelection, selected_volumes}
use local_search.Observation.State.{
  discovery_refresh, SourceCall, Surroundings, ObservationStep, ObservationError, ActiveScan,
  Controller, Progress, Stepped,
}

unfoldable pub broker_scan_mode : ObservationScanMode → ScanMode
broker_scan_mode ObservationScanMode.initial = ScanMode.initial
broker_scan_mode ObservationScanMode.reconcile = ScanMode.reconcile

unfoldable pub scan_reason : ObservationScanMode → ReconciliationReason
scan_reason ObservationScanMode.initial = ReconciliationReason.provider_requested
scan_reason ObservationScanMode.reconcile = ReconciliationReason.source_history_unavailable

unfoldable pub new : Surroundings → ObservationSelection → Result ObservationError Controller
new w selection = elim w.source.discover_volumes [
  | err error ↦ err (ObservationError.provider error.kind)
  | ok discovered ↦ ok (record {
    selection = selection;
    volumes = selected_volumes discovered selection;
    cursor = 0;
    active_scan = none;
    last_discovery = w.discovered_at;
  })
]

-- FilesystemGraph::volume_state
unfoldable pub state_of : VolumeId → FilesystemGraph → Option VolumeState
state_of volume_id g = elim (find (of_volume volume_id) g.volumes) [
  | none ↦ none
  | some row ↦ some row.state
]

abbrev pub is_offline : Option VolumeState → Bool
is_offline (some VolumeState.offline) = true
is_offline _ = false

abbrev pub needs_reconciliation : Option VolumeState → Bool
needs_reconciliation (some VolumeState.needs_reconciliation) = true
needs_reconciliation _ = false

abbrev pub calling : SourceCall → Progress → Progress
calling call p = record p { calls = call ∷ p.calls }

abbrev pub activate : ActiveScan → Progress → Progress
activate active p = record p { controller = record p.controller { active_scan = some active } }

-- A `?` on a call of the graph, which is the step's last.
abbrev pub commit :
    {A : Type 0} → Progress → FilesystemGraph × GraphResult A → (A → ObservationStep) → Stepped
commit p (g, ok value) outcome = (record p { graph = g }, ok (outcome value))
commit p (g, err error) outcome = (record p { graph = g }, err (ObservationError.graph error))

-- A `?` on a call of the graph, and the rest of the step.
abbrev pub commit_then :
    {A : Type 0} → Progress → FilesystemGraph × GraphResult A → (Progress → Stepped) → Stepped
commit_then p (g, ok value) rest = rest (record p { graph = g })
commit_then p (g, err error) rest = (record p { graph = g }, err (ObservationError.graph error))

-- u32::try_from(events.len()).unwrap_or(u32::MAX)
abbrev pub event_count : List FilesystemEvent → ℕ
event_count events = min (length events) u32_max

abbrev pub asks_reconciliation : FilesystemEvent → Bool
asks_reconciliation (FilesystemEvent.reconciliation_required volume_id reason) = true
asks_reconciliation _ = false

-- What follows on the start of a scan by the source: the session restarts, or the scan is cancelled.
unfoldable pub start_session :
    VolumeId → ℕ → Progress → FilesystemGraph × GraphResult ObservationSession → Stepped
start_session volume_id scan_id p (g, ok session) = (
  activate (record { volume_id = volume_id; scan_id = scan_id }) (record p { graph = g }),
  ok (ObservationStep.scan_started volume_id),
)
start_session volume_id scan_id p (g, err error) = (
  calling (SourceCall.cancel_scan scan_id) (record p { graph = g }),
  err (ObservationError.graph error),
)

abbrev pub restart_session :
    VolumeDescriptor → ObservationSession → PlatformResult ℕ → Progress → Stepped
restart_session descriptor session (err error) p = (p, err (ObservationError.provider error.kind))
restart_session descriptor session (ok scan_id) p =
    start_session descriptor.volume_id scan_id p
      (begin_observation_scan descriptor session.mode (scan_reason session.mode) p.graph)

abbrev pub removed_rows : ObservationFinalizeSummary → ℕ
removed_rows summary =
    saturating_add_u64 summary.stale_links_removed summary.stale_objects_tombstoned

-- `GraphMutation::SetVolumeState` before the events of a volume that was offline
abbrev pub back_online : VolumeId → Bool → List GraphMutation → List GraphMutation
back_online volume_id true mutations =
    GraphMutation.set_volume_state volume_id VolumeState.online ∷ mutations
back_online volume_id false mutations = mutations

abbrev pub changes_step : VolumeId → List FilesystemEvent → Bool → ObservationStep
changes_step volume_id events has_more =
    if exists asks_reconciliation events
    then ObservationStep.reconciliation_required volume_id
    else ObservationStep.incremental volume_id (event_count events) has_more

unfoldable pub discovered_volumes :
    Surroundings
    → Progress
    → PlatformResult (List VolumeDescriptor)
    → Progress × Result ObservationError (Unit {0})
discovered_volumes w p (err error) = (p, err (ObservationError.provider error.kind))
discovered_volumes w p (ok discovered) =
    let volumes = selected_volumes discovered p.controller.selection in
    (
      record p {
        controller = record p.controller {
          volumes = volumes;
          cursor = min p.controller.cursor (saturating_sub (length volumes) 1);
          last_discovery = w.discovered_at;
        };
      },
      ok tt,
    )

unfoldable pub refresh_discovery_if_due :
    Surroundings → Progress → Progress × Result ObservationError (Unit {0})
refresh_discovery_if_due w p =
    if ltb (saturating_sub w.now p.controller.last_discovery) discovery_refresh
    then (p, ok tt)
    else discovered_volumes w (calling SourceCall.discover p) w.source.discover_volumes

-- Drop::drop
unfoldable pub drop_calls : Controller → List SourceCall
drop_calls c = elim c.active_scan [
  | none ↦ []
  | some active ↦ SourceCall.cancel_scan active.scan_id ∷ []
]

-- volumes[cursor], where there is one
abbrev pub get_elem? : List VolumeDescriptor → ℕ → Option VolumeDescriptor
get_elem? [] n = none
get_elem? (d ∷ ds) zero = some d
get_elem? (d ∷ ds) (suc n) = get_elem? ds n

-- the last page of a scan, whose checkpoint is staged
abbrev pub stage_last :
    ActiveScan → Option ProviderCheckpoint → ObservationStep → Progress → Stepped
stage_last active none outcome p = (p, err (ObservationError.provider PlatformErrorKind.internal))
stage_last active (some checkpoint) outcome p =
    commit p (stage_observation_checkpoint active.volume_id checkpoint p.graph) λ _. outcome

-- the end of `read_active_scan`
unfoldable pub end_page : ActiveScan → ScanPage → Progress → Stepped
end_page active page p =
    let outcome =
      ObservationStep.scan_page active.volume_id (event_count page.events) page.complete in
    if page.complete
    then stage_last active page.checkpoint outcome p
    else (activate active p, ok outcome)

-- `FilesystemGraph::open`, and the rest of a step
abbrev pub with_graph : GraphResult (Unit {0}) → (Progress → Stepped) → Progress → Stepped
with_graph (err error) rest p = (p, err (ObservationError.graph error))
with_graph (ok _) rest p = rest p

abbrev pub in_range : ℕ → ℕ → ℕ
in_range cursor count = if leb count cursor then 0 else cursor

-- maximum_events.clamp(1, MAX_BROKER_PAGE_EVENTS)
abbrev pub clamp : ℕ → ℕ
clamp maximum_events = min (max maximum_events 1) max_broker_page_events

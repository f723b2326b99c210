-- ===== src/Observation/Examples.antt =====
-- Runs of the observation controller (crates/agent/src/observation.rs).
use local_search.Prelude.{inl, ◌≡◌, refl, true, false, none, some, [], ◌∷◌, length, ok, err}
use local_search.Platform.{VolumeDescriptor, ProviderCheckpoint, PlatformError, PlatformErrorKind}
use local_search.Graph.Types.{GraphError, VolumeState}
use local_search.Graph.Tables.{checkpoint, FilesystemGraph}
use local_search.Graph.Projection.{Encoding}
use local_search.Graph.Operations.{empty_graph}
use local_search.Observation.Selection.{
  ObservationSelection, selected_volumes, observes, is_selected, mount_point_matches, trim_end,
}
use local_search.Observation.State.{
  Surroundings, ObservationSource, ActiveScan, Controller, Progress,
}
use local_search.Observation.Outcomes.{clamp, state_of}
use local_search.Graph.Scan.{observation_session}
use local_search.Observation.Controller.{step, observe_volume}
use local_search.Observation.Calls.{Quantum, step-Quantum}
use local_search.Observation.Scans.{Accounts, step-Accounts}
use local_search.Observation.Store.{step-Does}
use local_search.Observation.Decisions.{Decides}
use local_search.Observation.Turns.{Does}
use local_search.Observation.Gap.{RescanFollows, gap_rescans}

abbrev sample_encoding : Encoding
sample_encoding = record {
  fingerprint = λ content. length content.resolved_path;
  to_lowercase = λ text. text;
}

abbrev drive : VolumeDescriptor
drive = record {
  volume_id = 7;
  display_name = none;
  mount_points = (67 ∷ 58 ∷ 92 ∷ []) ∷ [];
  filesystem = some (78 ∷ 84 ∷ 70 ∷ 83 ∷ []);
  removable = false;
  local = true;
}

abbrev saved : ProviderCheckpoint
saved = record { provider_id = 119 ∷ []; format_version = 1; volume_id = 7; opaque = [] }

abbrev gap : PlatformError
gap = record {
  kind = PlatformErrorKind.source_history_gap;
  operation = "read_changes";
  detail = "journal entry deleted";
}

-- A source with one drive, whose scan ends at once and whose journal has lost its history.
abbrev source : ObservationSource
source = record {
  discover_volumes = ok (drive ∷ []);
  start_scan = λ volume_id mode. ok 1;
  read_scan_page = λ scan_id maximum_events.
      ok (record { events = []; checkpoint = some saved; complete = true; has_more = false });
  read_changes = λ checkpoint maximum_events. err gap;
}

abbrev now : Surroundings
now = record { source = source; opens = ok tt; now = 10; discovered_at = 10 }

abbrev locked : Surroundings
locked = record now { opens = err GraphError.sqlite }

abbrev fresh : Controller
fresh = record {
  selection = ObservationSelection.volumes_and_mount_points [] ((99 ∷ 58 ∷ 47 ∷ []) ∷ []);
  volumes = drive ∷ [];
  cursor = 0;
  active_scan = none;
  last_discovery = 0;
}

abbrev active : ActiveScan
active = record { volume_id = 7; scan_id = 1 }

abbrev scanning : Controller
scanning = record fresh { active_scan = some active }

abbrev known : FilesystemGraph
known = record empty_graph {
  volumes =
      record {
        descriptor = drive;
        state = VolumeState.online;
        reconciliation_reason = none;
        generation = 1;
      }
      ∷ [];
  checkpoints = saved ∷ [];
}

abbrev at_known : Progress
at_known = record { controller = fresh; graph = known; calls = [] }

-- Drives of NTFS that a mount root selects, whatever the case and the last separator.
mount_root : selected_volumes (drive ∷ []) fresh.selection ≡ drive ∷ []
unfolding selected_volumes observes is_selected mount_point_matches trim_end
mount_root = refl

step-Quantum_example :
    Quantum sample_encoding now fresh known (step sample_encoding 5 now fresh known).0.calls
step-Quantum_example = step-Quantum sample_encoding now fresh known 5

step-Accounts_example :
    Accounts sample_encoding locked active known
      (clamp 5)
      (step sample_encoding 5 locked scanning known)
step-Accounts_example = step-Accounts sample_encoding 5 locked scanning known active refl

step-Does_example :
    Does sample_encoding
      (Decides sample_encoding now (clamp 5) known fresh)
      known
      (step sample_encoding 5 now fresh known).0.graph
step-Does_example = step-Does sample_encoding 5 now fresh known

gap_rescans_example :
    let s = observe_volume sample_encoding 5 now drive at_known in
    RescanFollows sample_encoding 7 at_known s
      (observe_volume sample_encoding 5 now drive (record at_known { graph = s.0.graph }))
unfolding observation_session checkpoint state_of
gap_rescans_example =
    gap_rescans sample_encoding 5 5 now now drive saved gap at_known at_known refl refl refl refl
      (inl refl)

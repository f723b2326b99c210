-- ===== src/BrokerService/State.antt =====
-- The state of `BrokerService` (crates/fs-service/src/lib.rs) and what a call meets from outside.
use local_search.Prelude.{ℕ, Bool, Option, none, some, List, [], ◌∷◌, ◌==◌, if◌then◌else◌}
use local_search.Core.Ids.{VolumeId}
use local_search.Core.Models.{FilesystemEvent}
use local_search.Platform.{
  PlatformCapabilities, VolumeDescriptor, PlatformResult, ProviderCheckpoint, ChangeBatch,
}
use local_search.Wire.Broker.{ScanMode}
use local_search.BrokerService.Replay.{ReplayWindow, admit, text_eq}
use local_search.BrokerService.Replay
use local_search.BrokerService.Scans.{Received, ScanState}

abbrev pub max_active_scans : ℕ
max_active_scans = 4

abbrev pub replay_window_requests : ℕ
replay_window_requests = 4096

-- The `FilesystemProvider` of a service, as it answers during one call. `open_scan` is what the
-- queue of a scan's worker gives; `read_changes` hands over its events and its result.
pub record Provider : Type 0 where
  pub capabilities : PlatformCapabilities
  pub discover_volumes : PlatformResult (List VolumeDescriptor)
  pub open_scan : VolumeDescriptor → ScanMode → List Received
  pub read_changes : ProviderCheckpoint → ℕ → List FilesystemEvent × PlatformResult ChangeBatch

-- One look at the caller's `cancelled` and at `started.elapsed()`, in milliseconds.
pub record Poll : Type 0 where
  pub cancelled : Bool
  pub elapsed_ms : ℕ

-- The looks of one call, in the order in which it takes them.
pub record Polls : Type 0 where
  pub at_dispatch : Bool
  pub at_operation : Poll
  pub at_spawn : Poll

pub record BrokerService : Type 0 where
  pub replay : ReplayWindow
  pub scans : List (ℕ × ScanState)
  pub next_scan_id : ℕ  -- u64

unfoldable pub new : BrokerService
new = record { replay = Replay.new replay_window_requests; scans = []; next_scan_id = 1 }

-- HashMap::get, HashMap::remove and HashMap::insert
unfoldable pub get : ℕ → List (ℕ × ScanState) → Option ScanState
get scan_id [] = none
get scan_id ((key, s) ∷ scans) = if key == scan_id then some s else get scan_id scans

unfoldable pub remove : ℕ → List (ℕ × ScanState) → List (ℕ × ScanState)
remove scan_id [] = []
remove scan_id ((key, s) ∷ scans) =
    let rest = remove scan_id scans in if key == scan_id then rest else (key, s) ∷ rest

unfoldable pub insert : ℕ → ScanState → List (ℕ × ScanState) → List (ℕ × ScanState)
insert scan_id s scans = (scan_id, s) ∷ remove scan_id scans

-- `.into_iter().find(|volume| volume.volume_id == volume_id)`
unfoldable pub find : VolumeId → List VolumeDescriptor → Option VolumeDescriptor
find volume_id [] = none
find volume_id (v ∷ vs) = if v.volume_id == volume_id then some v else find volume_id vs

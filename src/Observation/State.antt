-- ===== src/Observation/State.antt =====
-- The state of `BrokerObservationController` (crates/agent/src/observation.rs) and what one of its
-- steps meets from outside.
use local_search.Prelude.{ℕ, Bool, Option, List, Result}
use local_search.Core.Ids.{VolumeId}
use local_search.Core.Models.{FilesystemEvent}
use local_search.Platform.{
  VolumeDescriptor, ProviderCheckpoint, ChangeBatch, PlatformErrorKind, PlatformResult,
}
use local_search.Wire.Broker.{ScanMode, ScanPage}
use local_search.Graph.Types.{GraphError, GraphResult}
use local_search.Graph.Tables.{FilesystemGraph}
use local_search.Observation.Selection.{ObservationSelection}

-- 30 seconds, in nanoseconds
abbrev pub discovery_refresh : ℕ
discovery_refresh = 30000000000

-- What the source answers during one step.
pub record ObservationSource : Type 0 where
  pub discover_volumes : PlatformResult (List VolumeDescriptor)
  pub start_scan : VolumeId → ScanMode → PlatformResult ℕ
  pub read_scan_page : ℕ → ℕ → PlatformResult ScanPage
  pub read_changes : ProviderCheckpoint → ℕ → PlatformResult (List FilesystemEvent × ChangeBatch)

-- A call of the source. What `cancel_scan` answers is never looked at.
pub data SourceCall : Type 0 where
  discover : SourceCall
  start_scan : VolumeId → ScanMode → SourceCall
  read_scan_page : ℕ → ℕ → SourceCall
  cancel_scan : ℕ → SourceCall
  read_changes : ProviderCheckpoint → ℕ → SourceCall

-- The source, whether `FilesystemGraph::open` succeeds, and the clock, in nanoseconds, when the age
-- of the discovery is looked at and when a new one is dated.
pub record Surroundings : Type 0 where
  pub source : ObservationSource
  pub opens : GraphResult (Unit {0})
  pub now : ℕ
  pub discovered_at : ℕ

pub data ObservationStep : Type 0 where
  idle : ObservationStep
  scan_prepared scan_started : VolumeId → ObservationStep
  scan_page : VolumeId → ℕ → Bool → ObservationStep
  finalized : VolumeId → ℕ → Bool → ObservationStep
  incremental : VolumeId → ℕ → Bool → ObservationStep
  reconciliation_required offline : VolumeId → ObservationStep

pub data ObservationError : Type 0 where
  graph : GraphError → ObservationError
  provider : PlatformErrorKind → ObservationError

pub record ActiveScan : Type 0 where
  pub volume_id : VolumeId
  pub scan_id : ℕ  -- u64

pub record Controller : Type 0 where
  pub selection : ObservationSelection
  pub volumes : List VolumeDescriptor
  pub cursor : ℕ  -- usize
  pub active_scan : Option ActiveScan
  pub last_discovery : ℕ

-- The controller, the graph under its path, and the calls of the source in this step, the last one
-- first.
pub record Progress : Type 0 where
  pub controller : Controller
  pub graph : FilesystemGraph
  pub calls : List SourceCall

abbrev pub Stepped : Type 0
Stepped = Progress × Result ObservationError ObservationStep

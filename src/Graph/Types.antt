-- ===== src/Graph/Types.antt =====
-- The portable types of the graph and the volume isolation of a batch
-- (crates/filesystem-graph/src/domain.rs and error.rs).
use local_search.Prelude.{
  ℕ, Bool, false, not, Option, none, some, List, [], ◌∷◌, map, String, ◌==◌, Result, ok, ◌>>=◌,
  ◌>>◌, reject_if,
}
use local_search.Core.Ids.{VolumeId, FileLinkId, FileKey}
use local_search.Core.Models.{
  Text, FileObjectSnapshot, FileLinkSnapshot, FilesystemEvent, ReconciliationReason,
}
use local_search.Platform.{VolumeDescriptor, ProviderCheckpoint}

-- `sqlite` is a failed statement: here, a constraint of the schema.
pub data GraphError : Type 0 where
  sqlite serialization : GraphError
  invalid_batch invariant numeric_range : String → GraphError
  link_not_found traversal_boundary : FileLinkId → GraphError
  missing_parent ambiguous_parent parent_cycle : FileKey → GraphError
  depth_limit : ℕ → GraphError

abbrev pub GraphResult : Type 0 → Type 0
GraphResult A = Result GraphError A

pub data VolumeState : Type 0 where
  online offline needs_reconciliation : VolumeState

pub data ObservationScanMode : Type 0 where
  initial reconcile : ObservationScanMode

pub data ObservationScanPhase : Type 0 where
  scanning sweeping_links sweeping_objects : ObservationScanPhase

pub record ObservationSession : Type 0 where
  pub volume_id : VolumeId
  pub scan_generation : ℕ  -- u64
  pub mode : ObservationScanMode
  pub phase : ObservationScanPhase

pub record ObservationFinalizeSummary : Type 0 where
  pub stale_links_removed : ℕ  -- u64
  pub stale_objects_tombstoned : ℕ  -- u64
  pub completed : Bool

pub data GraphMutation : Type 0 where
  upsert_volume : VolumeDescriptor → GraphMutation
  set_volume_state : VolumeId → VolumeState → GraphMutation
  upsert_object : FileObjectSnapshot → GraphMutation
  upsert_link : FileLinkSnapshot → Bool → GraphMutation
  remove_link : FileLinkId → FileKey → GraphMutation
  tombstone_object : FileKey → GraphMutation
  require_reconciliation : VolumeId → ReconciliationReason → GraphMutation

unfoldable pub from_event : FilesystemEvent → GraphMutation
from_event (FilesystemEvent.object_observed object) = GraphMutation.upsert_object object
from_event (FilesystemEvent.link_observed link) = GraphMutation.upsert_link link false
from_event (FilesystemEvent.link_removed link object) = GraphMutation.remove_link link object
from_event (FilesystemEvent.object_removed object) = GraphMutation.tombstone_object object
from_event (FilesystemEvent.reconciliation_required volume reason) =
    GraphMutation.require_reconciliation volume reason

pub record GraphMutationBatch : Type 0 where
  pub volume_id : VolumeId
  pub checkpoint : ProviderCheckpoint
  pub mutations : List GraphMutation

unfoldable pub from_events :
    VolumeId → ProviderCheckpoint → List FilesystemEvent → GraphMutationBatch
from_events volume_id checkpoint events = record {
  volume_id = volume_id;
  checkpoint = checkpoint;
  mutations = map from_event events;
}

pub record ResolvedPath : Type 0 where
  pub components : List Text

pub record PathRefreshJob : Type 0 where
  pub job_id : ℕ  -- i64
  pub volume_id : VolumeId
  pub root_object : FileKey
  pub enqueued_generation : ℕ  -- u64

pub record ProjectionRefreshSummary : Type 0 where
  pub links_scanned : ℕ  -- u64
  pub outbox_mutations_appended : ℕ  -- u64
  pub job_completed : Bool

pub record GraphStats : Type 0 where
  pub volumes : ℕ  -- u64
  pub live_objects : ℕ  -- u64
  pub live_files : ℕ  -- u64
  pub live_file_bytes : ℕ  -- u64
  pub tombstoned_objects : ℕ  -- u64
  pub links : ℕ  -- u64
  pub pending_refresh_jobs : ℕ  -- u64

pub record DesiredPayloadMaintenanceSummary : Type 0 where
  pub rewritten_rows : ℕ  -- u64
  pub backlog_remaining : Bool

pub data GraphIntegrityIssue : Type 0 where
  orphan_object : FileKey → GraphIntegrityIssue
  missing_parent : FileLinkId → FileKey → GraphIntegrityIssue

pub record ApplySummary : Type 0 where
  pub mutations : ℕ  -- u64
  pub generation : ℕ  -- u64
  pub refresh_jobs_enqueued : ℕ  -- u64
  pub outbox_mutations_appended : ℕ  -- u64

pub record ProjectorCheckpoint : Type 0 where
  pub consumer_id : Text
  pub last_sequence : ℕ  -- u64
  pub index_generation : ℕ  -- u64

pub record OutboxMaintenanceSummary : Type 0 where
  pub safe_through_sequence : Option ℕ  -- u64
  pub deleted_rows : ℕ  -- u64
  pub backlog_remaining : Bool

abbrev crosses_volumes : Option FileKey → FileKey → Bool
crosses_volumes none object_key = false
crosses_volumes (some parent) object_key = not (parent.volume_id == object_key.volume_id)

-- the `match` of `validate_mutation_volume`
unfoldable pub mutation_volume : GraphMutation → GraphResult VolumeId
mutation_volume (GraphMutation.upsert_volume descriptor) = ok descriptor.volume_id
mutation_volume (GraphMutation.set_volume_state volume_id state) = ok volume_id
mutation_volume (GraphMutation.upsert_object object) = ok object.object_key.volume_id
mutation_volume (GraphMutation.upsert_link link boundary) = do
  reject_if (crosses_volumes link.parent_key link.object_key)
      (GraphError.invalid_batch "a filesystem link cannot cross volumes")
  ok link.object_key.volume_id
mutation_volume (GraphMutation.remove_link file_link_id object_key) = ok object_key.volume_id
mutation_volume (GraphMutation.tombstone_object object_key) = ok object_key.volume_id
mutation_volume (GraphMutation.require_reconciliation volume_id reason) = ok volume_id

unfoldable pub validate_mutation_volume : GraphMutation → VolumeId → GraphResult (Unit {0})
validate_mutation_volume mutation expected = do
  actual ← mutation_volume mutation
  reject_if (not (actual == expected))
      (GraphError.invalid_batch "mutation volume does not match batch volume")

unfoldable pub validate_mutations : List GraphMutation → VolumeId → GraphResult (Unit {0})
validate_mutations [] expected = ok tt
validate_mutations (m ∷ ms) expected =
    validate_mutation_volume m expected >> validate_mutations ms expected

unfoldable pub validate : GraphMutationBatch → GraphResult (Unit {0})
validate batch = do
  reject_if (not (batch.checkpoint.volume_id == batch.volume_id))
      (GraphError.invalid_batch "checkpoint volume does not match mutation batch")
  validate_mutations batch.mutations batch.volume_id

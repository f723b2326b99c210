-- ===== src/Graph/Tables.antt =====
-- The tables of the graph's schema (crates/filesystem-graph/src/migrations.rs) and the statements
-- that read and write them (store.rs). A column holds the value that its encoding stands for; i64
-- columns are natural numbers, since the schema's checks and `try_from` keep them from below zero.
use local_search.Prelude.{
  length, ℕ, ◌+◌, Bool, true, false, ◌&&◌, Option, none, some, List, [], ◌∷◌, ◌++◌, leb, ◌==◌,
  if◌then◌else◌, String, ok, err,
}
use local_search.Core.Ids.{VolumeId, FileLinkId, DocumentId, FileKey}
use local_search.Core.Models.{
  Text, FileMetadata, ReconciliationReason, CatalogDocument, IndexMutation,
}
use local_search.Platform.{VolumeDescriptor, ProviderCheckpoint}
use local_search.Graph.Rows.{exists, find, update, upsert}
use local_search.Graph.Types.{
  GraphError, GraphResult, VolumeState, ObservationScanMode, ObservationScanPhase,
  ProjectorCheckpoint,
}

pub record VolumeRow : Type 0 where
  pub descriptor : VolumeDescriptor
  pub state : VolumeState
  pub reconciliation_reason : Option ReconciliationReason
  pub generation : ℕ  -- i64

pub record ObjectRow : Type 0 where
  pub object_key : FileKey
  pub metadata : FileMetadata
  pub tombstoned : Bool
  pub observation_generation : ℕ  -- i64

pub record LinkRow : Type 0 where
  pub file_link_id : FileLinkId
  pub object_key : FileKey
  pub parent_key : Option FileKey
  pub name : Text
  pub traversal_boundary : Bool
  pub observation_generation : ℕ  -- i64

-- `pending` is state 0, and not pending state 2. Jobs are never deleted, so that a new one is given
-- the number of the rows and one.
pub record PathRefreshRow : Type 0 where
  pub job_id : ℕ  -- i64
  pub root_object : FileKey
  pub enqueued_generation : ℕ  -- i64
  pub cursor : Option FileLinkId
  pub pending : Bool

pub record VolumeRefreshRow : Type 0 where
  pub volume_id : VolumeId
  pub enqueued_generation : ℕ  -- i64
  pub cursor : Option FileLinkId
  pub pending : Bool

-- A document's payload: the path with the fingerprint, or the JSON of an older schema, which is
-- `none` where it cannot be read.
pub data Payload : Type 0 where
  compact : Text → ℕ → Payload
  legacy : Option CatalogDocument → Payload

pub record DocumentRow : Type 0 where
  pub document_id : DocumentId
  pub object_key : FileKey
  pub file_link_id : FileLinkId
  pub document_version : ℕ  -- i64
  pub payload : Payload

pub record OutboxRow : Type 0 where
  pub sequence : ℕ  -- i64
  pub document_id : DocumentId
  pub document_version : ℕ  -- i64
  pub mutation : IndexMutation

pub record SessionRow : Type 0 where
  pub volume_id : VolumeId
  pub scan_generation : ℕ  -- i64
  pub scan_mode : ObservationScanMode
  pub phase : ObservationScanPhase
  pub final_checkpoint : Option ProviderCheckpoint

-- `sequence` is the outbox's entry of `sqlite_sequence`, zero before the first row.
pub record FilesystemGraph : Type 0 where
  pub volumes : List VolumeRow
  pub checkpoints : List ProviderCheckpoint
  pub objects : List ObjectRow
  pub links : List LinkRow
  pub path_jobs : List PathRefreshRow
  pub volume_jobs : List VolumeRefreshRow
  pub documents : List DocumentRow
  pub outbox : List OutboxRow
  pub sequence : ℕ  -- i64
  pub consumers : List ProjectorCheckpoint
  pub sessions : List SessionRow

abbrev pub i64_max : ℕ
i64_max = 9223372036854775807

abbrev pub key_eq : FileKey → FileKey → Bool
key_eq a b = a.volume_id == b.volume_id && a.file_id == b.file_id

abbrev pub parent_eq : Option FileKey → Option FileKey → Bool
parent_eq none none = true
parent_eq (some a) (some b) = key_eq a b
parent_eq _ _ = false

abbrev pub text_eq : Text → Text → Bool
text_eq [] [] = true
text_eq (c ∷ cs) (d ∷ ds) = c == d && text_eq cs ds
text_eq _ _ = false

-- The rows of a key.
abbrev pub of_volume : VolumeId → VolumeRow → Bool
of_volume volume_id row = row.descriptor.volume_id == volume_id

abbrev pub of_object : FileKey → ObjectRow → Bool
of_object key row = key_eq row.object_key key

abbrev pub of_link : FileLinkId → LinkRow → Bool
of_link id row = row.file_link_id == id

abbrev pub links_to : FileKey → LinkRow → Bool
links_to key row = key_eq row.object_key key

abbrev pub of_session : VolumeId → SessionRow → Bool
of_session volume_id row = row.volume_id == volume_id

abbrev pub of_document : DocumentId → DocumentRow → Bool
of_document id row = row.document_id == id

-- i64::checked_add(1)
abbrev pub checked_add_one : ℕ → String → GraphResult ℕ
checked_add_one n field = if leb i64_max n then err (GraphError.numeric_range field) else ok (n + 1)

-- i64::try_from of a u64
abbrev pub try_i64 : ℕ → String → GraphResult ℕ
try_i64 n field = if leb n i64_max then ok n else err (GraphError.numeric_range field)

-- `SELECT generation FROM graph_volumes …`, and zero for an unknown volume
unfoldable pub generation_of : VolumeId → List VolumeRow → ℕ
generation_of volume_id [] = 0
generation_of volume_id (row ∷ rows) =
    if of_volume volume_id row then row.generation else generation_of volume_id rows

unfoldable pub set_generation : VolumeId → ℕ → FilesystemGraph → FilesystemGraph
set_generation volume_id generation g = record g {
  volumes = update (of_volume volume_id) (λ row. record row { generation = generation }) g.volumes;
}

abbrev pub volume_exists : VolumeId → FilesystemGraph → Bool
volume_exists volume_id g = exists (of_volume volume_id) g.volumes

unfoldable pub upsert_volume : VolumeDescriptor → FilesystemGraph → FilesystemGraph
upsert_volume descriptor g = record g {
  volumes =
      upsert (of_volume descriptor.volume_id)
        (λ row. record row {
          descriptor = descriptor;
          state = VolumeState.online;
          reconciliation_reason = none;
        })
        (record {
          descriptor = descriptor;
          state = VolumeState.online;
          reconciliation_reason = none;
          generation = 0;
        })
        g.volumes;
}

-- The three upserts of a checkpoint's row.
unfoldable pub save_checkpoint : ProviderCheckpoint → FilesystemGraph → FilesystemGraph
save_checkpoint checkpoint g = record g {
  checkpoints =
      upsert (λ row. row.volume_id == checkpoint.volume_id) (λ row. checkpoint) checkpoint
        g.checkpoints;
}

unfoldable pub checkpoint : VolumeId → FilesystemGraph → Option ProviderCheckpoint
checkpoint volume_id g = find (λ row. row.volume_id == volume_id) g.checkpoints

unfoldable pub enqueue_refresh : FileKey → ℕ → FilesystemGraph → FilesystemGraph × ℕ
enqueue_refresh object generation g =
    if exists (λ row. key_eq row.root_object object && row.pending) g.path_jobs then (g, 0) else (
      record g {
        path_jobs =
            g.path_jobs
            ++ record {
              job_id = length g.path_jobs + 1;
              root_object = object;
              enqueued_generation = generation;
              cursor = none;
              pending = true;
            }
              ∷ [];
      },
      1,
    )

unfoldable pub enqueue_volume_projection_refresh : VolumeId → ℕ → FilesystemGraph → FilesystemGraph
enqueue_volume_projection_refresh volume_id generation g = record g {
  volume_jobs =
      upsert (λ row. row.volume_id == volume_id)
        (λ row. record row { enqueued_generation = generation; cursor = none; pending = true })
        (record {
          volume_id = volume_id;
          enqueued_generation = generation;
          cursor = none;
          pending = true;
        })
        g.volume_jobs;
}

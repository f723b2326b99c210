-- ===== src/Graph/Projection.antt =====
-- The desired catalog and its outbox: `sync_catalog_projection` and what it calls in
-- crates/filesystem-graph/src/store.rs. The fingerprint (SHA-256 of serde_json) and `to_lowercase`
-- are parameters.
pub mod Replay
use local_search.Prelude.{
  ℕ, ◌+◌, ◌≡◌, Bool, true, false, not, ◌&&◌, ◌||◌, Option, none, some, List, [], ◌∷◌, ◌++◌, length,
  ltb, leb, ◌==◌, if◌then◌else◌, Result, ok, err, ◌>>=◌, ◌>>◌, reject_if, ok_or, ℤ, ℕ_discrete,
}
use mathlib.Core.Option
use local_search.Core.Ids.{VolumeId, FileLinkId, DocumentId, FileKey, CatalogIdentity}
use local_search.Core.Models.{
  Text, Availability, FileKind, FileMetadata, CatalogDocument, IndexMutation,
}
use local_search.Graph.Rows.{select, exists, find, delete, update, upsert}
use local_search.Graph.Types.{GraphError, GraphResult, VolumeState}
use local_search.Graph.Tables.{
  VolumeRow, ObjectRow, LinkRow, Payload, compact, legacy, DocumentRow, OutboxRow, FilesystemGraph,
  of_volume, of_object, of_link, of_document, i64_max,
}
use local_search.Graph.Paths.{resolve_path_connection, display}

pub data ProjectionOutboxMode : Type 0 where
  durable rebuildable : ProjectionOutboxMode

-- the fields that `catalog_content_equal` compares and `catalog_content_fingerprint` reads
pub record CatalogContent : Type 0 where
  pub identity : CatalogIdentity
  pub name : Text
  pub resolved_path : Text
  pub extension : Option Text
  pub metadata : FileMetadata

abbrev pub content_of : CatalogDocument → CatalogContent
content_of d = record {
  identity = d.identity;
  name = d.name;
  resolved_path = d.resolved_path;
  extension = d.extension;
  metadata = d.metadata;
}

ℤ_discrete : Discrete ℤ
ℤ_discrete = hlevel (ℕ_discrete)

kind_discrete : Discrete FileKind
kind_discrete = hlevel

availability_discrete : Discrete Availability
availability_discrete = hlevel

metadata_discrete : Discrete FileMetadata
metadata_discrete = hlevel (ℕ_discrete, ℤ_discrete, kind_discrete, availability_discrete)

content_discrete : Discrete CatalogContent
content_discrete = hlevel (ℕ_discrete, metadata_discrete)

abbrev pub is_yes : {P : Type 0} → Dec P → Bool
is_yes (yes p) = true
is_yes (no p) = false

-- `catalog_content_equal`, of two documents' contents
pub content_equal : CatalogContent → CatalogContent → Bool
unfolding content_discrete
content_equal left right = is_yes (content_discrete left right)

-- Sha256::digest of serde_json::to_vec, and str::to_lowercase
pub record Encoding : Type 0 where
  pub fingerprint : CatalogContent → ℕ
  pub to_lowercase : Text → Text

-- `rsplit_once('.')`, the part behind the last dot
unfoldable pub after_last_dot : Text → Option Text
after_last_dot [] = none
after_last_dot (c ∷ cs) = elim (after_last_dot cs) [
  | some rest ↦ some rest
  | none ↦ if c == b'.' then some cs else none
]

abbrev non_empty : Option Text → Option Text
non_empty (some (c ∷ cs)) = some (c ∷ cs)
non_empty _ = none

unfoldable pub volume_state : FilesystemGraph → VolumeId → GraphResult VolumeState
volume_state g volume_id = do
  row ←
      ok_or (find (of_volume volume_id) g.volumes)
        (GraphError.invariant "catalog object references a missing volume")
  ok row.state

unfoldable pub load_object_metadata : FilesystemGraph → FileKey → GraphResult FileMetadata
load_object_metadata g object = do
  row ←
      ok_or (find (λ row. of_object object row && not row.tombstoned) g.objects)
        (GraphError.invariant "catalog link references a missing object")
  ok row.metadata

abbrev pub availability_in : VolumeState → Availability → Availability
availability_in VolumeState.online availability = availability
availability_in VolumeState.offline availability = Availability.offline
availability_in VolumeState.needs_reconciliation availability = Availability.unknown

-- `document_id_for_link`: the same sixteen bytes
abbrev pub document_id_for_link : FileLinkId → DocumentId
document_id_for_link id = id

-- The errors of `build_catalog_document` that mean that the link has no path now.
abbrev pub unresolvable : GraphError → Bool
unresolvable (GraphError.missing_parent object) = true
unresolvable (GraphError.ambiguous_parent object) = true
unresolvable (GraphError.parent_cycle object) = true
unresolvable (GraphError.traversal_boundary link) = true
unresolvable (GraphError.depth_limit limit) = true
unresolvable _ = false

-- AUTOINCREMENT: the next sequence is beyond every one that was given; at the end of i64 it fails.
unfoldable pub append_outbox :
    DocumentId → ℕ → IndexMutation → FilesystemGraph → GraphResult FilesystemGraph
append_outbox document_id version mutation g = do
  reject_if (leb i64_max g.sequence) GraphError.sqlite
  let row : OutboxRow = record {
    sequence = g.sequence + 1;
    document_id = document_id;
    document_version = version;
    mutation = mutation;
  }
  ok (record g { outbox = g.outbox ++ row ∷ []; sequence = g.sequence + 1 })

abbrev pub remove_document : DocumentId → FilesystemGraph → FilesystemGraph
remove_document id g = record g { documents = delete (of_document id) g.documents }

abbrev pub delete_in_mode :
    ProjectionOutboxMode → DocumentId → ℕ → FilesystemGraph → GraphResult (FilesystemGraph × ℕ)
delete_in_mode durable id version g = do
  appended ← append_outbox id version (IndexMutation.delete id version) g
  ok (remove_document id appended, 1)
delete_in_mode rebuildable id version g = ok (remove_document id g, 0)

unfoldable pub delete_catalog_projection :
    DocumentId → ℕ → ProjectionOutboxMode → FilesystemGraph → GraphResult (FilesystemGraph × ℕ)
delete_catalog_projection id version mode g =
    if exists (of_document id) g.documents then delete_in_mode mode id version g else ok (g, 0)

abbrev pub document_row : LinkRow → ℕ → Text → ℕ → DocumentRow
document_row link generation path fingerprint = record {
  document_id = document_id_for_link link.file_link_id;
  object_key = link.object_key;
  file_link_id = link.file_link_id;
  document_version = generation;
  payload = compact path fingerprint;
}

module _ (encoding : Encoding) where
  unfoldable pub extension_for_name : Text → Option Text
  extension_for_name name = Option.map encoding.to_lowercase (non_empty (after_last_dot name))

  unfoldable pub build_catalog_document :
      FilesystemGraph → LinkRow → ℕ → GraphResult CatalogDocument
  build_catalog_document g link version = do
    metadata ← load_object_metadata g link.object_key
    state ← volume_state g link.object_key.volume_id
    path ← resolve_path_connection g link.file_link_id 512
    ok (record {
      identity = record {
        object_key = link.object_key;
        file_link_id = link.file_link_id;
        document_id = document_id_for_link link.file_link_id;
      };
      document_version = version;
      name = link.name;
      resolved_path = display path.components;
      extension = extension_for_name link.name;
      metadata = record metadata { availability = availability_in state metadata.availability };
    })

  abbrev pub unchanged_payload : CatalogContent → Payload → GraphResult Bool
  unchanged_payload content (compact path previous) = ok (previous == encoding.fingerprint content)
  unchanged_payload content (legacy none) = err GraphError.serialization
  unchanged_payload content (legacy (some previous)) =
      ok (content_equal (content_of previous) content)

  abbrev pub unchanged : CatalogContent → Option DocumentRow → GraphResult Bool
  unchanged content none = ok false
  unchanged content (some row) = unchanged_payload content row.payload

  -- the insert of the desired row
  unfoldable pub write_document : LinkRow → ℕ → CatalogDocument → FilesystemGraph → FilesystemGraph
  write_document link generation document g =
      let row =
        document_row link generation document.resolved_path
          (encoding.fingerprint (content_of document)) in
      record g {
        documents =
            upsert (of_document (document_id_for_link link.file_link_id)) (λ old. row) row
              g.documents;
      }

  abbrev pub append_in_mode :
      ProjectionOutboxMode
      → LinkRow
      → ℕ
      → CatalogDocument
      → FilesystemGraph
      → GraphResult (FilesystemGraph × ℕ)
  append_in_mode durable link generation document g = do
    appended ←
        append_outbox (document_id_for_link link.file_link_id) generation
          (IndexMutation.upsert document) g
    ok (appended, 1)
  append_in_mode rebuildable link generation document g = ok (g, 0)

  -- `sync_catalog_projection` with a document at hand
  unfoldable pub sync_document :
      LinkRow
      → ℕ
      → ProjectionOutboxMode
      → CatalogDocument
      → FilesystemGraph
      → GraphResult (FilesystemGraph × ℕ)
  sync_document link generation mode document g = do
    same ←
        unchanged (content_of document)
          (find (of_document (document_id_for_link link.file_link_id)) g.documents)
    (if same
        then ok (g, 0)
        else append_in_mode mode link generation document
            (write_document link generation document g))

  abbrev pub sync_built :
      LinkRow
      → ℕ
      → ProjectionOutboxMode
      → FilesystemGraph
      → GraphResult CatalogDocument
      → GraphResult (FilesystemGraph × ℕ)
  sync_built link generation mode g (ok document) = sync_document link generation mode document g
  sync_built link generation mode g (err error) =
      if unresolvable error
      then delete_catalog_projection (document_id_for_link link.file_link_id) generation mode g
      else err error

  abbrev pub sync_link :
      FileLinkId
      → ℕ
      → ProjectionOutboxMode
      → FilesystemGraph
      → Option LinkRow
      → GraphResult (FilesystemGraph × ℕ)
  sync_link id generation mode g none =
      delete_catalog_projection (document_id_for_link id) generation mode g
  sync_link id generation mode g (some link) =
      sync_built link generation mode g (build_catalog_document g link generation)

  unfoldable pub sync_catalog_projection :
      FileLinkId → ℕ → ProjectionOutboxMode → FilesystemGraph → GraphResult (FilesystemGraph × ℕ)
  sync_catalog_projection id generation mode g =
      sync_link id generation mode g (find (of_link id) g.links)

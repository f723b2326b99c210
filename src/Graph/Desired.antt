-- ===== src/Graph/Desired.antt =====
-- Reading the desired catalog, compacting its older payloads, counting and auditing the graph
-- (crates/filesystem-graph/src/store.rs).
pub mod Live
use local_search.Prelude.{
  ℕ, ◌+◌, ◌≡◌, Bool, true, false, not, ◌&&◌, ◌||◌, Option, none, some, List, [], ◌∷◌, ◌++◌, map,
  length, take, ltb, leb, ◌==◌, if◌then◌else◌, Result, ok, err, ◌>>=◌, ◌>>◌, reject_if, ok_or,
}
use local_search.Core.Ids.{VolumeId, FileLinkId, DocumentId, FileKey}
use local_search.Core.Models.{Text, FileKind, CatalogDocument}
use local_search.Graph.Rows.{select, exists, find, update, order_by}
use local_search.Graph.Types.{
  GraphError, GraphResult, VolumeState, GraphStats, DesiredPayloadMaintenanceSummary,
  GraphIntegrityIssue,
}
use local_search.Graph.Tables.{
  i64_max, VolumeRow, ObjectRow, LinkRow, Payload, compact, legacy, DocumentRow, FilesystemGraph,
  of_volume, of_object, of_link, of_document, links_to,
}
use local_search.Graph.Projection.{Encoding, availability_in, extension_for_name, content_of}
use local_search.Graph.Batch.{transact}

-- A document's row with those that its queries join to it.
pub record StoredCatalogProjection : Type 0 where
  pub document : DocumentRow
  pub name : Text
  pub object : ObjectRow
  pub volume_state : VolumeState

abbrev pub with_volume :
    DocumentRow → LinkRow → ObjectRow → Option VolumeRow → List StoredCatalogProjection
with_volume document link object none = []
with_volume document link object (some volume) =
    record { document = document; name = link.name; object = object; volume_state = volume.state }
    ∷ []

abbrev pub with_object :
    FilesystemGraph → DocumentRow → LinkRow → Option ObjectRow → List StoredCatalogProjection
with_object g document link none = []
with_object g document link (some object) =
    with_volume document link object (find (of_volume document.object_key.volume_id) g.volumes)

abbrev pub with_link : FilesystemGraph → DocumentRow → Option LinkRow → List StoredCatalogProjection
with_link g document none = []
with_link g document (some link) =
    with_object g document link (find (of_object document.object_key) g.objects)

-- JOIN, by primary keys: at most one row for each document
unfoldable pub join : FilesystemGraph → List DocumentRow → List StoredCatalogProjection
join g [] = []
join g (d ∷ ds) = with_link g d (find (of_link d.file_link_id) g.links) ++ join g ds

unfoldable pub by_document_id : List DocumentRow → List DocumentRow
by_document_id rows = order_by (λ d. 0) (λ (d : DocumentRow). d.document_id) rows

abbrev after_document : Option DocumentId → DocumentRow → Bool
after_document none row = true
after_document (some cursor) row = ltb cursor row.document_id

unfoldable pub desired_catalog_identities : VolumeId → FilesystemGraph → List (FileLinkId × FileKey)
desired_catalog_identities volume_id g =
    map (λ (d : DocumentRow). (d.file_link_id, d.object_key))
      (order_by (λ d. 0) (λ (d : DocumentRow). d.file_link_id)
        (select (λ d. d.object_key.volume_id == volume_id) g.documents))

abbrev pub is_legacy : DocumentRow → Bool
is_legacy row = elim row.payload [ compact path fingerprint ↦ false | legacy document ↦ true ]

unfoldable pub legacy_desired_payload_maintenance_pending : FilesystemGraph → Bool
legacy_desired_payload_maintenance_pending g = exists is_legacy g.documents

module _ (encoding : Encoding) where
  abbrev pub document_of : StoredCatalogProjection → Payload → GraphResult CatalogDocument
  document_of stored (legacy document) = ok_or document GraphError.serialization
  document_of stored (compact path fingerprint) =
      let metadata = stored.object.metadata in
      ok (record {
        identity = record {
          object_key = stored.document.object_key;
          file_link_id = stored.document.file_link_id;
          document_id = stored.document.document_id;
        };
        document_version = stored.document.document_version;
        name = stored.name;
        resolved_path = path;
        extension = extension_for_name encoding stored.name;
        metadata = record metadata {
          availability = availability_in stored.volume_state metadata.availability;
        };
      })

  unfoldable pub into_document : StoredCatalogProjection → GraphResult CatalogDocument
  into_document stored = document_of stored stored.document.payload

  unfoldable pub into_documents : List StoredCatalogProjection → GraphResult (List CatalogDocument)
  into_documents [] = ok []
  into_documents (s ∷ ss) = do
    document ← into_document s
    documents ← into_documents ss
    ok (document ∷ documents)

  unfoldable pub desired_catalog_documents : FilesystemGraph → GraphResult (List CatalogDocument)
  desired_catalog_documents g = into_documents (join g (by_document_id g.documents))

  unfoldable pub desired_catalog_page :
      Option DocumentId → ℕ → FilesystemGraph → GraphResult (List CatalogDocument)
  desired_catalog_page after limit g =
      into_documents
        (take limit (join g (by_document_id (select (after_document after) g.documents))))

  abbrev as_document : List StoredCatalogProjection → GraphResult (Option CatalogDocument)
  as_document [] = ok none
  as_document (s ∷ ss) = do document ← into_document s; ok (some document)

  unfoldable pub desired_catalog_document :
      DocumentId → FilesystemGraph → GraphResult (Option CatalogDocument)
  desired_catalog_document id g = as_document (join g (select (of_document id) g.documents))

  abbrev pub compacted : CatalogDocument → DocumentRow → DocumentRow
  compacted document row = record row {
    payload = compact document.resolved_path (encoding.fingerprint (content_of document));
  }

  abbrev pub compact_payload : DocumentRow → Payload → FilesystemGraph → GraphResult FilesystemGraph
  compact_payload row (compact path fingerprint) g = ok g
  compact_payload row (legacy payload) g = do
    document ← ok_or payload GraphError.serialization
    ok (record g {
      documents =
          update (λ d. of_document row.document_id d && is_legacy d) (compacted document)
            g.documents;
    })

  unfoldable pub compact_rows : List DocumentRow → FilesystemGraph → GraphResult FilesystemGraph
  compact_rows [] g = ok g
  compact_rows (row ∷ rows) g = do g' ← compact_payload row row.payload g; compact_rows rows g'

  -- the transaction of `compact_legacy_desired_payloads_bounded`
  unfoldable pub compact_legacy :
      ℕ → FilesystemGraph → GraphResult (FilesystemGraph × DesiredPayloadMaintenanceSummary)
  compact_legacy maximum_rows g = do
    reject_if (maximum_rows == 0 || ltb 100000 maximum_rows)
        (GraphError.invalid_batch "desired payload maintenance bound must be between 1 and 100000")
    let legacy_rows = take maximum_rows (by_document_id (select is_legacy g.documents))
    rewritten ← compact_rows legacy_rows g
    ok (
      rewritten,
      record {
        rewritten_rows = length legacy_rows;
        backlog_remaining = exists is_legacy rewritten.documents;
      },
    )

  unfoldable pub compact_legacy_desired_payloads_bounded :
      ℕ → FilesystemGraph → FilesystemGraph × GraphResult DesiredPayloadMaintenanceSummary
  compact_legacy_desired_payloads_bounded maximum_rows g =
      transact g (compact_legacy maximum_rows g)

abbrev is_file_kind : FileKind → Bool
is_file_kind FileKind.file = true
is_file_kind _ = false

-- coalesce(sum(size), 0)
abbrev sum_size : List ObjectRow → ℕ
sum_size [] = 0
sum_size (o ∷ os) = o.metadata.size + sum_size os

-- SQLite refuses a sum beyond i64.
unfoldable pub stats : FilesystemGraph → GraphResult GraphStats
stats g = do
  let live = select (λ (o : ObjectRow). not o.tombstoned) g.objects
  let live_files = select (λ (o : ObjectRow). is_file_kind o.metadata.kind) live
  reject_if (ltb i64_max (sum_size live_files)) GraphError.sqlite
  ok (record {
    volumes = length g.volumes;
    live_objects = length live;
    live_files = length live_files;
    live_file_bytes = sum_size live_files;
    tombstoned_objects = length (select (λ (o : ObjectRow). o.tombstoned) g.objects);
    links = length g.links;
    pending_refresh_jobs =
        length (select (λ j. j.pending) g.path_jobs)
        + length (select (λ j. j.pending) g.volume_jobs);
  })

abbrev missing_parent_of : List ObjectRow → LinkRow → Option FileKey → List GraphIntegrityIssue
missing_parent_of objects link none = []
missing_parent_of objects link (some parent) =
    if exists (of_object parent) objects
    then []
    else GraphIntegrityIssue.missing_parent link.file_link_id parent ∷ []

unfoldable pub missing_parents : List ObjectRow → List LinkRow → List GraphIntegrityIssue
missing_parents objects [] = []
missing_parents objects (l ∷ ls) =
    missing_parent_of objects l l.parent_key ++ missing_parents objects ls

unfoldable pub orphan_objects : List ObjectRow → List LinkRow → List GraphIntegrityIssue
orphan_objects objects links =
    map (λ (o : ObjectRow). GraphIntegrityIssue.orphan_object o.object_key)
      (select (λ (o : ObjectRow). not o.tombstoned && not (exists (links_to o.object_key) links))
        objects)

-- The query has no `ORDER BY`: this is the order of the tables, orphans first.
unfoldable pub audit_integrity : ℕ → FilesystemGraph → List GraphIntegrityIssue
audit_integrity limit g =
    take limit (orphan_objects g.objects g.links ++ missing_parents g.objects g.links)

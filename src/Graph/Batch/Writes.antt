-- ===== src/Graph/Batch/Writes.antt =====
-- What the projections of a batch do to the graph, in any relation that appending to the outbox and
-- writing documents keep (crates/filesystem-graph/src/store.rs).
use local_search.Prelude.{
  ℕ, ◌+◌, Option, none, some, List, [], ◌∷◌, ok, err, Ensures, bind-Ensures, Ensures-ok,
  Ensures-map, Bool-cases, inl, inr,
}
use local_search.Core.Ids.{FileLinkId, DocumentId}
use local_search.Core.Models.{CatalogDocument, IndexMutation}
use local_search.Graph.Rows.{exists, find}
use local_search.Graph.Types.{GraphResult}
use local_search.Graph.Tables.{LinkRow, DocumentRow, FilesystemGraph, of_link, of_document}
use local_search.Graph.Projection.{
  ProjectionOutboxMode, durable, rebuildable, Encoding, content_of, document_id_for_link,
  unresolvable, append_outbox, remove_document, delete_in_mode, delete_catalog_projection,
  build_catalog_document, unchanged, write_document, append_in_mode, sync_document, sync_built,
  sync_link, sync_catalog_projection,
}
use local_search.Graph.Batch.{sync_all}

-- A relation of a graph to a later one.
pub record Writes (R : FilesystemGraph → FilesystemGraph → Type 0) : Type 0 where
  pub documents :
      (g : FilesystemGraph) (rows : List DocumentRow) → R g (record g { documents = rows })
  pub append :
      (id : DocumentId) (version : ℕ) (mutation : IndexMutation) (g : FilesystemGraph)
      → Ensures (R g) (append_outbox id version mutation g)
  pub then : (g g' g'' : FilesystemGraph) → R g g' → R g' g'' → R g g''

module _ (encoding : Encoding) (R : FilesystemGraph → FilesystemGraph → Type 0)
    (writes : Writes R) where
  abbrev Fst : FilesystemGraph → FilesystemGraph × ℕ → Type 0
  Fst g p = R g p.0

  stays : (g : FilesystemGraph) → R g g
  stays g = writes.documents g g.documents

  delete_in_mode-Writes :
      (mode : ProjectionOutboxMode) (id : DocumentId) (version : ℕ) (g : FilesystemGraph)
      → Ensures (Fst g) (delete_in_mode mode id version g)
  delete_in_mode-Writes durable id version g =
      bind-Ensures (Fst g) (append_outbox id version (IndexMutation.delete id version) g) _ λ g' e.
        writes.then g g' (remove_document id g')
          (Ensures-ok (R g) _ g' (writes.append id version (IndexMutation.delete id version) g) e)
          (writes.documents g' _)
  delete_in_mode-Writes rebuildable id version g = writes.documents g _

  delete-Writes :
      (id : DocumentId) (version : ℕ) (mode : ProjectionOutboxMode) (g : FilesystemGraph)
      → Ensures (Fst g) (delete_catalog_projection id version mode g)
  unfolding delete_catalog_projection
  delete-Writes id version mode g = elim (Bool-cases (exists (of_document id) g.documents)) [
    | inl there ↦ rw there (delete_in_mode-Writes mode id version g)
    | inr absent ↦ rw absent (stays g)
  ]

  append_in_mode-Writes :
      (mode : ProjectionOutboxMode) (link : LinkRow) (generation : ℕ) (document : CatalogDocument)
      (g : FilesystemGraph)
      → Ensures (Fst g) (append_in_mode encoding mode link generation document g)
  append_in_mode-Writes durable link generation document g =
      let id = document_id_for_link link.file_link_id in
      bind-Ensures (Fst g) (append_outbox id generation (IndexMutation.upsert document) g) _ λ g' e.
        Ensures-ok (R g) _ g' (writes.append id generation (IndexMutation.upsert document) g) e
  append_in_mode-Writes rebuildable link generation document g = stays g

  sync_built-Writes :
      (mode : ProjectionOutboxMode) (link : LinkRow) (generation : ℕ) (g : FilesystemGraph)
      (built : GraphResult CatalogDocument)
      → Ensures (Fst g) (sync_built encoding link generation mode g built)
  unfolding sync_document write_document
  sync_built-Writes mode link generation g (ok document) =
      bind-Ensures (Fst g)
        (unchanged encoding (content_of document)
          (find (of_document (document_id_for_link link.file_link_id)) g.documents))
        _
        λ same s. elim (Bool-cases same) [
          | inl kept ↦ rw kept (stays g)
          | inr changed ↦ rw changed (
              let written = write_document encoding link generation document g in
              Ensures-map (append_in_mode encoding mode link generation document written)
                (λ p h. writes.then g written p.0 (writes.documents g written.documents) h)
                (append_in_mode-Writes mode link generation document written))
        ]
  sync_built-Writes mode link generation g (err error) = elim (Bool-cases (unresolvable error)) [
    | inl gone ↦ rw gone (delete-Writes (document_id_for_link link.file_link_id) generation mode g)
    | inr failed ↦ rw failed tt
  ]

  sync_link-Writes :
      (id : FileLinkId) (generation : ℕ) (mode : ProjectionOutboxMode) (g : FilesystemGraph)
      (link : Option LinkRow)
      → Ensures (Fst g) (sync_link encoding id generation mode g link)
  sync_link-Writes id generation mode g none =
      delete-Writes (document_id_for_link id) generation mode g
  sync_link-Writes id generation mode g (some link) =
      sync_built-Writes mode link generation g (build_catalog_document encoding g link generation)

  pub sync_all-Writes :
      (ids : List FileLinkId) (generation : ℕ) (mode : ProjectionOutboxMode) (g : FilesystemGraph)
      (n : ℕ)
      → Ensures (Fst g) (sync_all encoding ids generation mode g n)
  unfolding sync_all sync_catalog_projection
  sync_all-Writes [] generation mode g n = stays g
  sync_all-Writes (id ∷ ids) generation mode g n =
      bind-Ensures (Fst g) (sync_catalog_projection encoding id generation mode g) _ λ p e.
        let first =
          Ensures-ok (Fst g) _ p (sync_link-Writes id generation mode g (find (of_link id) g.links))
            e in
        Ensures-map (sync_all encoding ids generation mode p.0 (n + p.1))
          (λ q later. writes.then g p.0 q.0 first later)
          (sync_all-Writes ids generation mode p.0 (n + p.1))

-- ===== src/Graph/Batch/Live.antt =====
-- No batch leaves a link to a tombstoned object (crates/filesystem-graph/src/store.rs).
use local_search.Prelude.{
  ℕ, ◌+◌, ◌≡◌, refl, sym, subst, ◌∙◌, true, Option, none, some, List, [], ◌∷◌, String, length, leb,
  ok, err, reject_if, Ensures, bind-Ensures, Ensures-ok, Ensures-map, Bool-cases, inl, inr,
}
use local_search.Core.Ids.{VolumeId, FileLinkId, DocumentId}
use local_search.Core.Models.{CatalogDocument, IndexMutation}
use local_search.Graph.Rows.{select, exists, find}
use local_search.Graph.Types.{
  GraphResult, GraphMutation, GraphMutationBatch, ApplySummary, validate, ProjectorCheckpoint,
}
use local_search.Graph.Tables.{
  VolumeRow, ObjectRow, LinkRow, SessionRow, FilesystemGraph, of_volume, of_link, of_document,
  checked_add_one, generation_of, set_generation, save_checkpoint, upsert_volume,
  enqueue_volume_projection_refresh, i64_max,
}
use local_search.Graph.Links.{upsert_object, tombstone_object, remove_link}
use local_search.Graph.Links.LiveRows.{AllLive, LinksLive}
use local_search.Graph.Links.Liveness.{
  upsert_object-LinksLive, remove_link_internal-LinksLive, tombstone_object-LinksLive,
  upsert_link-LinksLive,
}
use local_search.Graph.Projection.{
  ProjectionOutboxMode, durable, rebuildable, Encoding, append_outbox, delete_in_mode,
  delete_catalog_projection, unresolvable, build_catalog_document, unchanged, write_document,
  append_in_mode, sync_document, sync_built, sync_link, sync_catalog_projection,
  document_id_for_link, content_of,
}
use local_search.Graph.Batch.{
  require_single_update, change_volume, apply_mutation, affected_links, insert_all, apply_mutations,
  refuses, sync_all, close_batch, run_batch,
}

change_volume-LinksLive :
    (id : VolumeId) (change : VolumeRow → VolumeRow) (message : String) (generation : ℕ)
    (g : FilesystemGraph)
    → LinksLive g
    → Ensures (λ p. LinksLive p.0) (change_volume id change message generation g)
unfolding change_volume enqueue_volume_projection_refresh
change_volume-LinksLive id change message generation g h =
    bind-Ensures _ (require_single_update (length (select (of_volume id) g.volumes)) message) _
      λ u r. h

apply_mutation-LinksLive :
    (m : GraphMutation) (generation : ℕ) (g : FilesystemGraph)
    → LinksLive g
    → Ensures (λ p. LinksLive p.0) (apply_mutation m generation g)
unfolding apply_mutation upsert_volume remove_link
apply_mutation-LinksLive (GraphMutation.upsert_volume descriptor) generation g h = h
apply_mutation-LinksLive (GraphMutation.set_volume_state id state) generation g h =
    change_volume-LinksLive id _ _ generation g h
apply_mutation-LinksLive (GraphMutation.upsert_object object) generation g h =
    bind-Ensures _ (upsert_object object generation g) _
      λ g' e. Ensures-ok LinksLive _ g' (upsert_object-LinksLive object generation g h) e
apply_mutation-LinksLive (GraphMutation.upsert_link link boundary) generation g h =
    upsert_link-LinksLive link boundary generation g h
apply_mutation-LinksLive (GraphMutation.remove_link id object) generation g h =
    remove_link_internal-LinksLive id object generation true g h
apply_mutation-LinksLive (GraphMutation.tombstone_object object) generation g h =
    bind-Ensures _ (tombstone_object object g) _
      λ g' e. Ensures-ok LinksLive _ g' (tombstone_object-LinksLive object g h) e
apply_mutation-LinksLive (GraphMutation.require_reconciliation id reason) generation g h =
    change_volume-LinksLive id _ _ generation g h

apply_mutations-LinksLive :
    (ms : List GraphMutation) (generation : ℕ) (g : FilesystemGraph) (jobs : ℕ)
    (affected : List FileLinkId)
    → LinksLive g
    → Ensures (λ p. LinksLive p.0) (apply_mutations ms generation g jobs affected)
unfolding apply_mutations
apply_mutations-LinksLive [] generation g jobs affected h = h
apply_mutations-LinksLive (m ∷ ms) generation g jobs affected h =
    bind-Ensures _ (apply_mutation m generation g) _ λ p e.
      apply_mutations-LinksLive ms generation p.0 (jobs + p.1)
        (insert_all (affected_links m g) affected)
        (Ensures-ok (λ p. LinksLive p.0) _ p (apply_mutation-LinksLive m generation g h) e)

-- The tables that a sync does not write.
pub record Files : Type 0 where
  pub volumes : List VolumeRow
  pub objects : List ObjectRow
  pub links : List LinkRow
  pub sessions : List SessionRow
  pub consumers : List ProjectorCheckpoint

abbrev pub files : FilesystemGraph → Files
files g = record {
  volumes = g.volumes;
  objects = g.objects;
  links = g.links;
  sessions = g.sessions;
  consumers = g.consumers;
}

abbrev Same : FilesystemGraph → FilesystemGraph × ℕ → Type 0
Same g p = files p.0 ≡ files g

append_outbox-files :
    (id : DocumentId) (version : ℕ) (mutation : IndexMutation) (g : FilesystemGraph)
    → Ensures (λ g'. files g' ≡ files g) (append_outbox id version mutation g)
unfolding append_outbox
append_outbox-files id version mutation g =
    bind-Ensures _ (reject_if (leb i64_max g.sequence) _) _ λ u r. refl

delete_in_mode-files :
    (mode : ProjectionOutboxMode) (id : DocumentId) (version : ℕ) (g : FilesystemGraph)
    → Ensures (Same g) (delete_in_mode mode id version g)
delete_in_mode-files durable id version g =
    bind-Ensures (Same g) (append_outbox id version (IndexMutation.delete id version) g) _ λ g' e.
      Ensures-ok _ _ g' (append_outbox-files id version (IndexMutation.delete id version) g) e
delete_in_mode-files rebuildable id version g = refl

delete-files :
    (id : DocumentId) (version : ℕ) (mode : ProjectionOutboxMode) (g : FilesystemGraph)
    → Ensures (Same g) (delete_catalog_projection id version mode g)
unfolding delete_catalog_projection
delete-files id version mode g = elim (Bool-cases (exists (of_document id) g.documents)) [
  | inl there ↦ rw there (delete_in_mode-files mode id version g)
  | inr absent ↦ rw absent refl
]

module _ (encoding : Encoding) where
  append_in_mode-files :
      (mode : ProjectionOutboxMode) (link : LinkRow) (generation : ℕ) (document : CatalogDocument)
      (g : FilesystemGraph)
      → Ensures (Same g) (append_in_mode encoding mode link generation document g)
  append_in_mode-files durable link generation document g =
      bind-Ensures (Same g)
        (append_outbox (document_id_for_link link.file_link_id) generation
          (IndexMutation.upsert document) g)
        _
        λ g' e.
          Ensures-ok _ _ g'
            (append_outbox-files (document_id_for_link link.file_link_id) generation
              (IndexMutation.upsert document) g)
            e
  append_in_mode-files rebuildable link generation document g = refl

  sync_built-files :
      (mode : ProjectionOutboxMode) (link : LinkRow) (generation : ℕ) (g : FilesystemGraph)
      (built : GraphResult CatalogDocument)
      → Ensures (Same g) (sync_built encoding link generation mode g built)
  unfolding sync_document write_document
  sync_built-files mode link generation g (ok document) =
      bind-Ensures (Same g)
        (unchanged encoding (content_of document)
          (find (of_document (document_id_for_link link.file_link_id)) g.documents))
        _
        λ same s. elim (Bool-cases same) [
          | inl kept ↦ rw kept refl
          | inr changed ↦ rw changed (
              append_in_mode-files mode link generation document
                (write_document encoding link generation document g))
        ]
  sync_built-files mode link generation g (err error) = elim (Bool-cases (unresolvable error)) [
    | inl gone ↦ rw gone (delete-files (document_id_for_link link.file_link_id) generation mode g)
    | inr failed ↦ rw failed tt
  ]

  sync_link-files :
      (id : FileLinkId) (generation : ℕ) (mode : ProjectionOutboxMode) (g : FilesystemGraph)
      (link : Option LinkRow)
      → Ensures (Same g) (sync_link encoding id generation mode g link)
  sync_link-files id generation mode g none =
      delete-files (document_id_for_link id) generation mode g
  sync_link-files id generation mode g (some link) =
      sync_built-files mode link generation g (build_catalog_document encoding g link generation)

  -- A sync writes documents and the outbox, and no other table.
  pub sync-files :
      (id : FileLinkId) (generation : ℕ) (mode : ProjectionOutboxMode) (g : FilesystemGraph)
      → Ensures (λ p. files p.0 ≡ files g) (sync_catalog_projection encoding id generation mode g)
  unfolding sync_catalog_projection
  sync-files id generation mode g = sync_link-files id generation mode g (find (of_link id) g.links)

  pub sync_all-files :
      (ids : List FileLinkId) (generation : ℕ) (mode : ProjectionOutboxMode) (g : FilesystemGraph)
      (n : ℕ)
      → Ensures (λ p. files p.0 ≡ files g) (sync_all encoding ids generation mode g n)
  unfolding sync_all
  sync_all-files [] generation mode g n = refl
  sync_all-files (id ∷ ids) generation mode g n =
      bind-Ensures (Same g) (sync_catalog_projection encoding id generation mode g) _ λ p e.
        let first = Ensures-ok (Same g) _ p (sync-files id generation mode g) e in
        Ensures-map (sync_all encoding ids generation mode p.0 (n + p.1)) (λ q later. later ∙ first)
          (sync_all-files ids generation mode p.0 (n + p.1))

  close_batch-LinksLive :
      (batch : GraphMutationBatch) (generation : ℕ) (g : FilesystemGraph) (summary : ApplySummary)
      → LinksLive g
      → Ensures (λ p. LinksLive p.0) (close_batch batch generation g summary)
  unfolding close_batch set_generation save_checkpoint
  close_batch-LinksLive batch generation g summary h =
      bind-Ensures _
        (require_single_update (length (select (of_volume batch.volume_id) g.volumes)) _) _ λ u w. h

  pub run_batch-LinksLive :
      (batch : GraphMutationBatch) (mode : ProjectionOutboxMode) (g : FilesystemGraph)
      → LinksLive g
      → Ensures (λ p. LinksLive p.0) (run_batch encoding batch mode g)
  unfolding run_batch
  run_batch-LinksLive batch mode g h =
      let P = λ (p : FilesystemGraph × ApplySummary). LinksLive p.0 in
      bind-Ensures P (validate batch) _ λ u v.
        bind-Ensures P (reject_if (refuses mode g) _) _ λ u' r.
          bind-Ensures P (checked_add_one (generation_of batch.volume_id g.volumes) _) _
            λ generation c.
              bind-Ensures P (apply_mutations batch.mutations generation g 0 []) _ λ p e.
                let live =
                  Ensures-ok _ _ p (apply_mutations-LinksLive batch.mutations generation g 0 [] h)
                    e in
                bind-Ensures P (sync_all encoding p.2 generation mode p.0 0) _ λ q s.
                  let same =
                    Ensures-ok (Same p.0) _ q (sync_all-files p.2 generation mode p.0 0) s in
                  close_batch-LinksLive batch generation q.0 _
                    (subst (λ (f : Files). AllLive f.objects f.links) (sym same) live)

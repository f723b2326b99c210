-- ===== src/Graph/Projection/Replay.antt =====
-- An index that has applied the outbox follows the desired catalog
-- (crates/filesystem-graph/src/store.rs).
use local_search.Prelude.{
  ℕ, ◌≡◌, refl, sym, subst, Bool, true, false, Option, none, some, List, [], ◌∷◌, ◌++◌, length, leb,
  ◌==◌, if◌then◌else◌, ok, err, reject_if, Ensures, bind-Ensures, Ensures-ok, arith, Bool-cases,
  inl, inr, append-nil,
}
use local_search.Core.Ids.{FileLinkId, DocumentId}
use local_search.Core.Models.{CatalogDocument, IndexMutation}
use local_search.Graph.Rows.{exists, find, delete, update, upsert}
use local_search.Graph.Types.{GraphResult}
use local_search.Graph.Tables.{
  LinkRow, Payload, compact, legacy, DocumentRow, OutboxRow, FilesystemGraph, of_document, of_link,
  i64_max,
}
use local_search.Graph.Paths.{resolve_path_connection}
use local_search.Graph.Projection.{
  durable, CatalogContent, content_of, is_yes, content_equal, content_discrete, Encoding,
  append_outbox, delete_catalog_projection, document_row, unresolvable, load_object_metadata,
  volume_state, build_catalog_document, unchanged, write_document, sync_document, sync_built,
  sync_link, sync_catalog_projection, document_id_for_link,
}

-- An index holds a content for each document, at most.
abbrev pub Index : Type 0
Index = DocumentId → Option CatalogContent

abbrev pub apply_index : IndexMutation → Index → Index
apply_index (IndexMutation.upsert document) index id =
    if document.identity.document_id == id then some (content_of document) else index id
apply_index (IndexMutation.delete document_id version) index id =
    if document_id == id then none else index id

abbrev pub replay : List OutboxRow → Index → Index
replay [] index = index
replay (row ∷ rows) index = replay rows (apply_index row.mutation index)

is_yes_sound : {P : Type 0} (d : Dec P) → is_yes d ≡ true → P
is_yes_sound (yes p) h = p
is_yes_sound (no p) h = cc

content_equal-eq : (a b : CatalogContent) → content_equal a b ≡ true → a ≡ b
unfolding content_equal
content_equal-eq a b h = is_yes_sound (content_discrete a b) h

find-delete :
    (id k : DocumentId) (rows : List DocumentRow)
    → find (of_document k) (delete (of_document id) rows)
      ≡ (if id == k then none else find (of_document k) rows)
find-delete id k [] = ground arith
find-delete id k (r ∷ rs) = ground (arith, find-delete id k rs)

find-update :
    (row : DocumentRow) (k : DocumentId) (rows : List DocumentRow)
    → find (of_document k) (update (of_document row.document_id) (λ old. row) rows) ≡ (
        if row.document_id == k
        then if exists (of_document row.document_id) rows then some row else none
        else find (of_document k) rows)
find-update row k [] = ground arith
find-update row k (r ∷ rs) = ground (arith, find-update row k rs)

find-append :
    (row : DocumentRow) (k : DocumentId) (rows : List DocumentRow)
    → exists (of_document row.document_id) rows ≡ false
    → find (of_document k) (rows ++ row ∷ [])
      ≡ (if row.document_id == k then some row else find (of_document k) rows)
find-append row k [] h = ground arith
find-append row k (r ∷ rs) h = ground (arith, h, find-append row k rs)

find-upsert :
    (row : DocumentRow) (k : DocumentId) (rows : List DocumentRow)
    → find (of_document k) (upsert (of_document row.document_id) (λ old. row) row rows)
      ≡ (if row.document_id == k then some row else find (of_document k) rows)
find-upsert row k rows = ground (arith, find-update row k rows, find-append row k rows)

find-none :
    (k : DocumentId) (rows : List DocumentRow)
    → exists (of_document k) rows ≡ false
    → find (of_document k) rows ≡ none
find-none k [] h = refl
find-none k (r ∷ rs) h = ground (arith, h, find-none k rs)

module _ (encoding : Encoding) where
  -- A stored payload is that of a content with this fingerprint.
  abbrev pub IsPayloadOf : Payload → CatalogContent → Type 0
  IsPayloadOf (compact path fingerprint) content = fingerprint ≡ encoding.fingerprint content
  IsPayloadOf (legacy none) content = Unit
  IsPayloadOf (legacy (some document)) content =
      encoding.fingerprint (content_of document) ≡ encoding.fingerprint content

  abbrev pub Agree : Option DocumentRow → Option CatalogContent → Type 0
  Agree none none = Unit
  Agree (some row) (some content) = IsPayloadOf row.payload content
  Agree _ _ = ⊥

  -- The index has the documents that the graph desires, with the contents of their fingerprints.
  abbrev pub Tracks : FilesystemGraph → Index → Type 0
  Tracks g index = (id : DocumentId) → Agree (find (of_document id) g.documents) (index id)

  -- What an operation appends to the outbox, and that the index follows by it.
  abbrev pub Follows : FilesystemGraph → Index → FilesystemGraph × ℕ → Type 0
  Follows g index (g', n) =
      (rows : List OutboxRow) × (g'.outbox ≡ g.outbox ++ rows)
      × (n ≡ length rows)
      × Tracks g' (replay rows index)

  Follows-none : (g : FilesystemGraph) (index : Index) → Tracks g index → Follows g index (g, 0)
  Follows-none g index t = ([], sym (append-nil g.outbox), refl, t)

  append_outbox-one :
      (id : DocumentId) (version : ℕ) (mutation : IndexMutation) (g : FilesystemGraph)
      → Ensures
          (λ g'.
            (row : OutboxRow) × (row.mutation ≡ mutation)
            × (g'.outbox ≡ g.outbox ++ row ∷ [])
            × (g'.documents ≡ g.documents))
          (append_outbox id version mutation g)
  unfolding append_outbox
  append_outbox-one id version mutation g =
      bind-Ensures _ (reject_if (leb i64_max g.sequence) _) _ λ u r. (_, refl, refl, refl)

  Agree-if :
      (b : Bool) (row row' : Option DocumentRow) (content content' : Option CatalogContent)
      → Agree row' content'
      → Agree row content
      → Agree (if b then row' else row) (if b then content' else content)
  Agree-if true row row' content content' new old = new
  Agree-if false row row' content content' new old = old

  delete-Follows :
      (id : DocumentId) (version : ℕ) (g : FilesystemGraph) (index : Index)
      → Tracks g index
      → Ensures (Follows g index) (delete_catalog_projection id version durable g)
  unfolding delete_catalog_projection
  delete-Follows id version g index t = elim (Bool-cases (exists (of_document id) g.documents)) [
    | inl there ↦ rw there (
        bind-Ensures (Follows g index)
          (append_outbox id version (IndexMutation.delete id version) g) _
          λ appended a.
            let (row, m, o, d) =
              Ensures-ok _ _ appended
                (append_outbox-one id version (IndexMutation.delete id version) g) a in
            (
              row ∷ [],
              o,
              refl,
              λ k.
                  rw (d, m, find-delete id k g.documents)
                    (Agree-if (id == k) (find (of_document k) g.documents) none (index k) none tt
                      (t k)),
            ))
    | inr absent ↦ rw absent (Follows-none g index t)
  ]

  write_document-Tracks :
      (link : LinkRow) (generation : ℕ) (document : CatalogDocument) (g : FilesystemGraph)
      (index : Index)
      → document.identity.document_id ≡ document_id_for_link link.file_link_id
      → Tracks g index
      → Tracks
          (write_document encoding link generation document g)
          (apply_index (IndexMutation.upsert document) index)
  unfolding write_document
  write_document-Tracks link generation document g index e t = λ k.
      let row =
        document_row link generation document.resolved_path
          (encoding.fingerprint (content_of document)) in
      rw (find-upsert row k g.documents) (
        subst
          (λ i.
            Agree (if i == k then some row else find (of_document k) g.documents)
              (apply_index (IndexMutation.upsert document) index k))
          e
          (Agree-if (document.identity.document_id == k) (find (of_document k) g.documents)
            (some row) (index k) (some (content_of document)) refl (t k)))

  sync_document-Follows :
      (link : LinkRow) (generation : ℕ) (document : CatalogDocument) (g : FilesystemGraph)
      (index : Index)
      → document.identity.document_id ≡ document_id_for_link link.file_link_id
      → Tracks g index
      → Ensures (Follows g index) (sync_document encoding link generation durable document g)
  unfolding sync_document write_document
  sync_document-Follows link generation document g index e t =
      let written = write_document encoding link generation document g in
      bind-Ensures (Follows g index)
        (unchanged encoding (content_of document)
          (find (of_document (document_id_for_link link.file_link_id)) g.documents))
        _
        λ same s. elim (Bool-cases same) [
          | inl kept ↦ rw kept (Follows-none g index t)
          | inr changed ↦ rw changed (
              bind-Ensures (Follows g index)
                (append_outbox (document_id_for_link link.file_link_id) generation
                  (IndexMutation.upsert document) written)
                _
                λ appended a.
                  let (row, m, o, d) =
                    Ensures-ok _ _ appended
                      (append_outbox-one (document_id_for_link link.file_link_id) generation
                        (IndexMutation.upsert document) written)
                      a in
                  (
                    row ∷ [],
                    o,
                    refl,
                    λ k. rw (d, m) (write_document-Tracks link generation document g index e t k),
                  ))
        ]

  build-document_id :
      (g : FilesystemGraph) (link : LinkRow) (version : ℕ)
      → Ensures
          (λ d. d.identity.document_id ≡ document_id_for_link link.file_link_id)
          (build_catalog_document encoding g link version)
  unfolding build_catalog_document
  build-document_id g link version =
      bind-Ensures _ (load_object_metadata g link.object_key) _ λ metadata m.
        bind-Ensures _ (volume_state g link.object_key.volume_id) _ λ state s.
          bind-Ensures _ (resolve_path_connection g link.file_link_id 512) _ λ path p. refl

  sync_built-Follows :
      (link : LinkRow) (generation : ℕ) (g : FilesystemGraph) (index : Index)
      (built : GraphResult CatalogDocument)
      → Ensures (λ d. d.identity.document_id ≡ document_id_for_link link.file_link_id) built
      → Tracks g index
      → Ensures (Follows g index) (sync_built encoding link generation durable g built)
  sync_built-Follows link generation g index (ok document) e t =
      sync_document-Follows link generation document g index e t
  sync_built-Follows link generation g index (err error) e t =
      elim (Bool-cases (unresolvable error)) [
        | inl gone ↦
            rw gone (delete-Follows (document_id_for_link link.file_link_id) generation g index t)
        | inr failed ↦ rw failed tt
      ]

  sync_link-Follows :
      (id : FileLinkId) (generation : ℕ) (g : FilesystemGraph) (index : Index)
      (link : Option LinkRow)
      → Tracks g index
      → Ensures (Follows g index) (sync_link encoding id generation durable g link)
  sync_link-Follows id generation g index none t =
      delete-Follows (document_id_for_link id) generation g index t
  sync_link-Follows id generation g index (some link) t =
      sync_built-Follows link generation g index _ (build-document_id g link generation) t

  -- Whatever the link, the index follows the desired catalog by the rows that its sync appends.
  pub sync-Follows :
      (id : FileLinkId) (generation : ℕ) (g : FilesystemGraph) (index : Index)
      → Tracks g index
      → Ensures (Follows g index) (sync_catalog_projection encoding id generation durable g)
  unfolding sync_catalog_projection
  sync-Follows id generation g index t =
      sync_link-Follows id generation g index (find (of_link id) g.links) t

-- ===== src/Catalog/Replay.antt =====
-- Replaying the outbox on an index (crates/catalog-index/src/index.rs over
-- crates/filesystem-graph/src/store.rs): the writer does it, and doing it again changes nothing.
use local_search.Prelude.{
  take, drop, take-append-drop, ℕ, ◌≡◌, ◌∙◌, refl, sym, ap, Option, none, some, List, [], ◌∷◌, map,
  ◌==◌, arith, Bool-cases, inl, inr, if◌then◌else◌, reject_if, Ensures, bind-Ensures, Ensures-ok,
  Ensures-map,
}
use local_search.Core.Ids.{DocumentId}
use local_search.Core.Models.{CatalogDocument, IndexMutation}
use local_search.Graph.Tables.{OutboxRow}
use local_search.Graph.Projection.{CatalogContent, content_of}
use local_search.Graph.Projection.Replay.{Index, apply_index, replay}
use local_search.Graph.Batch.Follows.{replay-append}
use local_search.Graph.Outbox.{sequenced}
use local_search.Catalog.Index.{Tantivy, Lawful, Attempt, apply, apply_all, poisoned}

-- Two indexes that hold the same content of every document.
abbrev pub Same : Index → Index → Type 0
Same i j = (id : DocumentId) → i id ≡ j id

-- What the rows say of a document, if anything.
abbrev said : IndexMutation → DocumentId → Option (Option CatalogContent)
said (IndexMutation.upsert document) id =
    if document.identity.document_id == id then some (some (content_of document)) else none
said (IndexMutation.delete document_id version) id = if document_id == id then some none else none

abbrev or_else :
    Option (Option CatalogContent) → Option (Option CatalogContent) → Option (Option CatalogContent)
or_else (some v) o = some v
or_else none o = o

abbrev effect : List OutboxRow → DocumentId → Option (Option CatalogContent)
effect [] id = none
effect (r ∷ rs) id = or_else (effect rs id) (said r.mutation id)

abbrev overwrite : Option (Option CatalogContent) → Option CatalogContent → Option CatalogContent
overwrite (some v) old = v
overwrite none old = old

apply_index-said :
    (m : IndexMutation) (i : Index) (id : DocumentId)
    → apply_index m i id ≡ overwrite (said m id) (i id)
apply_index-said (IndexMutation.upsert document) i id = ground arith
apply_index-said (IndexMutation.delete document_id version) i id = ground arith

overwrite-or_else :
    (a b : Option (Option CatalogContent)) (old : Option CatalogContent)
    → overwrite a (overwrite b old) ≡ overwrite (or_else a b) old
overwrite-or_else (some v) b old = refl
overwrite-or_else none b old = refl

replay-effect :
    (rows : List OutboxRow) (i : Index) (id : DocumentId)
    → replay rows i id ≡ overwrite (effect rows id) (i id)
replay-effect [] i id = refl
replay-effect (r ∷ rs) i id =
    replay-effect rs (apply_index r.mutation i) id
    ∙ ap (overwrite (effect rs id)) (apply_index-said r.mutation i id)
    ∙ overwrite-or_else (effect rs id) (said r.mutation id) (i id)

pub replay-Same :
    (rows : List OutboxRow) (i j : Index) → Same i j → Same (replay rows i) (replay rows j)
replay-Same rows i j h id =
    replay-effect rows i id ∙ ap (overwrite (effect rows id)) (h id) ∙ sym (replay-effect rows j id)

overwrite_twice :
    (o : Option (Option CatalogContent)) (old : Option CatalogContent)
    → overwrite o (overwrite o old) ≡ overwrite o old
overwrite_twice (some v) old = refl
overwrite_twice none old = refl

-- Rows that are replayed a second time change nothing.
pub replay_twice :
    (rows : List OutboxRow) (i : Index) → Same (replay rows (replay rows i)) (replay rows i)
replay_twice rows i id =
    replay-effect rows (replay rows i) id
    ∙ ap (overwrite (effect rows id)) (replay-effect rows i id)
    ∙ overwrite_twice (effect rows id) (i id)
    ∙ sym (replay-effect rows i id)

abbrev content : Option CatalogDocument → Option CatalogContent
content none = none
content (some document) = some (content_of document)

replay-split :
    (k : ℕ) (rows : List OutboxRow) (i : Index)
    → replay rows i ≡ replay (drop k rows) (replay (take k rows) i)
replay-split k rows i =
    ap (λ rs. replay rs i) (sym (take-append-drop k rows))
    ∙ replay-append (take k rows) (drop k rows) i

-- What is left of the rows takes an index that has the first ones to where all of them take it.
pub replay_rest :
    (k : ℕ) (rows : List OutboxRow) (i j : Index)
    → Same j (replay (take k rows) i)
    → Same (replay (drop k rows) j) (replay rows i)
replay_rest k rows i j h id =
    replay-Same (drop k rows) j (replay (take k rows) i) h id
    ∙ ap (λ (m : Index). m id) (sym (replay-split k rows i))

-- All of the rows take it there as well.
pub replay_again :
    (k : ℕ) (rows : List OutboxRow) (i j : Index)
    → Same j (replay (take k rows) i)
    → Same (replay rows j) (replay rows i)
replay_again k rows i j h id =
    replay-Same rows j (replay (take k rows) i) h id
    ∙ ap (λ (m : Index). m id) (replay-split k rows (replay (take k rows) i))
    ∙ replay_rest k rows i (replay (take k rows) (replay (take k rows) i))
        (replay_twice (take k rows) i) id

-- The contents that the documents of a generation have.
abbrev pub view : (t : Tantivy) → t.Store → Index
view t s id = content (t.lookup id s)

module _ (t : Tantivy) (laws : Lawful t) (a : Attempt) where
  deleted-none : (k : DocumentId) (s : t.Store) → t.lookup k (t.delete_term k s) ≡ none
  deleted-none k s = laws.lookup_deleted k k s ∙ ground arith

  replaced-view :
      (document : CatalogDocument) (s : t.Store)
      → let k = document.identity.document_id in
        Same
          (view t (t.add_document document (t.delete_term k s)))
          (apply_index (IndexMutation.upsert document) (view t s))
  replaced-view document s id =
      let k = document.identity.document_id in
      let found = laws.lookup_added document id (t.delete_term k s) (deleted-none k s) in
      elim (Bool-cases (k == id)) [
        | inl e ↦ ap content found ∙ rw e refl
        | inr e ↦ ap content found ∙ rw e (ap content (laws.lookup_deleted k id s) ∙ rw e refl)
      ]

  apply-view :
      (m : IndexMutation) (s : t.Store)
      → Ensures (λ s'. Same (view t s') (apply_index m (view t s))) (apply t a m s)
  unfolding apply
  apply-view (IndexMutation.upsert document) s =
      let P = λ (s' : t.Store).
        Same (view t s') (apply_index (IndexMutation.upsert document) (view t s)) in
      bind-Ensures P (reject_if (poisoned document) _) _
        λ u e. bind-Ensures P (a.takes document) _ λ v f. replaced-view document s
  apply-view (IndexMutation.delete document_id version) s = λ id.
      elim (Bool-cases (document_id == id)) [
        | inl e ↦ ap content (laws.lookup_deleted document_id id s) ∙ rw e refl
        | inr e ↦ ap content (laws.lookup_deleted document_id id s) ∙ rw e refl
      ]

  -- The writer does to a generation what the rows say.
  pub apply_all-view :
      (rows : List OutboxRow) (s : t.Store)
      → Ensures
          (λ s'. Same (view t s') (replay rows (view t s)))
          (apply_all t a (map sequenced rows) s)
  unfolding apply_all
  apply_all-view [] s = λ id. refl
  apply_all-view (r ∷ rs) s =
      let P = λ (s' : t.Store). Same (view t s') (replay (r ∷ rs) (view t s)) in
      bind-Ensures P (apply t a r.mutation s) _ λ s' e.
        let here =
          Ensures-ok (λ s'. Same (view t s') (apply_index r.mutation (view t s))) _ s'
            (apply-view r.mutation s) e in
        let on : (s'' : t.Store) → Same (view t s'') (replay rs (view t s')) → P s'' = λ s'' h id.
          h id ∙ replay-Same rs (view t s') (apply_index r.mutation (view t s)) here id in
        Ensures-map (apply_all t a (map sequenced rs) s') on (apply_all-view rs s')

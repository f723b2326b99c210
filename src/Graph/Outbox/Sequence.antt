-- ===== src/Graph/Outbox/Sequence.antt =====
-- The sequences of the outbox have no gap (crates/filesystem-graph/src/store.rs).
use local_search.Prelude.{
  ℕ, zero, suc, ◌+◌, ◌≤◌, ◌≡◌, refl, subst, Option, none, some, List, [], ◌∷◌, ◌++◌, map, take, leb,
  ok, err, reject_if, Ensures, bind-Ensures, Ensures-ok, arith, Bool-cases, inl, inr,
}
use local_search.Core.Ids.{FileLinkId, DocumentId}
use local_search.Core.Models.{CatalogDocument, IndexMutation}
use local_search.Core.Models.Batches.{Consecutive}
use local_search.Graph.Rows.{select, exists, find, delete}
use local_search.Graph.Types.{GraphResult}
use local_search.Graph.Tables.{LinkRow, OutboxRow, FilesystemGraph, i64_max, of_link, of_document}
use local_search.Graph.Projection.{
  ProjectionOutboxMode, durable, rebuildable, Encoding, content_of, document_id_for_link,
  unresolvable, append_outbox, delete_in_mode, delete_catalog_projection, build_catalog_document,
  unchanged, write_document, append_in_mode, sync_document, sync_built, sync_link,
  sync_catalog_projection,
}
use local_search.Graph.Batch.{sync_all}
use local_search.Graph.Outbox.{beyond, sequenced, through, delete_first}

-- The sequences are `n + 1`, `n + 2`, … up to `last`.
abbrev pub Runs : ℕ → List OutboxRow → ℕ → Type 0
Runs n [] last = n ≡ last
Runs n (r ∷ rs) last = (r.sequence ≡ n + 1) × Runs (n + 1) rs last

abbrev pub SomeRun : List OutboxRow → ℕ → Type 0
SomeRun rows last = (n : ℕ) × Runs n rows last

-- The outbox ends with the last sequence that was given, and has no gap before it.
abbrev pub Numbered : FilesystemGraph → Type 0
Numbered g = SomeRun g.outbox g.sequence × (g.sequence ≤ i64_max)

Runs-append :
    (n last : ℕ) (rows : List OutboxRow) (row : OutboxRow)
    → row.sequence ≡ last + 1
    → Runs n rows last
    → Runs n (rows ++ row ∷ []) (last + 1)
Runs-append n last [] row s h = ground (arith, s, h)
Runs-append n last (r ∷ rs) row s (here, rest) = (here, Runs-append (n + 1) last rs row s rest)

Runs-keep :
    (n m last : ℕ) (rows : List OutboxRow)
    → m ≤ n
    → Runs n rows last
    → Runs n (delete (through m) rows) last
Runs-keep n m last [] l h = h
Runs-keep n m last (r ∷ rs) l (here, rest) = ground (arith, here, l, Runs-keep (n + 1) m last rs)

pub SomeRun-delete :
    (n m last : ℕ) (rows : List OutboxRow)
    → Runs n rows last
    → SomeRun (delete (through m) rows) last
SomeRun-delete n m last [] h = (n, h)
SomeRun-delete n m last (r ∷ rs) (here, rest) = elim (Bool-cases (through m r)) [
  | inl e ↦ rw e (SomeRun-delete (n + 1) m last rs rest)
  | inr e ↦
      let above : m ≤ n + 1 = ground (arith, e, here) in
      rw e (n, (here, Runs-keep (n + 1) m last rs above rest))
]

select-beyond : (m : ℕ) (rows : List OutboxRow) → delete (through m) rows ≡ select (beyond m) rows
select-beyond m [] = refl
select-beyond m (r ∷ rs) = ground (arith, select-beyond m rs)

pub SomeRun-beyond :
    (n m last : ℕ) (rows : List OutboxRow)
    → Runs n rows last
    → SomeRun (select (beyond m) rows) last
SomeRun-beyond n m last rows h =
    subst (λ (rs : List OutboxRow). SomeRun rs last) (select-beyond m rows)
      (SomeRun-delete n m last rows h)

Runs-keep_first :
    (k n m last : ℕ) (rows : List OutboxRow)
    → m ≤ n
    → Runs n rows last
    → Runs n (delete_first k (through m) rows) last
unfolding delete_first
Runs-keep_first zero n m last [] l h = h
Runs-keep_first (suc k) n m last [] l h = h
Runs-keep_first zero n m last (r ∷ rs) l h = h
Runs-keep_first (suc k) n m last (r ∷ rs) l (here, rest) =
    ground (arith, here, l, Runs-keep_first (suc k) (n + 1) m last rs)

Runs-le : (n last : ℕ) (rows : List OutboxRow) → Runs n rows last → n ≤ last
Runs-le n last [] h = omega (arith, h)
Runs-le n last (r ∷ rs) (here, rest) = omega (arith, Runs-le (n + 1) last rs rest)

pub SomeRun-delete_first :
    (k n m last : ℕ) (rows : List OutboxRow)
    → Runs n rows last
    → SomeRun (delete_first k (through m) rows) last
unfolding delete_first
SomeRun-delete_first zero n m last [] h = (n, h)
SomeRun-delete_first (suc k) n m last [] h = (n, h)
SomeRun-delete_first zero n m last (r ∷ rs) h = (n, h)
SomeRun-delete_first (suc k) n m last (r ∷ rs) (here, rest) = elim (Bool-cases (through m r)) [
  | inl e ↦ rw e (SomeRun-delete_first k (n + 1) m last rs rest)
  | inr e ↦
      let above : m ≤ n + 1 = ground (arith, e, here) in
      rw e (n, (here, Runs-keep_first (suc k) (n + 1) m last rs above rest))
]

pub Consecutive-take :
    (n last limit : ℕ) (rows : List OutboxRow)
    → last ≤ i64_max
    → Runs n rows last
    → Consecutive (n + 1) (map sequenced (take limit rows))
Consecutive-take n last zero [] l h = tt
Consecutive-take n last (suc limit) [] l h = tt
Consecutive-take n last zero (r ∷ rs) l h = tt
Consecutive-take n last (suc limit) (r ∷ rs) l (here, rest) = (
  here,
  ground (arith, l, Runs-le (n + 1) last rs rest),
  Consecutive-take (n + 1) last limit rs l rest,
)

append_outbox-Numbered :
    (id : DocumentId) (version : ℕ) (mutation : IndexMutation) (g : FilesystemGraph)
    → Numbered g
    → Ensures Numbered (append_outbox id version mutation g)
unfolding append_outbox
append_outbox-Numbered id version mutation g h =
    bind-Ensures Numbered (reject_if (leb i64_max g.sequence) _) _ λ u r.
      let row : OutboxRow = record {
        sequence = g.sequence + 1;
        document_id = id;
        document_version = version;
        mutation = mutation;
      } in
      let ((n, runs), bounded) = h in
      ((n, Runs-append n g.sequence g.outbox row refl runs), ground (arith, r))

delete_in_mode-Numbered :
    (mode : ProjectionOutboxMode) (id : DocumentId) (version : ℕ) (g : FilesystemGraph)
    → Numbered g
    → Ensures (λ p. Numbered p.0) (delete_in_mode mode id version g)
delete_in_mode-Numbered durable id version g h =
    bind-Ensures (λ p. Numbered p.0) (append_outbox id version (IndexMutation.delete id version) g)
      _
      λ g' e.
        Ensures-ok Numbered _ g'
          (append_outbox-Numbered id version (IndexMutation.delete id version) g h) e
delete_in_mode-Numbered rebuildable id version g h = h

delete-Numbered :
    (id : DocumentId) (version : ℕ) (mode : ProjectionOutboxMode) (g : FilesystemGraph)
    → Numbered g
    → Ensures (λ p. Numbered p.0) (delete_catalog_projection id version mode g)
unfolding delete_catalog_projection
delete-Numbered id version mode g h = elim (Bool-cases (exists (of_document id) g.documents)) [
  | inl there ↦ rw there (delete_in_mode-Numbered mode id version g h)
  | inr absent ↦ rw absent h
]

module _ (encoding : Encoding) where
  append_in_mode-Numbered :
      (mode : ProjectionOutboxMode) (link : LinkRow) (generation : ℕ) (document : CatalogDocument)
      (g : FilesystemGraph)
      → Numbered g
      → Ensures (λ p. Numbered p.0) (append_in_mode encoding mode link generation document g)
  append_in_mode-Numbered durable link generation document g h =
      bind-Ensures (λ p. Numbered p.0)
        (append_outbox (document_id_for_link link.file_link_id) generation
          (IndexMutation.upsert document) g)
        _
        λ g' e.
          Ensures-ok Numbered _ g'
            (append_outbox-Numbered (document_id_for_link link.file_link_id) generation
              (IndexMutation.upsert document) g h)
            e
  append_in_mode-Numbered rebuildable link generation document g h = h

  sync_built-Numbered :
      (mode : ProjectionOutboxMode) (link : LinkRow) (generation : ℕ) (g : FilesystemGraph)
      (built : GraphResult CatalogDocument)
      → Numbered g
      → Ensures (λ p. Numbered p.0) (sync_built encoding link generation mode g built)
  unfolding sync_document write_document
  sync_built-Numbered mode link generation g (ok document) h =
      bind-Ensures (λ p. Numbered p.0)
        (unchanged encoding (content_of document)
          (find (of_document (document_id_for_link link.file_link_id)) g.documents))
        _
        λ same s. elim (Bool-cases same) [
          | inl kept ↦ rw kept h
          | inr changed ↦ rw changed (
              append_in_mode-Numbered mode link generation document
                (write_document encoding link generation document g) h)
        ]
  sync_built-Numbered mode link generation g (err error) h =
      elim (Bool-cases (unresolvable error)) [
        | inl gone ↦
            rw gone (delete-Numbered (document_id_for_link link.file_link_id) generation mode g h)
        | inr failed ↦ rw failed tt
      ]

  sync_link-Numbered :
      (id : FileLinkId) (generation : ℕ) (mode : ProjectionOutboxMode) (g : FilesystemGraph)
      (link : Option LinkRow)
      → Numbered g
      → Ensures (λ p. Numbered p.0) (sync_link encoding id generation mode g link)
  sync_link-Numbered id generation mode g none h =
      delete-Numbered (document_id_for_link id) generation mode g h
  sync_link-Numbered id generation mode g (some link) h =
      sync_built-Numbered mode link generation g (build_catalog_document encoding g link generation)
        h

  pub sync-Numbered :
      (id : FileLinkId) (generation : ℕ) (mode : ProjectionOutboxMode) (g : FilesystemGraph)
      → Numbered g
      → Ensures (λ p. Numbered p.0) (sync_catalog_projection encoding id generation mode g)
  unfolding sync_catalog_projection
  sync-Numbered id generation mode g h =
      sync_link-Numbered id generation mode g (find (of_link id) g.links) h

  pub sync_all-Numbered :
      (ids : List FileLinkId) (generation : ℕ) (mode : ProjectionOutboxMode) (g : FilesystemGraph)
      (n : ℕ)
      → Numbered g
      → Ensures (λ p. Numbered p.0) (sync_all encoding ids generation mode g n)
  unfolding sync_all
  sync_all-Numbered [] generation mode g n h = h
  sync_all-Numbered (id ∷ ids) generation mode g n h =
      bind-Ensures (λ p. Numbered p.0) (sync_catalog_projection encoding id generation mode g) _
        λ p e.
          sync_all-Numbered ids generation mode p.0 (n + p.1)
            (Ensures-ok (λ p. Numbered p.0) _ p (sync-Numbered id generation mode g h) e)

-- ===== src/Catalog/Consistency.antt =====
-- A run of the projection worker on its active generation
-- (crates/catalog-index/src/projector.rs over crates/filesystem-graph/src/store.rs).
use local_search.Prelude.{
  ok_of-ok_or, ℕ, zero, suc, ◌+◌, ◌≤◌, ◌≡◌, ◌∙◌, refl, sym, ap, subst, Option, none, some, List, [],
  ◌∷◌, map, take, drop, length, leb, ok, err, arith, Bool-cases, inl, inr, ok_or, Ensures,
  bind-Ensures, Ensures-ok, Ensures-map,
}
use local_search.Core.Models.{MutationBatch, last_sequence, validate}
use local_search.Graph.Rows.{select}
use local_search.Graph.Types.{ProjectorCheckpoint, GraphResult}
use local_search.Graph.Tables.{DocumentRow, OutboxRow, FilesystemGraph, i64_max}
use local_search.Graph.Projection.Replay.{Index, replay}
use local_search.Graph.Outbox.{
  beyond, sequenced, read_outbox, projector_checkpoint, acknowledge_projection,
}
use local_search.Graph.Outbox.Sequence.{Runs, Numbered, SomeRun-beyond}
use local_search.Catalog.Index.{Tantivy, Lawful, Attempt, CatalogIndexResult, apply_all}
use local_search.Catalog.Types.{
  ProjectionWorkerOptions, World, generation_at, publish, catalog_schema_id, from_graph,
  from_catalog, from_domain,
}
use local_search.Catalog.Worker.{Written, open_index, write_batch, write_if, prepare, acknowledge}
use local_search.Catalog.Replay.{Same, view, replay_rest, replay_again, apply_all-view}
use local_search.Catalog.Cursor.{
  HasPosition, Acknowledged, acknowledge-Acknowledged, last-Runs, taken-le, unread-acknowledged,
}

-- What a consumer at a position has still to read.
abbrev pub unread : ℕ → FilesystemGraph → List OutboxRow
unread after g = select (beyond after) g.outbox

from_catalog-Ensures :
    {A : Type 0} (P : A → Type 0) (r : CatalogIndexResult A)
    → Ensures P r
    → Ensures P (from_catalog r)
from_catalog-Ensures P (ok a) h = h
from_catalog-Ensures P (err error) h = tt

from_graph-Ensures :
    {A : Type 0} (P : A → Type 0) (r : GraphResult A) → Ensures P r → Ensures P (from_graph r)
from_graph-Ensures P (ok a) h = h
from_graph-Ensures P (err error) h = tt

module _ (t : Tantivy) (laws : Lawful t) where
  -- The generation is active, and it with the rows that are still to be read comes to the index.
  abbrev pub Towards : Index → List DocumentRow → ℕ → World t → Type 0
  Towards index documents generation w =
      (c : ProjectorCheckpoint) × (s : t.Store) × ((projector_checkpoint catalog_schema_id w.graph
          ≡ some c)
        × (c.index_generation ≡ generation)
        × (generation_at generation w.generations ≡ some s)
        × Numbered w.graph
        × (c.last_sequence ≤ w.graph.sequence)
        × (w.graph.documents ≡ documents)
        × Same (replay (unread c.last_sequence w.graph) (view t s)) index)

  open-same :
      (a : Attempt) (generation : ℕ) (generations : List (ℕ × t.Store)) (s : t.Store)
      → generation_at generation generations ≡ some s
      → Ensures (λ s'. s' ≡ s) (open_index t a generation generations)
  unfolding open_index
  open-same a generation generations s h =
      bind-Ensures (λ (s' : t.Store). s' ≡ s) a.opens _ λ u e. rw h refl

  -- The writer has taken the rows.
  abbrev pub Takes : List OutboxRow → t.Store → Written t → Type 0
  Takes rows s written =
      (written.batch ≡ record { mutations = map sequenced rows })
      × Same (view t written.store) (replay rows (view t s))

  write_batch-Takes :
      (a : Attempt) (generation : ℕ) (generations : List (ℕ × t.Store)) (s : t.Store)
      (rows : List OutboxRow)
      → generation_at generation generations ≡ some s
      → Ensures
          (Takes rows s)
          (write_batch t a generation generations (record { mutations = map sequenced rows }))
  write_batch-Takes a generation generations s rows h =
      bind-Ensures (Takes rows s) (from_domain (validate _)) _ λ u e.
        bind-Ensures (Takes rows s) (from_catalog (open_index t a generation generations)) _ λ s' f.
          bind-Ensures (Takes rows s) (from_catalog a.acquires) _ λ v g.
            bind-Ensures (Takes rows s) (from_catalog (apply_all t a (map sequenced rows) s')) _
              λ s'' i.
                let opened : s' ≡ s =
                  Ensures-ok (λ o. o ≡ s) _ s'
                    (from_catalog-Ensures (λ o. o ≡ s) _ (open-same a generation generations s h))
                    f in
                let view_of = λ (o : t.Store). Same (view t o) (replay rows (view t s')) in
                let written : view_of s'' =
                  Ensures-ok view_of _ s''
                    (from_catalog-Ensures view_of _ (apply_all-view t laws a rows s')) i in
                (refl, subst (λ o. Same (view t s'') (replay rows (view t o))) opened written)

  -- A batch that was written: the first rows of those to be read.
  abbrev pub IsWritten : List OutboxRow → t.Store → Option (Written t) → Type 0
  IsWritten rows s none = Unit
  IsWritten rows s (some written) =
      (k : ℕ) × (r : OutboxRow) × (rs : List OutboxRow) × ((rows ≡ r ∷ rs)
        × Takes (take (suc k) (r ∷ rs)) s written)

  write-IsWritten :
      (a : Attempt) (generation : ℕ) (generations : List (ℕ × t.Store)) (s : t.Store) (limit : ℕ)
      (rows : List OutboxRow)
      → generation_at generation generations ≡ some s
      → Ensures
          (IsWritten rows s)
          (write_if t a generation generations (map sequenced (take limit rows)))
  write-IsWritten a generation generations s zero rows h = tt
  write-IsWritten a generation generations s (suc k) [] h = tt
  write-IsWritten a generation generations s (suc k) (r ∷ rs) h =
      let taken = take (suc k) (r ∷ rs) in
      bind-Ensures (IsWritten (r ∷ rs) s)
        (write_batch t a generation generations (record { mutations = map sequenced taken })) _
        λ written e.
          let takes =
            Ensures-ok (Takes taken s) _ written
              (write_batch-Takes a generation generations s taken h) e in
          (k, r, rs, (refl, takes))

  pub prepare-IsWritten :
      (options : ProjectionWorkerOptions) (a : Attempt) (generation : ℕ) (w : World t)
      (c : ProjectorCheckpoint) (s : t.Store)
      → projector_checkpoint catalog_schema_id w.graph ≡ some c
      → generation_at generation w.generations ≡ some s
      → Ensures (IsWritten (unread c.last_sequence w.graph) s) (prepare t options a generation w)
  unfolding prepare read_outbox
  prepare-IsWritten options a generation w c s known there =
      rw known (elim (Bool-cases (leb c.last_sequence i64_max)) [
        | inl e ↦ rw e (
            write-IsWritten a generation w.generations s options.maximum_batch_mutations
              (unread c.last_sequence w.graph) there)
        | inr e ↦ rw e tt
      ])

  generation_at-publish :
      (generation : ℕ) (s : t.Store) (w : World t)
      → generation_at generation (publish generation s w).generations ≡ some s
  generation_at-publish generation s w = ground arith

  -- A batch that is committed and not acknowledged is replayed without a change.
  pub committed-Towards :
      (index : Index) (documents : List DocumentRow) (generation : ℕ) (w : World t)
      (written : Written t) (h : Towards index documents generation w)
      → IsWritten (unread h.0.last_sequence w.graph) h.1 (some written)
      → Towards index documents generation (publish generation written.store w)
  committed-Towards index documents generation w written
        (c, s, (known, active, there, numbered, behind, kept, toward)) (k, r, rs, (e, takes)) =
      let rows = unread c.last_sequence w.graph in
      let done =
        subst (λ rows. Same (view t written.store) (replay (take (suc k) rows) (view t s))) (sym e)
          takes.1 in
      let again : Same (replay rows (view t written.store)) index =
        λ id. replay_again (suc k) rows (view t s) (view t written.store) done id ∙ toward id in
      (
        c,
        written.store,
        (
          known,
          active,
          generation_at-publish generation written.store w,
          numbered,
          behind,
          kept,
          again,
        ),
      )

  -- The consumer has acknowledged the last sequence of the batch.
  abbrev pub AcknowledgedLast : MutationBatch → ℕ → FilesystemGraph → FilesystemGraph → Type 0
  AcknowledgedLast batch generation g g' =
      (last : ℕ) × ((last_sequence batch ≡ some last)
        × Acknowledged catalog_schema_id last generation g g')

  pub acknowledge-Last :
      (a : Attempt) (generation : ℕ) (batch : MutationBatch) (g : FilesystemGraph)
      → Ensures (AcknowledgedLast batch generation g) (acknowledge t a generation batch g)
  unfolding acknowledge
  acknowledge-Last a generation batch g =
      let P = AcknowledgedLast batch generation g in
      bind-Ensures P (from_catalog a.merges) _ λ u e.
        bind-Ensures P (ok_or (last_sequence batch) _) _ λ last f.
          let on : (g' : FilesystemGraph)
              → Acknowledged catalog_schema_id last generation g g'
              → P g' =
            λ g' h. (last, (ok_of-ok_or (last_sequence batch) _ f, h)) in
          from_graph-Ensures P (acknowledge_projection catalog_schema_id last generation g)
            (Ensures-map _ on (acknowledge-Acknowledged catalog_schema_id last generation g))

  position :
      (last generation : ℕ) (o : Option ProjectorCheckpoint)
      → HasPosition last generation o
      → (c : ProjectorCheckpoint) × ((o ≡ some c)
          × (c.last_sequence ≡ last)
          × (c.index_generation ≡ generation))
  position last generation none h = absurd h
  position last generation (some c) (here, active) = (c, (refl, here, active))

  -- Where a written batch ends, and what is beyond it.
  ends-Runs :
      (last n k finish : ℕ) (written : Written t) (r : OutboxRow) (rs : List OutboxRow)
      → written.batch ≡ record { mutations = map sequenced (take (suc k) (r ∷ rs)) }
      → last_sequence written.batch ≡ some last
      → Runs n (r ∷ rs) finish
      → last ≡ n + length (take (suc k) (r ∷ rs))
  ends-Runs last n k finish written r rs batch l runs =
      let ends : some last ≡ some (n + length (take (suc k) (r ∷ rs))) =
        sym l ∙ ap last_sequence batch ∙ last-Runs k n finish r rs runs in
      cc ends

  rest-Runs :
      (after last n k : ℕ) (g g' : FilesystemGraph) (r : OutboxRow) (rs : List OutboxRow)
      → unread after g ≡ r ∷ rs
      → last ≡ n + length (take (suc k) (r ∷ rs))
      → Runs n (r ∷ rs) g.sequence
      → g'.outbox ≡ g.outbox
      → unread last g' ≡ drop (suc k) (r ∷ rs)
  rest-Runs after last n k g g' r rs e here runs outbox =
      ap (select (beyond last)) outbox
      ∙ ap (λ m. unread m g) here
      ∙ unread-acknowledged after g.sequence n k g.outbox r rs e runs

  -- A batch that is committed and acknowledged leaves the rows that were not in it.
  pub Acknowledged-Towards :
      (index : Index) (documents : List DocumentRow) (generation last : ℕ) (w : World t)
      (written : Written t) (g' : FilesystemGraph) (h : Towards index documents generation w)
      → IsWritten (unread h.0.last_sequence w.graph) h.1 (some written)
      → last_sequence written.batch ≡ some last
      → Acknowledged catalog_schema_id last generation w.graph g'
      → Towards index documents generation
          (record (publish generation written.store w) { graph = g' })
  Acknowledged-Towards index documents generation last w written g'
        (c, s, (known, active, there, ((m, runs), bounded), behind, kept, toward))
        (k, r, rs, (e, takes)) l (at, outbox, sequence, same) =
      let (c', (known', last', active')) = position last generation _ at in
      let (n, beyond_runs) =
        SomeRun-beyond m c.last_sequence w.graph.sequence w.graph.outbox runs in
      let left : Runs n (r ∷ rs) w.graph.sequence =
        subst (λ rows. Runs n rows w.graph.sequence) e beyond_runs in
      let ends = ends-Runs last n k w.graph.sequence written r rs takes.0 l left in
      let rest : unread c'.last_sequence g' ≡ drop (suc k) (r ∷ rs) =
        ap (λ i. unread i g') last'
        ∙ rest-Runs c.last_sequence last n k w.graph g' r rs e ends left outbox in
      let behind' : c'.last_sequence ≤ g'.sequence =
        omega (arith, last', ends, taken-le (suc k) n w.graph.sequence (r ∷ rs) left, sequence) in
      let numbered : Numbered g' = (
        (
          m,
          subst (λ rows. Runs m rows g'.sequence) (sym outbox)
              (subst (Runs m w.graph.outbox) (sym sequence) runs),
        ),
        subst (λ i. i ≤ i64_max) (sym sequence) bounded,
      ) in
      let on : Same (replay (unread c'.last_sequence g') (view t written.store)) index = λ id.
        ap (λ rows. replay rows (view t written.store) id) rest
        ∙ replay_rest (suc k) (r ∷ rs) (view t s) (view t written.store) takes.1 id
        ∙ ap (λ rows. replay rows (view t s) id) (sym e)
        ∙ toward id in
      (
        c',
        written.store,
        (
          known',
          active',
          generation_at-publish generation written.store w,
          numbered,
          behind',
          same ∙ kept,
          on,
        ),
      )

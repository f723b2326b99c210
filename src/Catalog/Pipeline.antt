-- ===== src/Catalog/Pipeline.antt =====
-- The pipeline from mutation batches over the outbox to the catalog's generation
-- (crates/filesystem-graph/src/store.rs and crates/catalog-index/src/projector.rs).
use local_search.Prelude.{
  ℕ, ◌+◌, ◌≤◌, ◌≡◌, ◌∙◌, ◌⊎◌, refl, sym, ap, subst, Bool, true, some, List, [], ◌∷◌, ◌++◌, length,
  length-append, ok, err, arith, inl, inr, Result, Ensures, Ensures-ok, Ensures-map,
}
use local_search.Graph.Rows.{select, find}
use local_search.Graph.Types.{GraphResult, GraphMutationBatch, ApplySummary}
use local_search.Graph.Tables.{DocumentRow, OutboxRow, FilesystemGraph, of_document}
use local_search.Graph.Projection.{durable, Encoding}
use local_search.Graph.Projection.Replay.{Index, replay, Agree, Tracks}
use local_search.Graph.Batch.{transact, run_batch, apply_batch, apply_batch_with_outbox_mode}
use local_search.Graph.Batch.Follows.{replay-append, run_batch-Follows}
use local_search.Graph.Batch.Grows.{Grows, run_batch-Grows}
use local_search.Graph.Outbox.{beyond, projector_checkpoint}
use local_search.Graph.Outbox.Sequence.{Runs, Numbered}
use local_search.Graph.Operations.Steps.{run_batch-Numbered}
use local_search.Catalog.Index.{Tantivy, Lawful}
use local_search.Catalog.Types.{
  ProjectionWorkerOptions, ProjectionRunSummary, Run, World, generation_at, catalog_schema_id,
}
use local_search.Catalog.Recovery.{run_worker}
use local_search.Catalog.Replay.{Same, view, replay-Same}
use local_search.Catalog.Cursor.{select-Runs, Runs-length}
use local_search.Catalog.Consistency.{unread, Towards}
use local_search.Catalog.Runs.{Reached, run_worker-Reached}

select-append :
    {A : Type 0} (p : A → Bool) (xs ys : List A) → select p (xs ++ ys) ≡ select p xs ++ select p ys
select-append p [] ys = refl
select-append p (x ∷ xs) ys = ground (arith, select-append p xs ys)

Runs-suffix :
    (m last : ℕ) (xs ys : List OutboxRow) → Runs m (xs ++ ys) last → Runs (m + length xs) ys last
Runs-suffix m last [] ys h = subst (λ n. Runs n ys last) (omega arith) h
Runs-suffix m last (x ∷ xs) ys (here, rest) =
    subst (λ n. Runs n ys last) (omega arith) (Runs-suffix (m + 1) last xs ys rest)

-- The rows that a growing outbox has gained are numbered on from the last sequence.
Runs-gained :
    (m : ℕ) (g g' : FilesystemGraph) (rows : List OutboxRow)
    → g'.outbox ≡ g.outbox ++ rows
    → g'.sequence + length g.outbox ≡ g.sequence + length g'.outbox
    → Runs m g'.outbox g'.sequence
    → Runs g.sequence rows g'.sequence
Runs-gained m g g' rows o counted runs =
    let all : Runs m (g.outbox ++ rows) g'.sequence =
      subst (λ out. Runs m out g'.sequence) o runs in
    let size : length g'.outbox ≡ length g.outbox + length rows =
      ap length o ∙ length-append g.outbox rows in
    subst (λ n. Runs n rows g'.sequence)
      (omega (
        arith,
        counted,
        size,
        length-append g.outbox rows,
        Runs-length m g'.sequence (g.outbox ++ rows) all,
      ))
      (Runs-suffix m g'.sequence g.outbox rows all)

-- Rows that are appended are to be read by every consumer that is not ahead of the outbox.
unread-gained :
    (after m : ℕ) (g g' : FilesystemGraph) (rows : List OutboxRow)
    → after ≤ g.sequence
    → g'.outbox ≡ g.outbox ++ rows
    → g'.sequence + length g.outbox ≡ g.sequence + length g'.outbox
    → Runs m g'.outbox g'.sequence
    → unread after g' ≡ unread after g ++ rows
unread-gained after m g g' rows behind o counted runs =
    ap (select (beyond after)) o
    ∙ select-append (beyond after) g.outbox rows
    ∙ ap (λ more. unread after g ++ more)
        (select-Runs after g.sequence g'.sequence rows behind
          (Runs-gained m g g' rows o counted runs))

Ensures-each :
    {E A : Type 0} {Q : A → Type 0} (r : Result E A) → ((a : A) → r ≡ ok a → Q a) → Ensures Q r
Ensures-each (ok a) k = k a refl
Ensures-each (err error) k = tt

-- The graph after batches, whether each succeeds or fails.
unfoldable pub ingest : Encoding → List GraphMutationBatch → FilesystemGraph → FilesystemGraph
ingest encoding [] g = g
ingest encoding (b ∷ bs) g = ingest encoding bs (apply_batch encoding b g).0

module _ (t : Tantivy) (laws : Lawful t) (encoding : Encoding) (generation : ℕ) where
  -- The active generation, with the rows that are still to be read, comes to the documents that the
  -- graph desires.
  abbrev pub InSync : World t → Type 0
  InSync w =
      (index : Index) × (Towards t laws index w.graph.documents generation w
        × Tracks encoding w.graph index)

  gained-InSync :
      (index : Index) (w : World t) (g' : FilesystemGraph) (rows : List OutboxRow)
      → Towards t laws index w.graph.documents generation w
      → g'.outbox ≡ w.graph.outbox ++ rows
      → Grows w.graph g'
      → Numbered g'
      → Tracks encoding g' (replay rows index)
      → InSync (record w { graph = g' })
  unfolding projector_checkpoint
  gained-InSync index w g' rows (c, s, (known, active, there, numbered, behind, kept, toward)) o
        (counted, consumers) ((m, runs), bounded) tracks =
      let gained = unread-gained c.last_sequence m w.graph g' rows behind o counted runs in
      let behind' : c.last_sequence ≤ g'.sequence =
        omega (arith, behind, counted, ap length o, length-append w.graph.outbox rows) in
      let known' : projector_checkpoint catalog_schema_id g' ≡ some c = rw consumers known in
      let on : Same (replay (unread c.last_sequence g') (view t s)) (replay rows index) = λ id.
        ap (λ rs. replay rs (view t s) id) gained
        ∙ ap (λ (i : Index). i id) (replay-append (unread c.last_sequence w.graph) rows (view t s))
        ∙ replay-Same rows (replay (unread c.last_sequence w.graph) (view t s)) index toward id in
      (
        replay rows index,
        ((c, s, (known', active, there, ((m, runs), bounded), behind', refl, on)), tracks),
      )

  transact-InSync :
      (w : World t) (r : GraphResult (FilesystemGraph × ApplySummary))
      → InSync w
      → Ensures (λ p. InSync (record w { graph = p.0 })) r
      → InSync (record w { graph = (transact w.graph r).0 })
  transact-InSync w (ok p) h k = k
  transact-InSync w (err error) h k = h

  apply_batch-InSync :
      (batch : GraphMutationBatch) (w : World t)
      → InSync w
      → InSync (record w { graph = (apply_batch encoding batch w.graph).0 })
  unfolding apply_batch apply_batch_with_outbox_mode
  apply_batch-InSync batch w (index, (toward, tracks)) =
      transact-InSync w (run_batch encoding batch durable w.graph) (index, (toward, tracks))
        (Ensures-each (run_batch encoding batch durable w.graph) λ p e.
          let (rows, o, n, tracks') =
            Ensures-ok _ _ p (run_batch-Follows encoding batch w.graph index tracks) e in
          let grown =
            Ensures-ok (λ (p : FilesystemGraph × ApplySummary). Grows w.graph p.0) _ p
              (run_batch-Grows encoding batch w.graph) e in
          let numbered' =
            Ensures-ok (λ (p : FilesystemGraph × ApplySummary). Numbered p.0) _ p
              (run_batch-Numbered encoding batch durable w.graph toward.2.3) e in
          gained-InSync index w p.0 rows toward o grown numbered' tracks')

  ingest-InSync :
      (batches : List GraphMutationBatch) (w : World t)
      → InSync w
      → InSync (record w { graph = ingest encoding batches w.graph })
  unfolding ingest
  ingest-InSync [] w h = h
  ingest-InSync (b ∷ bs) w h =
      ingest-InSync bs (record w { graph = (apply_batch encoding b w.graph).0 })
        (apply_batch-InSync b w h)

  -- The run has left rows to read, or the generation has the documents that the graph desires.
  abbrev pub Caught : World t → ProjectionRunSummary → Type 0
  Caught w summary =
      (summary.backlog_remaining ≡ true)
      ⊎ ((s : t.Store) × ((generation_at generation w.generations ≡ some s)
            × Tracks encoding w.graph (view t s)))

  Tracks-Same :
      (g g' : FilesystemGraph) (i j : Index)
      → g'.documents ≡ g.documents
      → Same j i
      → Tracks encoding g i
      → Tracks encoding g' j
  Tracks-Same g g' i j e h tracks id =
      subst (λ (docs : List DocumentRow). Agree encoding (find (of_document id) docs) (j id))
        (sym e)
        (subst (Agree encoding (find (of_document id) g.documents)) (sym (h id)) (tracks id))

  -- Let the active generation, with the rows that its consumer has still to read, come to the
  -- documents that the graph desires. After any durable batches, whether each succeeds or fails, and
  -- a run of the worker on them whose recovery can open that generation, so that none is rebuilt, it
  -- does so again, whatever else fails in the run; and where the run succeeds without a backlog, the
  -- generation itself holds, for each document, a content with the fingerprint that the graph desires.
  pub ingest_then_run-InSync :
      (batches : List GraphMutationBatch) (options : ProjectionWorkerOptions) (run : Run)
      (w : World t)
      → InSync w
      → run.recovery.opens ≡ ok tt
      → let q =
          run_worker t encoding options run
            (record w { graph = ingest encoding batches w.graph }) in
        InSync q.0 × Ensures (Caught q.0) q.1
  ingest_then_run-InSync batches options run w h opens =
      let v : World t = record w { graph = ingest encoding batches w.graph } in
      let (index, (toward, tracks)) = ingest-InSync batches w h in
      let q = run_worker t encoding options run v in
      let (toward', reached) =
        run_worker-Reached t laws encoding options run index v.graph.documents generation v toward
          opens in
      let kept = toward'.2.5 in
      let caught : (summary : ProjectionRunSummary)
          → Reached t laws index v.graph.documents generation q.0 summary
          → Caught q.0 summary =
        λ summary o. elim o [
          | inl more ↦ inl more
          | inr found ↦
              let (s, (there, same)) = found in
              inr (s, (there, Tracks-Same v.graph q.0.graph index (view t s) kept same tracks))
        ] in
      (
        (
          index,
          (
            subst (λ docs. Towards t laws index docs generation q.0) (sym kept) toward',
            Tracks-Same v.graph q.0.graph index index kept (λ id. refl) tracks,
          ),
        ),
        Ensures-map q.1 caught reached,
      )

-- ===== src/Catalog/Worker.antt =====
-- The operations of the projection worker (crates/catalog-index/src/projector.rs). A run is given the
-- graph and the directory of generations and gives the new ones, whether it succeeds or fails.
use local_search.Prelude.{
  ℕ, zero, suc, ◌+◌, Option, none, some, List, [], ◌∷◌, length, ltb, leb, if◌then◌else◌, ok, err,
  ◌>>=◌, ◌>>◌, ok_or,
}
use local_search.Core.Models.{SequencedMutation, MutationBatch, validate, last_sequence}
use local_search.Graph.Tables.{FilesystemGraph}
use local_search.Graph.Outbox.{
  read_outbox, latest_outbox_sequence, projector_checkpoint, acknowledge_projection,
}
use local_search.Catalog.Index.{CatalogIndexError, CatalogIndexResult, Tantivy, Attempt, apply_all}
use local_search.Catalog.Types.{
  ProjectionWorkerError, ProjectionWorkerResult, ProjectionWorkerOptions, RecoveryKind,
  ProjectionRunSummary, catalog_schema_id, Run, from_graph, from_catalog, from_domain, World,
  generation_at, publish,
}

-- A batch that the writer has taken: its mutations, and the generation with them.
pub record Written (t : Tantivy) : Type 0 where
  pub batch : MutationBatch
  pub store : t.Store

module _ (t : Tantivy) where
  -- CatalogIndex::open, of a generation that is there
  unfoldable pub open_index : Attempt → ℕ → List (ℕ × t.Store) → CatalogIndexResult t.Store
  open_index a generation generations = do
    a.opens
    ok_or (generation_at generation generations) CatalogIndexError.io

  abbrev pub write_batch :
      Attempt → ℕ → List (ℕ × t.Store) → MutationBatch → ProjectionWorkerResult (Written t)
  write_batch a generation generations batch = do
    from_domain (validate batch)
    s ← from_catalog (open_index a generation generations)
    from_catalog a.acquires
    s' ← from_catalog (apply_all t a batch.mutations s)
    ok (record { batch = batch; store = s' })

  -- One turn of the loop up to its commit; none where there is nothing to read.
  abbrev pub write_if :
      Attempt
      → ℕ
      → List (ℕ × t.Store)
      → List SequencedMutation
      → ProjectionWorkerResult (Option (Written t))
  write_if a generation generations [] = ok none
  write_if a generation generations (m ∷ ms) = do
    written ← write_batch a generation generations (record { mutations = m ∷ ms })
    ok (some written)

  unfoldable pub prepare :
      ProjectionWorkerOptions → Attempt → ℕ → World t → ProjectionWorkerResult (Option (Written t))
  prepare options a generation w = do
    checkpoint ←
        ok_or (projector_checkpoint catalog_schema_id w.graph)
          (ProjectionWorkerError.outbox "missing active checkpoint")
    batch ←
        from_graph
          (read_outbox (some checkpoint.last_sequence) options.maximum_batch_mutations w.graph)
    write_if a generation w.generations batch.mutations

  -- The end of a turn, on a committed batch: the mutations that it applied.
  unfoldable pub acknowledge :
      Attempt → ℕ → MutationBatch → FilesystemGraph → ProjectionWorkerResult FilesystemGraph
  acknowledge a generation batch g = do
    from_catalog a.merges
    last ←
        ok_or (last_sequence batch) (ProjectionWorkerError.outbox "non-empty batch lost its tail")
    from_graph (acknowledge_projection catalog_schema_id last generation g)

  abbrev pub acknowledged :
      {A : Type 0}
      → A
      → World t
      → ProjectionWorkerResult FilesystemGraph
      → World t × ProjectionWorkerResult A
  acknowledged value w (ok g) = (record w { graph = g }, ok value)
  acknowledged value w (err error) = (w, err error)

  abbrev pub commit_batch :
      Attempt
      → ℕ
      → Written t
      → World t
      → CatalogIndexResult (Unit {0})
      → World t × ProjectionWorkerResult (Option ℕ)
  commit_batch a generation written w (err error) = (w, err (ProjectionWorkerError.catalog error))
  commit_batch a generation written w (ok _) =
      acknowledged (some (length written.batch.mutations)) (publish generation written.store w)
        (acknowledge a generation written.batch w.graph)

  abbrev pub commit_prepared :
      Attempt
      → ℕ
      → World t
      → ProjectionWorkerResult (Option (Written t))
      → World t × ProjectionWorkerResult (Option ℕ)
  commit_prepared a generation w (err error) = (w, err error)
  commit_prepared a generation w (ok none) = (w, ok none)
  commit_prepared a generation w (ok (some written)) = commit_batch a generation written w a.commits

  -- One turn of the loop: the number of mutations that it applied, or none where it breaks.
  unfoldable pub project_batch :
      ProjectionWorkerOptions → Attempt → ℕ → World t → World t × ProjectionWorkerResult (Option ℕ)
  project_batch options a generation w =
      commit_prepared a generation w (prepare options a generation w)

  -- The batches and the mutations of a run so far.
  abbrev pub Counts : Type 0
  Counts = ℕ × ℕ

  -- What follows on a turn: its error, the end of the loop, or the other turns.
  abbrev pub after_turn :
      Counts
      → (World t → Counts → World t × ProjectionWorkerResult Counts)
      → World t × ProjectionWorkerResult (Option ℕ)
      → World t × ProjectionWorkerResult Counts
  after_turn counts rest (w, err error) = (w, err error)
  after_turn counts rest (w, ok none) = (w, ok counts)
  after_turn counts rest (w, ok (some applied)) = rest w (counts.0 + 1, counts.1 + applied)

  -- The loop of `run`, by the batches that are left to it.
  unfoldable pub project :
      ℕ
      → ProjectionWorkerOptions
      → Run
      → ℕ
      → World t
      → Counts
      → World t × ProjectionWorkerResult Counts
  project zero options run generation w counts = (w, ok counts)
  project (suc left) options run generation w counts =
      let rest = project left options run generation in
      let turn = project_batch options (run.batch counts.0) generation w in
      if leb options.maximum_run_time (run.elapsed counts.0)
      then (w, ok counts)
      else after_turn counts rest turn

  -- the end of `run`
  unfoldable pub summarize :
      RecoveryKind → ℕ → Counts → FilesystemGraph → ProjectionWorkerResult ProjectionRunSummary
  summarize recovery generation counts g = do
    checkpoint ←
        ok_or (projector_checkpoint catalog_schema_id g)
          (ProjectionWorkerError.outbox "missing final checkpoint")
    ok (record {
      recovery = recovery;
      index_generation = generation;
      committed_batches = counts.0;
      applied_mutations = counts.1;
      applied_sequence = checkpoint.last_sequence;
      backlog_remaining = ltb checkpoint.last_sequence (latest_outbox_sequence g);
    })

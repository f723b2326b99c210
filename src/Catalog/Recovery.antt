-- ===== src/Catalog/Recovery.antt =====
-- The recovery of the projection worker and its runs (crates/catalog-index/src/projector.rs).
use local_search.Prelude.{
  ◌||◌, reject_if, ℕ, zero, suc, ◌+◌, min, Bool, true, false, Option, none, some, List, [], ◌∷◌,
  length, ltb, ◌==◌, u64_max, if◌then◌else◌, ok, err, ◌>>=◌, ◌>>◌, ok_or,
}
use local_search.Core.Ids.{DocumentId}
use local_search.Core.Models.{CatalogDocument}
use local_search.Graph.Types.{ProjectorCheckpoint}
use local_search.Graph.Tables.{FilesystemGraph}
use local_search.Graph.Projection.{Encoding}
use local_search.Graph.Outbox.{latest_outbox_sequence, projector_checkpoint, acknowledge_projection}
use local_search.Graph.Desired.{desired_catalog_page}
use local_search.Catalog.Index.{CatalogIndexError, CatalogIndexResult, Tantivy, Attempt, add_all}
use local_search.Catalog.Types.{
  is_some, ProjectionWorkerError, ProjectionWorkerResult, ProjectionWorkerOptions, RecoveryKind,
  ProjectionRunSummary, catalog_schema_id, Run, from_graph, from_catalog, World, generation_at,
  publish, next_unused_generation,
}
use local_search.Catalog.Worker.{open_index, acknowledged, Counts, project, summarize}

abbrev pub is_ok : {A : Type 0} → CatalogIndexResult A → Bool
is_ok (ok a) = true
is_ok (err error) = false

module _ (t : Tantivy) where
  -- CatalogIndex::create, of a generation that is not there yet. One that fails leaves no generation
  -- here; the directory that the source may then leave is not modelled.
  unfoldable pub create_index : Attempt → ℕ → World t → CatalogIndexResult (World t)
  create_index a generation w = do
    reject_if (is_some (generation_at generation w.generations)) CatalogIndexError.io
    a.creates
    ok (publish generation t.empty w)

  abbrev last_document : Option DocumentId → List CatalogDocument → Option DocumentId
  last_document after [] = after
  last_document after (d ∷ []) = some d.identity.document_id
  last_document after (d ∷ e ∷ ds) = last_document after (e ∷ ds)

  -- What follows on a page of a rebuild: its end, where the page is short, or the other pages.
  abbrev after_page :
      ℕ
      → (Option DocumentId → t.Store → ProjectionWorkerResult t.Store)
      → Option DocumentId
      → List CatalogDocument
      → t.Store
      → ProjectionWorkerResult t.Store
  after_page size rest after documents s =
      if length documents == 0 || ltb (length documents) size
      then ok s
      else rest (last_document after documents) s

  -- The loop of `rebuild` over the pages of desired documents.
  unfoldable pub add_pages :
      Encoding
      → ℕ
      → ℕ
      → Attempt
      → FilesystemGraph
      → Option DocumentId
      → t.Store
      → ProjectionWorkerResult t.Store
  add_pages encoding zero size a g after s = ok s
  add_pages encoding (suc fuel) size a g after s = do
    documents ← from_graph (desired_catalog_page encoding after size g)
    s' ← from_catalog (add_all t a documents s)
    after_page size (add_pages encoding fuel size a g) after documents s'

  abbrev filled :
      Encoding
      → ProjectionWorkerOptions
      → Attempt
      → FilesystemGraph
      → ProjectionWorkerResult t.Store
  filled encoding options a g = do
    from_catalog a.acquires
    s ← add_pages encoding (length g.documents + 1) options.rebuild_page_size a g none t.empty
    from_catalog a.commits
    ok s

  abbrev activate : Attempt → ℕ → World t → World t × ProjectionWorkerResult (RecoveryKind × ℕ)
  activate a generation w =
      acknowledged t (RecoveryKind.rebuilt_generation, generation) w
        (do
          from_catalog a.merges
          from_graph (
              acknowledge_projection catalog_schema_id (latest_outbox_sequence w.graph) generation
                w.graph))

  abbrev fill :
      Attempt
      → ℕ
      → World t
      → ProjectionWorkerResult t.Store
      → World t × ProjectionWorkerResult (RecoveryKind × ℕ)
  fill a generation w (err error) = (w, err error)
  fill a generation w (ok s) = activate a generation (publish generation s w)

  abbrev rebuild_created :
      Encoding
      → ProjectionWorkerOptions
      → Attempt
      → ℕ
      → World t
      → CatalogIndexResult (World t)
      → World t × ProjectionWorkerResult (RecoveryKind × ℕ)
  rebuild_created encoding options a generation w (err error) =
      (w, err (ProjectionWorkerError.catalog error))
  rebuild_created encoding options a generation w (ok created) =
      fill a generation created (filled encoding options a created.graph)

  unfoldable pub rebuild :
      Encoding
      → ProjectionWorkerOptions
      → Attempt
      → ℕ
      → World t
      → World t × ProjectionWorkerResult (RecoveryKind × ℕ)
  rebuild encoding options a minimum_generation w =
      let generation = next_unused_generation w.generations minimum_generation in
      rebuild_created encoding options a generation w (create_index a generation w)

  abbrev pub recover_from :
      Encoding
      → ProjectionWorkerOptions
      → Attempt
      → Option ProjectorCheckpoint
      → World t
      → World t × ProjectionWorkerResult (RecoveryKind × ℕ)
  recover_from encoding options a none w = rebuild encoding options a 1 w
  recover_from encoding options a (some checkpoint) w =
      if is_ok (open_index t a checkpoint.index_generation w.generations)
      then (w, ok (RecoveryKind.existing_generation, checkpoint.index_generation))
      else rebuild encoding options a (min (checkpoint.index_generation + 1) u64_max) w

  unfoldable pub recover :
      Encoding
      → ProjectionWorkerOptions
      → Attempt
      → World t
      → World t × ProjectionWorkerResult (RecoveryKind × ℕ)
  recover encoding options a w =
      recover_from encoding options a (projector_checkpoint catalog_schema_id w.graph) w

  abbrev pub summarized :
      RecoveryKind
      → ℕ
      → World t × ProjectionWorkerResult (Counts t)
      → World t × ProjectionWorkerResult ProjectionRunSummary
  summarized recovery generation (w, err error) = (w, err error)
  summarized recovery generation (w, ok counts) =
      (w, summarize t recovery generation counts w.graph)

  abbrev pub project_recovered :
      ProjectionWorkerOptions
      → Run
      → World t × ProjectionWorkerResult (RecoveryKind × ℕ)
      → World t × ProjectionWorkerResult ProjectionRunSummary
  project_recovered options run (w, err error) = (w, err error)
  project_recovered options run (w, ok (recovery, generation)) =
      summarized recovery generation
        (project t options.maximum_batches options run generation w (0, 0))

  abbrev pub run_in :
      Encoding
      → ProjectionWorkerOptions
      → Run
      → World t
      → ProjectionWorkerResult (Unit {0})
      → World t × ProjectionWorkerResult ProjectionRunSummary
  run_in encoding options run w (err error) = (w, err error)
  run_in encoding options run w (ok _) =
      project_recovered options run (recover encoding options run.recovery w)

  -- ProjectionWorker::run
  unfoldable pub run_worker :
      Encoding
      → ProjectionWorkerOptions
      → Run
      → World t
      → World t × ProjectionWorkerResult ProjectionRunSummary
  run_worker encoding options run w = run_in encoding options run w run.creates_root

  unfoldable pub active_index : Attempt → World t → ProjectionWorkerResult t.Store
  active_index a w = do
    checkpoint ←
        ok_or (projector_checkpoint catalog_schema_id w.graph)
          (ProjectionWorkerError.outbox "no active catalog generation")
    from_catalog (open_index t a checkpoint.index_generation w.generations)

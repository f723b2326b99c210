-- ===== src/Catalog/Examples.antt =====
-- Runs of the projection worker on an index that is a list (crates/catalog-index/src/projector.rs).
use local_search.Prelude.{
  ◌≤◌, ℕ, ◌≡◌, refl, not, Bool, none, List, [], ◌∷◌, ◌==◌, ok, err, if◌then◌else◌, arith, Ensures,
}
use local_search.Core.Ids.{DocumentId}
use local_search.Core.Models.{CatalogDocument}
use local_search.Graph.Rows.{find, select}
use local_search.Graph.Tables.{FilesystemGraph}
use local_search.Graph.Projection.Replay.{Index}
use local_search.Graph.Outbox.{projector_checkpoint}
use local_search.Graph.Operations.{empty_graph}
use local_search.Graph.Examples.{sample_encoding, first_batch}
use local_search.Catalog.Index.{CatalogIndexError, Tantivy, Lawful, Attempt}
use local_search.Catalog.Types.{
  generation_at, next_unused_generation, default_options, Run, World, catalog_schema_id,
}
use local_search.Catalog.Recovery.{run_worker}
use local_search.Catalog.Consistency.{Towards}
use local_search.Catalog.Fuel.{next_unused_generation-none}
use local_search.Catalog.Runs.{Reached, run_worker-Reached}
use local_search.Catalog.Pipeline.{ingest, InSync, Caught, ingest_then_run-InSync}

abbrev of_term : DocumentId → CatalogDocument → Bool
of_term id document = document.identity.document_id == id

abbrev listed : Tantivy
listed = record {
  Store = List CatalogDocument;
  empty = [];
  delete_term = λ id documents. select (λ d. not (of_term id d)) documents;
  add_document = λ document documents. document ∷ documents;
  lookup = λ id documents. find (of_term id) documents;
}

find-removed :
    (k id : DocumentId) (documents : List CatalogDocument)
    → find (of_term id) (select (λ d. not (of_term k d)) documents)
      ≡ (if k == id then none else find (of_term id) documents)
find-removed k id [] = ground arith
find-removed k id (d ∷ ds) = ground (arith, find-removed k id ds)

listed-Lawful : Lawful listed
listed-Lawful = record {
  lookup_empty = λ id. refl;
  lookup_deleted = find-removed;
  lookup_added = λ d id documents h. refl;
}

-- Everything succeeds but the second commit's acknowledgement.
abbrev fine : Attempt
fine = record {
  creates = ok tt;
  opens = ok tt;
  acquires = ok tt;
  takes = λ document. ok tt;
  commits = ok tt;
  merges = ok tt;
}

abbrev unmerged : Attempt
unmerged = record fine { merges = err CatalogIndexError.tantivy }

abbrev flaky : Run
flaky = record {
  creates_root = ok tt;
  recovery = fine;
  elapsed = λ batch. 0;
  batch = λ batch. if batch == 0 then unmerged else fine;
}

abbrev consumed : FilesystemGraph
consumed = record empty_graph {
  consumers =
      record { consumer_id = catalog_schema_id; last_sequence = 0; index_generation = 1 } ∷ [];
}

abbrev new_world : World listed
new_world = record { graph = consumed; generations = (1, []) ∷ [] }

abbrev nothing : Index
nothing id = none

new_world-Towards : Towards listed listed-Lawful nothing [] 1 new_world
unfolding projector_checkpoint
new_world-Towards = (
  record { consumer_id = catalog_schema_id; last_sequence = 0; index_generation = 1 },
  [],
  (refl, refl, refl, ((0, refl), omega arith), omega arith, refl, λ id. refl),
)

run_worker-Reached_example :
    let q = run_worker listed sample_encoding default_options flaky new_world in
    Towards listed listed-Lawful nothing [] 1 q.0
    × Ensures (Reached listed listed-Lawful nothing [] 1 q.0) q.1
run_worker-Reached_example =
    run_worker-Reached listed listed-Lawful sample_encoding default_options flaky nothing [] 1
      new_world new_world-Towards refl

ingest_then_run-InSync_example :
    let q =
      run_worker listed sample_encoding default_options flaky
        (record new_world { graph = ingest sample_encoding (first_batch ∷ []) consumed }) in
    InSync listed listed-Lawful sample_encoding 1 q.0
    × Ensures (Caught listed listed-Lawful sample_encoding 1 q.0) q.1
ingest_then_run-InSync_example =
    ingest_then_run-InSync listed listed-Lawful sample_encoding 1 (first_batch ∷ []) default_options
      flaky new_world (nothing, (new_world-Towards, λ id. tt)) refl

abbrev two_generations : List (ℕ × ℕ)
two_generations = (2, 0) ∷ (1, 0) ∷ []

next_unused_generation-none_example :
    (generation_at (next_unused_generation two_generations 1) two_generations ≡ none)
    × (1 ≤ next_unused_generation two_generations 1)
next_unused_generation-none_example = next_unused_generation-none two_generations 1 (omega arith)

-- ===== src/Catalog/Types.antt =====
-- The data of the projection worker (crates/catalog-index/src/projector.rs).
use local_search.Prelude.{
  ℕ, zero, suc, ◌+◌, ◌-◌, ◌*◌, min, Bool, true, false, Option, none, some, List, [], ◌∷◌, map, ◌==◌,
  String, if◌then◌else◌, Result, ok, err, u64_max,
}
use local_search.Core.Models.{Text}
use local_search.Graph.Types.{GraphError, GraphResult}
use local_search.Graph.Tables.{FilesystemGraph}
use local_search.Graph.Outbox.{greatest}
use local_search.Catalog.Index.{CatalogIndexError, CatalogIndexResult, Tantivy, Attempt}

pub data ProjectionWorkerError : Type 0 where
  graph : GraphError → ProjectionWorkerError
  catalog : CatalogIndexError → ProjectionWorkerError
  io : ProjectionWorkerError
  outbox : String → ProjectionWorkerError

abbrev pub ProjectionWorkerResult : Type 0 → Type 0
ProjectionWorkerResult A = Result ProjectionWorkerError A

-- `maximum_run_time` in nanoseconds
pub record ProjectionWorkerOptions : Type 0 where
  pub maximum_batch_mutations : ℕ  -- u32
  pub maximum_batches : ℕ  -- u32
  pub maximum_run_time : ℕ
  pub writer_heap_bytes : ℕ  -- usize
  pub rebuild_page_size : ℕ  -- u32

unfoldable pub default_options : ProjectionWorkerOptions
default_options = record {
  maximum_batch_mutations = 10000;
  maximum_batches = 100;
  maximum_run_time = 30000000000;
  writer_heap_bytes = 128 * 1024 * 1024;
  rebuild_page_size = 10000;
}

pub data RecoveryKind : Type 0 where
  existing_generation rebuilt_generation : RecoveryKind

pub record ProjectionRunSummary : Type 0 where
  pub recovery : RecoveryKind
  pub index_generation : ℕ  -- u64
  pub committed_batches : ℕ  -- u32
  pub applied_mutations : ℕ  -- u64
  pub applied_sequence : ℕ  -- u64
  pub backlog_remaining : Bool

-- "TANTIVY-SCHEMA-v1"
abbrev pub catalog_schema_id : Text
catalog_schema_id =
    84 ∷ 65 ∷ 78 ∷ 84 ∷ 73 ∷ 86 ∷ 89 ∷ 45 ∷ 83 ∷ 67 ∷ 72 ∷ 69 ∷ 77 ∷ 65 ∷ 45 ∷ 118 ∷ 49 ∷ []

-- What one run meets: the directory of generations, the recovery, and for each batch the time that
-- has passed before it and the use of its generation.
pub record Run : Type 0 where
  pub creates_root : Result ProjectionWorkerError (Unit {0})
  pub recovery : Attempt
  pub elapsed : ℕ → ℕ
  pub batch : ℕ → Attempt

abbrev pub from_graph : {A : Type 0} → GraphResult A → ProjectionWorkerResult A
from_graph (ok a) = ok a
from_graph (err error) = err (ProjectionWorkerError.graph error)

abbrev pub from_catalog : {A : Type 0} → CatalogIndexResult A → ProjectionWorkerResult A
from_catalog (ok a) = ok a
from_catalog (err error) = err (ProjectionWorkerError.catalog error)

abbrev pub from_domain : {E A : Type 0} → Result E A → ProjectionWorkerResult A
from_domain (ok a) = ok a
from_domain (err error) = err (ProjectionWorkerError.outbox "the batch is not valid")

-- The graph, and the directory of generations: what each holds that is committed, the latest first.
pub record World (t : Tantivy) : Type 0 where
  pub graph : FilesystemGraph
  pub generations : List (ℕ × t.Store)

abbrev pub is_some : {A : Type 0} → Option A → Bool
is_some none = false
is_some (some a) = true

abbrev pub publish : {t : Tantivy} → ℕ → t.Store → World t → World t
publish generation s w = record w { generations = (generation, s) ∷ w.generations }

module _ {S : Type 0} where
  -- the generation under `generation_path`
  abbrev pub generation_at : ℕ → List (ℕ × S) → Option S
  generation_at generation [] = none
  generation_at generation ((k, s) ∷ rest) =
      if k == generation then some s else generation_at generation rest

  -- the loop of `next_unused_generation`, which passes over the generations up to the greatest one
  -- at most
  unfoldable pub next_unused : ℕ → List (ℕ × S) → ℕ → ℕ
  next_unused zero generations generation = generation
  next_unused (suc fuel) generations generation =
      if is_some (generation_at generation generations)
      then next_unused fuel generations (min (generation + 1) u64_max)
      else generation

  unfoldable pub next_unused_generation : List (ℕ × S) → ℕ → ℕ
  next_unused_generation generations minimum =
      next_unused (greatest (map (λ e. e.0) generations) + 1 - minimum) generations minimum

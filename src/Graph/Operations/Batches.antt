-- ===== src/Graph/Operations/Batches.antt =====
-- What a consumer reads from the outbox is a batch of the domain's contract
-- (crates/filesystem-graph/src/store.rs and crates/core/src/models.rs).
use local_search.Prelude.{
  ◌⊎◌, subst, sym, ℕ, Option, List, [], ◌∷◌, ok, Ensures, bind-Ensures, arith, inl, inr, ◌≡◌, refl,
  map, take, ◌+◌,
}
use local_search.Core.Models.{MutationBatch, SequencedMutation, validate}
use local_search.Graph.Tables.{FilesystemGraph, try_i64}
use local_search.Graph.Projection.{Encoding}
use local_search.Graph.Outbox.{read_outbox, beyond, sequenced, cursor}
use local_search.Graph.Operations.{Operation, empty_graph, run}
use local_search.Graph.Rows.{select}
use local_search.Core.Models.Batches.{Consecutive, validate_batch_iff}
use local_search.Graph.Outbox.Sequence.{Numbered, SomeRun-beyond, Consecutive-take}
use local_search.Graph.Operations.Numbered.{run-Numbered}

-- Empty, or accepted by the contract of a batch.
abbrev pub Readable : MutationBatch → Type 0
Readable b = (b.mutations ≡ []) ⊎ (validate b ≡ ok tt)

Readable-Consecutive :
    (n : ℕ) (ms : List SequencedMutation) → Consecutive n ms → Readable (record { mutations = ms })
Readable-Consecutive n [] c = inl refl
Readable-Consecutive n (m ∷ ms) c = inr (
    (validate_batch_iff (record { mutations = m ∷ ms })).1
      (subst (λ k. Consecutive k (m ∷ ms)) (sym c.0) c))

read_outbox-Readable :
    (after : Option ℕ) (limit : ℕ) (g : FilesystemGraph)
    → Numbered g
    → Ensures Readable (read_outbox after limit g)
unfolding read_outbox
read_outbox-Readable after limit g ((n, runs), bounded) =
    bind-Ensures Readable (try_i64 (cursor after) "outbox cursor") _ λ u e.
      let (k, rest) = SomeRun-beyond n u g.sequence g.outbox runs in
      Readable-Consecutive (k + 1) (map sequenced (take limit (select (beyond u) g.outbox)))
        (Consecutive-take k g.sequence limit (select (beyond u) g.outbox) bounded rest)

module _ (encoding : Encoding) where
  -- After any sequence of batches, scans, pages, staged checkpoints, finalizations, acknowledgements,
  -- consumer resets, prunings, refreshes, completed jobs and compactions from the empty graph, a batch
  -- that `read_outbox` gives, from whatever cursor and with whatever limit, is empty or accepted by
  -- `MutationBatch::validate`: its sequences are consecutive.
  pub read_outbox-validate :
      (ops : List Operation) (after : Option ℕ) (limit : ℕ)
      → Ensures Readable (read_outbox after limit (run encoding ops empty_graph))
  read_outbox-validate ops after limit =
      read_outbox-Readable after limit (run encoding ops empty_graph)
        (run-Numbered encoding ops empty_graph ((0, refl), ground arith))

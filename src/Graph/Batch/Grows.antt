-- ===== src/Graph/Batch/Grows.antt =====
-- A batch numbers the rows that it appends on from the last sequence, and leaves the consumers alone
-- (crates/filesystem-graph/src/store.rs).
use local_search.Prelude.{
  ◌+◌, ◌≡◌, ◌∙◌, refl, subst, [], ◌∷◌, length, length-append, leb, arith, reject_if, Ensures,
  bind-Ensures, Ensures-ok,
}
use local_search.Graph.Rows.{select}
use local_search.Graph.Types.{GraphMutationBatch, ApplySummary, validate}
use local_search.Graph.Tables.{
  FilesystemGraph, i64_max, of_volume, checked_add_one, generation_of, set_generation,
  save_checkpoint,
}
use local_search.Graph.Projection.{durable, Encoding, append_outbox}
use local_search.Graph.Batch.{
  require_single_update, apply_mutations, close_batch, sync_all, run_batch,
}
use local_search.Graph.Batch.Frame.{Aside, Keeps}
use local_search.Graph.Batch.Follows.{apply_mutations-Keeps}
use local_search.Graph.Batch.Writes.{Writes, sync_all-Writes}

abbrev pub Grows : FilesystemGraph → FilesystemGraph → Type 0
Grows g g' =
    (g'.sequence + length g.outbox ≡ g.sequence + length g'.outbox) × (g'.consumers ≡ g.consumers)

Grows-then : (g g' g'' : FilesystemGraph) → Grows g g' → Grows g' g'' → Grows g g''
Grows-then g g' g'' (a, c) (b, d) = (omega (arith, a, b), d ∙ c)

Grows-Writes : Writes Grows
unfolding append_outbox
Grows-Writes = record {
  documents = λ g rows. (refl, refl);
  append = λ id version mutation g.
      bind-Ensures (Grows g) (reject_if (leb i64_max g.sequence) _) _
        λ u r. (omega (arith, length-append g.outbox (_ ∷ [])), refl);
  then = Grows-then;
}

abbrev GrowsBatch : FilesystemGraph → FilesystemGraph × ApplySummary → Type 0
GrowsBatch g p = Grows g p.0

pub run_batch-Grows :
    (encoding : Encoding) (batch : GraphMutationBatch) (g : FilesystemGraph)
    → Ensures (λ p. Grows g p.0) (run_batch encoding batch durable g)
unfolding run_batch close_batch set_generation save_checkpoint
run_batch-Grows encoding batch g = bind-Ensures (GrowsBatch g) (validate batch) _ λ u v.
    bind-Ensures (GrowsBatch g) (checked_add_one (generation_of batch.volume_id g.volumes) _) _
      λ generation c.
        bind-Ensures (GrowsBatch g) (apply_mutations batch.mutations generation g 0 []) _ λ p e.
          let kept =
            Ensures-ok (λ p. Keeps g p.0) _ p
              (apply_mutations-Keeps batch.mutations generation g 0 []) e in
          bind-Ensures (GrowsBatch g) (sync_all encoding p.2 generation durable p.0 0) _ λ q s.
            let grown =
              Ensures-ok (λ q. Grows p.0 q.0) _ q
                (sync_all-Writes encoding Grows Grows-Writes p.2 generation durable p.0 0) s in
            bind-Ensures (GrowsBatch g)
              (require_single_update (length (select (of_volume batch.volume_id) q.0.volumes)) _) _
              λ u' w.
                subst
                  (λ (a : Aside).
                    (q.0.sequence + length a.outbox ≡ a.sequence + length q.0.outbox)
                    × (q.0.consumers ≡ a.consumers))
                  kept grown

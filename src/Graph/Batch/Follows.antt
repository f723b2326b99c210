-- ===== src/Graph/Batch/Follows.antt =====
-- A durable batch and the index that follows it (crates/filesystem-graph/src/store.rs).
use local_search.Prelude.{
  ℕ, ◌+◌, ◌≡◌, refl, sym, ap, subst, ◌∙◌, List, [], ◌∷◌, ◌++◌, length, length-append, append_assoc,
  append-nil, ok, err, Ensures, bind-Ensures, Ensures-ok, Ensures-map, arith,
}
use local_search.Core.Ids.{FileLinkId}
use local_search.Graph.Rows.{select, find}
use local_search.Graph.Types.{
  GraphResult, GraphMutation, GraphMutationBatch, ApplySummary, validate,
}
use local_search.Graph.Tables.{
  OutboxRow, FilesystemGraph, of_volume, of_document, checked_add_one, generation_of,
  set_generation, save_checkpoint,
}
use local_search.Graph.Projection.{durable, Encoding, sync_catalog_projection}
use local_search.Graph.Projection.Replay.{Index, replay, Agree, Tracks, Follows, sync-Follows}
use local_search.Graph.Batch.{
  require_single_update, apply_mutation, affected_links, insert_all, apply_mutations, transact,
  close_batch, sync_all, run_batch, apply_batch_with_outbox_mode, apply_batch,
}
use local_search.Graph.Batch.Frame.{Aside, Keeps, apply_mutation-Keeps}

pub apply_mutations-Keeps :
    (ms : List GraphMutation) (generation : ℕ) (g : FilesystemGraph) (jobs : ℕ)
    (affected : List FileLinkId)
    → Ensures (λ p. Keeps g p.0) (apply_mutations ms generation g jobs affected)
unfolding apply_mutations
apply_mutations-Keeps [] generation g jobs affected = refl
apply_mutations-Keeps (m ∷ ms) generation g jobs affected =
    bind-Ensures _ (apply_mutation m generation g) _ λ p e.
      let first = Ensures-ok (λ p. Keeps g p.0) _ p (apply_mutation-Keeps m generation g) e in
      let affected' = insert_all (affected_links m g) affected in
      Ensures-map (apply_mutations ms generation p.0 (jobs + p.1) affected')
        (λ q later. later ∙ first) (apply_mutations-Keeps ms generation p.0 (jobs + p.1) affected')

pub replay-append :
    (rows later : List OutboxRow) (index : Index)
    → replay (rows ++ later) index ≡ replay later (replay rows index)
replay-append [] later index = refl
replay-append (r ∷ rs) later index = replay-append rs later _

module _ (encoding : Encoding) where
  -- The rows are appended to what was there before, `n` of them, and the index follows by them.
  abbrev pub FollowsFrom : FilesystemGraph → Index → ℕ → FilesystemGraph × ℕ → Type 0
  FollowsFrom g index n (g', m) =
      (rows : List OutboxRow) × (g'.outbox ≡ g.outbox ++ rows)
      × (m ≡ n + length rows)
      × Tracks encoding g' (replay rows index)

  pub sync_all-Follows :
      (ids : List FileLinkId) (generation : ℕ) (g : FilesystemGraph) (n : ℕ) (index : Index)
      → Tracks encoding g index
      → Ensures (FollowsFrom g index n) (sync_all encoding ids generation durable g n)
  unfolding sync_all
  sync_all-Follows [] generation g n index t = ([], sym (append-nil g.outbox), omega arith, t)
  sync_all-Follows (id ∷ ids) generation g n index t =
      bind-Ensures (FollowsFrom g index n)
        (sync_catalog_projection encoding id generation durable g) _
        λ p e.
          let (rows, o, m, t') =
            Ensures-ok (Follows encoding g index) _ p
              (sync-Follows encoding id generation g index t) e in
          Ensures-map (sync_all encoding ids generation durable p.0 (n + p.1))
            (λ q f.
              let (later, o', m', t'') = f in
              (
                rows ++ later,
                o' ∙ ap (λ out. out ++ later) o ∙ append_assoc g.outbox rows later,
                omega (arith, m, m', length-append rows later),
                subst (Tracks encoding q.0) (sym (replay-append rows later index)) t'',
              ))
            (sync_all-Follows ids generation p.0 (n + p.1) (replay rows index) t')

  abbrev pub BatchFollows : FilesystemGraph → Index → FilesystemGraph × ApplySummary → Type 0
  BatchFollows g index (g', summary) =
      (rows : List OutboxRow) × (g'.outbox ≡ g.outbox ++ rows)
      × (summary.outbox_mutations_appended ≡ length rows)
      × Tracks encoding g' (replay rows index)

  close_batch-Follows :
      (batch : GraphMutationBatch) (generation : ℕ) (g synced : FilesystemGraph) (index : Index)
      (summary : ApplySummary)
      → BatchFollows g index (synced, summary)
      → Ensures (BatchFollows g index) (close_batch batch generation synced summary)
  unfolding close_batch set_generation save_checkpoint
  close_batch-Follows batch generation g synced index summary f =
      bind-Ensures (BatchFollows g index)
        (require_single_update (length (select (of_volume batch.volume_id) synced.volumes)) _) _
        λ u w. f

  pub run_batch-Follows :
      (batch : GraphMutationBatch) (g : FilesystemGraph) (index : Index)
      → Tracks encoding g index
      → Ensures (BatchFollows g index) (run_batch encoding batch durable g)
  unfolding run_batch
  run_batch-Follows batch g index t =
      let P = BatchFollows g index in
      bind-Ensures P (validate batch) _ λ u v.
        bind-Ensures P (checked_add_one (generation_of batch.volume_id g.volumes) _) _
          λ generation c.
            bind-Ensures P (apply_mutations batch.mutations generation g 0 []) _ λ p e.
              let kept =
                Ensures-ok (λ p. Keeps g p.0) _ p
                  (apply_mutations-Keeps batch.mutations generation g 0 []) e in
              let t' : Tracks encoding p.0 index = λ k.
                subst (λ (a : Aside). Agree encoding (find (of_document k) a.documents) (index k))
                  (sym kept) (t k) in
              bind-Ensures P (sync_all encoding p.2 generation durable p.0 0) _ λ q s.
                let (rows, o, m, t'') =
                  Ensures-ok (FollowsFrom p.0 index 0) _ q
                    (sync_all-Follows p.2 generation p.0 0 index t') s in
                let counted : q.1 ≡ length rows = omega (arith, m) in
                let summary : ApplySummary = record {
                  mutations = length batch.mutations;
                  generation = generation;
                  refresh_jobs_enqueued = p.1;
                  outbox_mutations_appended = q.1;
                } in
                close_batch-Follows batch generation g q.0 index summary
                  (rows, o ∙ ap (λ (a : Aside). a.outbox ++ rows) kept, counted, t'')

  -- What a call leaves: the rows that it appended, counted in its summary, bring the index along; a
  -- call that fails leaves the graph as it was.
  abbrev pub FollowsCall :
      FilesystemGraph → Index → FilesystemGraph × GraphResult ApplySummary → Type 0
  FollowsCall g index (g', ok summary) = BatchFollows g index (g', summary)
  FollowsCall g index (g', err error) = g' ≡ g

  transact-Follows :
      (g : FilesystemGraph) (index : Index) (r : GraphResult (FilesystemGraph × ApplySummary))
      → Ensures (BatchFollows g index) r
      → FollowsCall g index (transact g r)
  transact-Follows g index (ok p) h = h
  transact-Follows g index (err error) h = refl

  -- Let an index hold, for each document, a content with the fingerprint that the graph desires. After
  -- any durable batch that succeeds, an index that has applied exactly the rows that the batch appended
  -- to the outbox, as many as its summary says, does so again. A batch that fails changes nothing.
  pub apply_batch-Follows :
      (batch : GraphMutationBatch) (g : FilesystemGraph) (index : Index)
      → Tracks encoding g index
      → FollowsCall g index (apply_batch encoding batch g)
  unfolding apply_batch apply_batch_with_outbox_mode
  apply_batch-Follows batch g index t =
      transact-Follows g index (run_batch encoding batch durable g)
        (run_batch-Follows batch g index t)

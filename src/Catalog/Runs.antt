-- ===== src/Catalog/Runs.antt =====
-- The runs of the projection worker
-- (crates/catalog-index/src/projector.rs over crates/filesystem-graph/src/store.rs).
use local_search.Prelude.{
  ℕ, zero, suc, ◌≤◌, ◌≡◌, ◌∙◌, ◌⊎◌, refl, sym, ap, subst, true, Option, none, some, List, [], ◌∷◌,
  ltb, leb, map, ok, err, arith, Bool-cases, inl, inr, ok_or, Ensures, bind-Ensures, ok_of-ok_or,
}
use local_search.Graph.Rows.{select}
use local_search.Graph.Tables.{DocumentRow, OutboxRow, FilesystemGraph}
use local_search.Graph.Projection.{Encoding}
use local_search.Graph.Projection.Replay.{Index, replay}
use local_search.Graph.Outbox.{beyond, greatest, latest_outbox_sequence, projector_checkpoint}
use local_search.Catalog.Index.{Tantivy, Lawful, Attempt, CatalogIndexResult}
use local_search.Catalog.Types.{
  ProjectionWorkerResult, ProjectionWorkerOptions, ProjectionRunSummary, RecoveryKind, Run, World,
  generation_at, publish, catalog_schema_id,
}
use local_search.Catalog.Worker.{
  Written, open_index, prepare, acknowledge, acknowledged, commit_batch, commit_prepared,
  project_batch, Counts, after_turn, project, summarize,
}
use local_search.Catalog.Recovery.{
  is_ok, summarized, recover_from, recover, project_recovered, run_in, run_worker,
}
use local_search.Catalog.Replay.{Same, view}
use local_search.Catalog.Consistency.{
  AcknowledgedLast, unread, Towards, IsWritten, prepare-IsWritten, committed-Towards,
  acknowledge-Last, Acknowledged-Towards,
}

module _ (t : Tantivy) (laws : Lawful t) (index : Index) (documents : List DocumentRow)
    (generation : ℕ) where
  ended-Towards :
      {A : Type 0} (value : A) (w : World t) (written : Written t)
      (r : ProjectionWorkerResult FilesystemGraph) (h : Towards t laws index documents generation w)
      → IsWritten t laws (unread h.0.last_sequence w.graph) h.1 (some written)
      → Ensures (AcknowledgedLast t laws written.batch generation w.graph) r
      → Towards t laws index documents generation
          (acknowledged t value (publish generation written.store w) r).0
  ended-Towards value w written (err error) h k l =
      committed-Towards t laws index documents generation w written h k
  ended-Towards value w written (ok g') h k (last, (l, at)) =
      Acknowledged-Towards t laws index documents generation last w written g' h k l at

  commit_batch-Towards :
      (a : Attempt) (w : World t) (written : Written t) (commits : CatalogIndexResult (Unit {0}))
      (h : Towards t laws index documents generation w)
      → IsWritten t laws (unread h.0.last_sequence w.graph) h.1 (some written)
      → Towards t laws index documents generation (commit_batch t a generation written w commits).0
  commit_batch-Towards a w written (err error) h k = h
  commit_batch-Towards a w written (ok u) h k =
      ended-Towards _ w written (acknowledge t a generation written.batch w.graph) h k
        (acknowledge-Last t laws a generation written.batch w.graph)

  commit_prepared-Towards :
      (a : Attempt) (w : World t) (r : ProjectionWorkerResult (Option (Written t)))
      (h : Towards t laws index documents generation w)
      → Ensures (IsWritten t laws (unread h.0.last_sequence w.graph) h.1) r
      → Towards t laws index documents generation (commit_prepared t a generation w r).0
  commit_prepared-Towards a w (err error) h k = h
  commit_prepared-Towards a w (ok none) h k = h
  commit_prepared-Towards a w (ok (some written)) h k =
      commit_batch-Towards a w written a.commits h k

  -- A turn of the loop keeps the index that the generation comes to.
  project_batch-Towards :
      (options : ProjectionWorkerOptions) (a : Attempt) (w : World t)
      → Towards t laws index documents generation w
      → Towards t laws index documents generation (project_batch t options a generation w).0
  unfolding project_batch
  project_batch-Towards options a w h =
      commit_prepared-Towards a w (prepare t options a generation w) h
        (prepare-IsWritten t laws options a generation w h.0 h.1 h.2.0 h.2.2)

  after_turn-Towards :
      (counts : Counts t) (rest : World t → Counts t → World t × ProjectionWorkerResult (Counts t))
      (r : World t × ProjectionWorkerResult (Option ℕ))
      → Towards t laws index documents generation r.0
      → ((w : World t) (counts : Counts t)
          → Towards t laws index documents generation w
          → Towards t laws index documents generation (rest w counts).0)
      → Towards t laws index documents generation (after_turn t counts rest r).0
  after_turn-Towards counts rest (w, err error) h k = h
  after_turn-Towards counts rest (w, ok none) h k = h
  after_turn-Towards counts rest (w, ok (some applied)) h k = k w _ h

  project-Towards :
      (left : ℕ) (options : ProjectionWorkerOptions) (run : Run) (w : World t) (counts : Counts t)
      → Towards t laws index documents generation w
      → Towards t laws index documents generation (project t left options run generation w counts).0
  unfolding project
  project-Towards zero options run w counts h = h
  project-Towards (suc left) options run w counts h =
      elim (Bool-cases (leb options.maximum_run_time (run.elapsed counts.0))) [
        | inl e ↦ rw e h
        | inr e ↦ rw e (
            after_turn-Towards counts (project t left options run generation)
              (project_batch t options (run.batch counts.0) generation w)
              (project_batch-Towards options (run.batch counts.0) w h)
              (project-Towards left options run))
      ]

  -- No row is beyond the greatest sequence.
  select-greatest :
      (last : ℕ) (rows : List OutboxRow)
      → greatest (map (λ r. r.sequence) rows) ≤ last
      → select (beyond last) rows ≡ []
  select-greatest last [] h = refl
  select-greatest last (r ∷ rs) h = ground (arith, h, select-greatest last rs (ground (arith, h)))

  -- The run has left rows to read, or the generation is the index.
  abbrev pub Reached : World t → ProjectionRunSummary → Type 0
  Reached w summary =
      (summary.backlog_remaining ≡ true)
      ⊎ ((s : t.Store) × ((generation_at generation w.generations ≡ some s)
            × Same (view t s) index))

  summarize-Reached :
      (recovery : RecoveryKind) (counts : Counts t) (w : World t)
      → Towards t laws index documents generation w
      → Ensures (Reached w) (summarize t recovery generation counts w.graph)
  unfolding summarize latest_outbox_sequence
  summarize-Reached recovery counts w
        (c, s, (known, active, there, numbered, behind, kept, toward)) =
      bind-Ensures (Reached w) (ok_or (projector_checkpoint catalog_schema_id w.graph) _) _ λ c' e.
        let both : some c' ≡ some c =
          sym (ok_of-ok_or (projector_checkpoint catalog_schema_id w.graph) _ e) ∙ known in
        let same : c' ≡ c = cc both in
        elim (Bool-cases (ltb c'.last_sequence (latest_outbox_sequence w.graph))) [
          | inl more ↦ inl more
          | inr all ↦
              let none_left : unread c.last_sequence w.graph ≡ [] =
                select-greatest c.last_sequence w.graph.outbox (ground (arith, all, same)) in
              inr (
                s,
                (there, λ id. ap (λ rows. replay rows (view t s) id) (sym none_left) ∙ toward id),
              )
        ]

  summarized-Reached :
      (recovery : RecoveryKind) (r : World t × ProjectionWorkerResult (Counts t))
      → Towards t laws index documents generation r.0
      → let q = summarized t recovery generation r in
        Towards t laws index documents generation q.0 × Ensures (Reached q.0) q.1
  summarized-Reached recovery (w, err error) h = (h, tt)
  summarized-Reached recovery (w, ok counts) h = (h, summarize-Reached recovery counts w h)

  run_in-Reached :
      (encoding : Encoding) (options : ProjectionWorkerOptions) (run : Run) (w : World t)
      (root : ProjectionWorkerResult (Unit {0}))
      → Towards t laws index documents generation w
      → run.recovery.opens ≡ ok tt
      → let q = run_in t encoding options run w root in
        Towards t laws index documents generation q.0 × Ensures (Reached q.0) q.1
  unfolding recover open_index
  run_in-Reached encoding options run w (err error) h opens = (h, tt)
  run_in-Reached encoding options run w (ok u) h opens =
      let (c, s, (known, active, there, numbered, behind, kept, toward)) = h in
      let opened : is_ok (open_index t run.recovery generation w.generations) ≡ true =
        rw (opens, there) refl in
      let recovered : recover t encoding options run.recovery w
          ≡ (w, ok (RecoveryKind.existing_generation, generation)) =
        ap (λ o. recover_from t encoding options run.recovery o w) known
        ∙ rw (active, opened) refl in
      subst
        (λ (r : World t × ProjectionWorkerResult (RecoveryKind × ℕ)).
          let q = project_recovered t options run r in
          Towards t laws index documents generation q.0 × Ensures (Reached q.0) q.1)
        (sym recovered)
        (summarized-Reached RecoveryKind.existing_generation _
          (project-Towards options.maximum_batches options run w (0, 0) h))

-- Let a consumer's generation be active and open, and with the outbox's rows that the consumer has
-- still to read come to an index. Whatever fails in a run, also after a commit and before its
-- acknowledgement, the generation is still active and with the rows that are then to be read comes
-- to the same index; and where a run succeeds without a backlog, the generation is that index.
pub run_worker-Reached :
    (t : Tantivy) (laws : Lawful t) (encoding : Encoding) (options : ProjectionWorkerOptions)
    (run : Run) (index : Index) (documents : List DocumentRow) (generation : ℕ) (w : World t)
    → Towards t laws index documents generation w
    → run.recovery.opens ≡ ok tt
    → let q = run_worker t encoding options run w in
      Towards t laws index documents generation q.0
      × Ensures (Reached t laws index documents generation q.0) q.1
unfolding run_worker
run_worker-Reached t laws encoding options run index documents generation w h opens =
    run_in-Reached t laws index documents generation encoding options run w run.creates_root h opens

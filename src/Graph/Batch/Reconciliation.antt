-- ===== src/Graph/Batch/Reconciliation.antt =====
-- The batch that records a lost history (crates/filesystem-graph/src/store.rs).
use local_search.Prelude.{
  ℕ, ◌≡◌, refl, Bool, true, false, not, Option, none, some, List, [], ◌∷◌, ◌++◌, length, ◌==◌,
  arith, Ensures, bind-Ensures, Bool-cases, inl, inr,
}
use local_search.Core.Ids.{VolumeId}
use local_search.Core.Models.{ReconciliationReason}
use local_search.Platform.{ProviderCheckpoint}
use local_search.Graph.Rows.{select, find, exists, update, upsert}
use local_search.Graph.Types.{VolumeState, GraphMutation, ApplySummary, validate}
use local_search.Graph.Tables.{
  VolumeRow, SessionRow, FilesystemGraph, of_volume, checked_add_one, generation_of, set_generation,
  save_checkpoint, checkpoint, enqueue_volume_projection_refresh,
}
use local_search.Graph.Projection.{Encoding, durable}
use local_search.Graph.Batch.{
  require_single_update, change_volume, apply_mutation, insert_all, affected_links, apply_mutations,
  close_batch, sync_all, run_batch,
}

-- The state of a volume's row is kept by a change that keeps it, and given by one that gives it.
abbrev pub HasState : VolumeState → Option VolumeRow → Type 0
HasState state none = ⊥
HasState state (some row) = row.state ≡ state

pub find-upsert :
    {A : Type 0} (p : A → Bool) (a : A) (rows : List A)
    → p a ≡ true
    → find p (upsert p (λ _. a) a rows) ≡ some a
find-upsert p a rows h = elim (Bool-cases (exists p rows)) [
  | inl e ↦ rw e (updated rows e)
  | inr e ↦ rw e (appended rows e)
]
  where
    updated : (rows : List _) → exists p rows ≡ true → find p (update p (λ _. a) rows) ≡ some a
    updated [] e = ground (arith, e)
    updated (r ∷ rs) e = ground (arith, e, h, updated rs)

    appended : (rows : List _) → exists p rows ≡ false → find p (rows ++ a ∷ []) ≡ some a
    appended [] e = ground (arith, h)
    appended (r ∷ rs) e = ground (arith, e, h, appended rs)

module _ (volume_id : VolumeId) where
  abbrev mark : ReconciliationReason → VolumeRow → VolumeRow
  mark reason row = record row {
    state = VolumeState.needs_reconciliation;
    reconciliation_reason = some reason;
  }

  abbrev date : ℕ → VolumeRow → VolumeRow
  date generation row = record row { generation = generation }

  find-marked :
      (reason : ReconciliationReason) (generation : ℕ) (rows : List VolumeRow)
      → not (length (select (of_volume volume_id) rows) == 1) ≡ false
      → HasState VolumeState.needs_reconciliation (
          find (of_volume volume_id) (
            update
              (of_volume volume_id)
              (date generation)
              (update (of_volume volume_id) (mark reason) rows)))
  find-marked reason generation [] h = ground (arith, h)
  find-marked reason generation (r ∷ rs) h = elim (Bool-cases (of_volume volume_id r)) [
    | inl e ↦ rw (e, e, e) refl
    | inr e ↦ rw (e, e, e) (find-marked reason generation rs (ground (arith, h, e)))
  ]

-- The volume needs reconciliation, keeps the checkpoint, and no session has changed.
abbrev pub IsLost : VolumeId → ProviderCheckpoint → List SessionRow → FilesystemGraph → Type 0
IsLost volume_id source sessions g =
    HasState VolumeState.needs_reconciliation (find (of_volume volume_id) g.volumes)
    × (checkpoint volume_id g ≡ some source)
    × (g.sessions ≡ sessions)

abbrev pub LostBatch :
    ProviderCheckpoint → List SessionRow → FilesystemGraph × ApplySummary → Type 0
LostBatch source sessions p = IsLost source.volume_id source sessions p.0

close-IsLost :
    (reason : ReconciliationReason) (generation : ℕ) (source : ProviderCheckpoint)
    (ms : List GraphMutation) (g g' : FilesystemGraph) (summary : ApplySummary)
    → not (length (select (of_volume source.volume_id) g.volumes) == 1) ≡ false
    → g'.volumes ≡ update (of_volume source.volume_id) (mark source.volume_id reason) g.volumes
    → g'.sessions ≡ g.sessions
    → Ensures (LostBatch source g.sessions) (
        close_batch
          (record { volume_id = source.volume_id; checkpoint = source; mutations = ms })
          generation
          g'
          summary)
unfolding close_batch set_generation save_checkpoint checkpoint
close-IsLost reason generation source ms g g' summary one marked same =
    bind-Ensures (LostBatch source g.sessions)
      (require_single_update (length (select (of_volume source.volume_id) g'.volumes)) _) _
      λ u r. (
        rw marked (find-marked source.volume_id reason generation g.volumes one),
        find-upsert (λ row. row.volume_id == source.volume_id) source _ (ground arith),
        same,
      )

-- A batch that asks for reconciliation of its volume, if it succeeds, leaves the volume in need of
-- it, with the checkpoint and the sessions that it had.
pub lose-IsLost :
    (encoding : Encoding) (source : ProviderCheckpoint) (reason : ReconciliationReason)
    (g : FilesystemGraph)
    → Ensures (LostBatch source g.sessions) (
        run_batch encoding
          (record {
            volume_id = source.volume_id;
            checkpoint = source;
            mutations = GraphMutation.require_reconciliation source.volume_id reason ∷ [];
          })
          durable
          g)
unfolding run_batch apply_mutations apply_mutation change_volume require_single_update insert_all
    affected_links sync_all enqueue_volume_projection_refresh
lose-IsLost encoding source reason g =
    bind-Ensures (LostBatch source g.sessions) (validate _) _ λ u r.
      bind-Ensures (LostBatch source g.sessions)
        (checked_add_one (generation_of source.volume_id g.volumes) _) _
        λ generation e.
          elim (Bool-cases (not (length (select (of_volume source.volume_id) g.volumes) == 1))) [
            | inl none_or_many ↦ rw none_or_many tt
            | inr one ↦ rw one (close-IsLost reason generation source _ g _ _ one refl refl)
          ]

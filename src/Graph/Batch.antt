-- ===== src/Graph/Batch.antt =====
-- Atomic batches: `apply_mutation`, `collect_affected_links` and `apply_batch_with_outbox_mode` of
-- crates/filesystem-graph/src/store.rs.
pub mod Frame
pub mod Follows
pub mod Live
pub mod Reconciliation
pub mod Writes
pub mod Grows
use local_search.Prelude.{
  ℕ, ◌+◌, ◌≡◌, Bool, true, false, not, ◌&&◌, ◌||◌, Option, none, some, List, [], ◌∷◌, ◌++◌, map,
  length, ltb, leb, ◌==◌, if◌then◌else◌, String, Result, ok, err, ◌>>=◌, ◌>>◌, reject_if, ok_or,
}
use local_search.Core.Ids.{VolumeId, FileLinkId, FileKey}
use local_search.Core.Models.{FilesystemEvent}
use local_search.Platform.{VolumeDescriptor, ProviderCheckpoint}
use local_search.Graph.Rows.{select, exists, find, delete, update, upsert}
use local_search.Graph.Types.{
  GraphError, GraphResult, VolumeState, GraphMutation, GraphMutationBatch, ApplySummary, from_event,
  validate,
}
use local_search.Graph.Tables.{
  VolumeRow, LinkRow, DocumentRow, FilesystemGraph, key_eq, of_volume, links_to, checked_add_one,
  generation_of, set_generation, upsert_volume, save_checkpoint, enqueue_volume_projection_refresh,
}
use local_search.Graph.Links.{
  upsert_object, upsert_link, remove_link, tombstone_object, stale_observation_link_conflicts,
}
use local_search.Graph.Projection.{
  ProjectionOutboxMode, durable, rebuildable, Encoding, sync_catalog_projection,
}

unfoldable pub require_single_update : ℕ → String → GraphResult (Unit {0})
require_single_update updated message =
    reject_if (not (updated == 1)) (GraphError.invariant message)

-- `UPDATE graph_volumes … WHERE volume_id`, refused unless it meets one row, and the refresh of the
-- volume's documents
unfoldable pub change_volume :
    VolumeId
    → (VolumeRow → VolumeRow)
    → String
    → ℕ
    → FilesystemGraph
    → GraphResult (FilesystemGraph × ℕ)
change_volume volume_id change message generation g = do
  require_single_update (length (select (of_volume volume_id) g.volumes)) message
  ok (
    enqueue_volume_projection_refresh volume_id generation
        (record g { volumes = update (of_volume volume_id) change g.volumes }),
    1,
  )

abbrev with_no_jobs : GraphResult FilesystemGraph → GraphResult (FilesystemGraph × ℕ)
with_no_jobs r = do g ← r; ok (g, 0)

unfoldable pub apply_mutation :
    GraphMutation → ℕ → FilesystemGraph → GraphResult (FilesystemGraph × ℕ)
apply_mutation (GraphMutation.upsert_volume descriptor) generation g =
    ok (upsert_volume descriptor g, 0)
apply_mutation (GraphMutation.set_volume_state volume_id state) generation g =
    change_volume volume_id (λ row. record row { state = state })
      "volume state update references an unknown volume" generation g
apply_mutation (GraphMutation.upsert_object object) generation g =
    with_no_jobs (upsert_object object generation g)
apply_mutation (GraphMutation.upsert_link link boundary) generation g =
    upsert_link link boundary generation g
apply_mutation (GraphMutation.remove_link id object) generation g =
    remove_link id object generation g
apply_mutation (GraphMutation.tombstone_object object) generation g =
    with_no_jobs (tombstone_object object g)
apply_mutation (GraphMutation.require_reconciliation volume_id reason) generation g =
    change_volume volume_id
      (λ row. record row {
        state = VolumeState.needs_reconciliation;
        reconciliation_reason = some reason;
      })
      "reconciliation references an unknown volume" generation g

-- BTreeSet::insert, on an ordered list
unfoldable pub insert : FileLinkId → List FileLinkId → List FileLinkId
insert id [] = id ∷ []
insert id (k ∷ ks) =
    let rest = insert id ks in
    if ltb id k then id ∷ k ∷ ks else if id == k then k ∷ ks else k ∷ rest

unfoldable pub insert_all : List FileLinkId → List FileLinkId → List FileLinkId
insert_all [] affected = affected
insert_all (id ∷ ids) affected = insert_all ids (insert id affected)

unfoldable pub object_link_ids : FileKey → FilesystemGraph → List FileLinkId
object_link_ids object g = map (λ l. l.file_link_id) (select (links_to object) g.links)

unfoldable pub affected_links : GraphMutation → FilesystemGraph → List FileLinkId
affected_links (GraphMutation.upsert_link link boundary) g =
    link.file_link_id ∷ map (λ c. c.0) (stale_observation_link_conflicts link g)
affected_links (GraphMutation.remove_link id object) g = id ∷ []
affected_links (GraphMutation.upsert_object object) g = object_link_ids object.object_key g
affected_links (GraphMutation.tombstone_object object) g =
    object_link_ids object g
    ++ map (λ d. d.file_link_id) (select (λ d. key_eq d.object_key object) g.documents)
affected_links _ g = []

-- The loop over the mutations: the graph, the refresh jobs, the affected links.
unfoldable pub apply_mutations :
    List GraphMutation
    → ℕ
    → FilesystemGraph
    → ℕ
    → List FileLinkId
    → GraphResult (FilesystemGraph × ℕ × List FileLinkId)
apply_mutations [] generation g jobs affected = ok (g, jobs, affected)
apply_mutations (m ∷ ms) generation g jobs affected = do
  (g', more) ← apply_mutation m generation g
  apply_mutations ms generation g' (jobs + more) (insert_all (affected_links m g) affected)

-- A transaction that fails leaves the graph as it was.
abbrev pub transact :
    {A : Type 0}
    → FilesystemGraph
    → GraphResult (FilesystemGraph × A)
    → FilesystemGraph × GraphResult A
transact g (ok (g', value)) = (g', ok value)
transact g (err error) = (g, err error)

abbrev pub refuses : ProjectionOutboxMode → FilesystemGraph → Bool
refuses durable g = false
refuses rebuildable g = not (length g.consumers == 0)

-- the end of the transaction: the volume's generation and its checkpoint
unfoldable pub close_batch :
    GraphMutationBatch
    → ℕ
    → FilesystemGraph
    → ApplySummary
    → GraphResult (FilesystemGraph × ApplySummary)
close_batch batch generation g summary = do
  require_single_update (length (select (of_volume batch.volume_id) g.volumes))
      "batch must upsert its volume before graph observations"
  ok (save_checkpoint batch.checkpoint (set_generation batch.volume_id generation g), summary)

module _ (encoding : Encoding) where
  -- The loop over the affected links: the graph, the rows that were appended.
  unfoldable pub sync_all :
      List FileLinkId
      → ℕ
      → ProjectionOutboxMode
      → FilesystemGraph
      → ℕ
      → GraphResult (FilesystemGraph × ℕ)
  sync_all [] generation mode g appended = ok (g, appended)
  sync_all (id ∷ ids) generation mode g appended = do
    (g', more) ← sync_catalog_projection encoding id generation mode g
    sync_all ids generation mode g' (appended + more)

  -- the transaction of `apply_batch_with_outbox_mode`
  unfoldable pub run_batch :
      GraphMutationBatch
      → ProjectionOutboxMode
      → FilesystemGraph
      → GraphResult (FilesystemGraph × ApplySummary)
  run_batch batch mode g = do
    validate batch
    reject_if (refuses mode g)
        (GraphError.invariant "rebuildable graph batch requires zero projection consumers")
    generation ← checked_add_one (generation_of batch.volume_id g.volumes) "graph generation"
    (changed, jobs, affected) ← apply_mutations batch.mutations generation g 0 []
    (synced, appended) ← sync_all affected generation mode changed 0
    close_batch batch generation synced (record {
      mutations = length batch.mutations;
      generation = generation;
      refresh_jobs_enqueued = jobs;
      outbox_mutations_appended = appended;
    })

  unfoldable pub apply_batch_with_outbox_mode :
      GraphMutationBatch
      → ProjectionOutboxMode
      → FilesystemGraph
      → FilesystemGraph × GraphResult ApplySummary
  apply_batch_with_outbox_mode batch mode g = transact g (run_batch batch mode g)

  unfoldable pub apply_batch :
      GraphMutationBatch → FilesystemGraph → FilesystemGraph × GraphResult ApplySummary
  apply_batch batch g = apply_batch_with_outbox_mode batch durable g

  unfoldable pub apply_rebuildable_batch :
      GraphMutationBatch → FilesystemGraph → FilesystemGraph × GraphResult ApplySummary
  apply_rebuildable_batch batch g = apply_batch_with_outbox_mode batch rebuildable g

  unfoldable pub ingest_snapshot :
      VolumeDescriptor
      → ProviderCheckpoint
      → List FilesystemEvent
      → FilesystemGraph
      → FilesystemGraph × GraphResult ApplySummary
  ingest_snapshot descriptor checkpoint events g =
      apply_batch
        (record {
          volume_id = descriptor.volume_id;
          checkpoint = checkpoint;
          mutations = GraphMutation.upsert_volume descriptor ∷ map from_event events;
        })
        g

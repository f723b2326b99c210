-- ===== src/Graph/Outbox.antt =====
-- The projection outbox and its consumers: reading, acknowledging and pruning, of
-- crates/filesystem-graph/src/store.rs. The outbox is kept in the order of its primary key, in which
-- AUTOINCREMENT appends and `ORDER BY sequence` reads.
pub mod Sequence
pub mod Unread
use local_search.Prelude.{
  ℕ, zero, suc, ◌+◌, ◌-◌, ◌≡◌, Bool, true, false, not, ◌&&◌, ◌||◌, Option, none, some, List, [],
  ◌∷◌, ◌++◌, map, length, take, ltb, leb, ◌==◌, if◌then◌else◌, is_some_and, max, min, Result, ok,
  err, ◌>>=◌, ◌>>◌, reject_if, ok_or,
}
use local_search.Core.Models.{Text, SequencedMutation, MutationBatch}
use local_search.Graph.Rows.{select, exists, find, delete, update, upsert}
use local_search.Graph.Types.{
  GraphError, GraphResult, ProjectorCheckpoint, OutboxMaintenanceSummary,
}
use local_search.Graph.Tables.{OutboxRow, FilesystemGraph, text_eq, try_i64}

abbrev pub beyond : ℕ → OutboxRow → Bool
beyond after row = ltb after row.sequence

abbrev pub cursor : Option ℕ → ℕ
cursor none = 0
cursor (some sequence) = sequence

abbrev pub sequenced : OutboxRow → SequencedMutation
sequenced row = record { sequence = row.sequence; mutation = row.mutation }

unfoldable pub read_outbox : Option ℕ → ℕ → FilesystemGraph → GraphResult MutationBatch
read_outbox sequence limit g = do
  after ← try_i64 (cursor sequence) "outbox cursor"
  ok (record { mutations = map sequenced (take limit (select (beyond after) g.outbox)) })

-- coalesce(max(…), 0)
abbrev pub greatest : List ℕ → ℕ
greatest [] = 0
greatest (n ∷ ns) = max n (greatest ns)

unfoldable pub latest_outbox_sequence : FilesystemGraph → ℕ
latest_outbox_sequence g =
    max (greatest (map (λ r. r.sequence) g.outbox))
      (max (greatest (map (λ c. c.last_sequence) g.consumers)) g.sequence)

abbrev pub of_consumer : Text → ProjectorCheckpoint → Bool
of_consumer consumer_id row = text_eq row.consumer_id consumer_id

unfoldable pub projector_checkpoint : Text → FilesystemGraph → Option ProjectorCheckpoint
projector_checkpoint consumer_id g = find (of_consumer consumer_id) g.consumers

abbrev pub write_consumer : ProjectorCheckpoint → FilesystemGraph → FilesystemGraph
write_consumer row g = record g {
  consumers =
      upsert (of_consumer row.consumer_id)
        (λ old. record old {
          last_sequence = row.last_sequence;
          index_generation = row.index_generation;
        })
        row g.consumers;
}

unfoldable pub acknowledge_projection : Text → ℕ → ℕ → FilesystemGraph → GraphResult FilesystemGraph
acknowledge_projection consumer_id last_sequence index_generation g = do
  reject_if (ltb (latest_outbox_sequence g) last_sequence)
      (GraphError.invariant "projector checkpoint cannot advance beyond durable outbox")
  reject_if
      (is_some_and (projector_checkpoint consumer_id g)
        (λ current. ltb last_sequence current.last_sequence))
      (GraphError.invariant "projector checkpoint cannot move backwards")
  sequence ← try_i64 last_sequence "projector sequence"
  generation ← try_i64 index_generation "index generation"
  ok (
      write_consumer
        (record {
          consumer_id = consumer_id;
          last_sequence = sequence;
          index_generation = generation;
        })
        g)

unfoldable pub reset_projection_consumer : Text → FilesystemGraph → FilesystemGraph × Bool
reset_projection_consumer consumer_id g = (
  record g { consumers = delete (of_consumer consumer_id) g.consumers },
  exists (of_consumer consumer_id) g.consumers,
)

-- SELECT min(last_sequence)
abbrev pub lesser : ProjectorCheckpoint → Option ℕ → Option ℕ
lesser c (some n) = some (min c.last_sequence n)
lesser c none = some c.last_sequence

abbrev pub least : List ProjectorCheckpoint → Option ℕ
least [] = none
least (c ∷ []) = some c.last_sequence
least (c ∷ d ∷ cs) = lesser c (least (d ∷ cs))

abbrev pub through : ℕ → OutboxRow → Bool
through last row = leb row.sequence last

abbrev pub prune_through : Option ℕ → FilesystemGraph → FilesystemGraph × ℕ
prune_through none g = (g, 0)
prune_through (some minimum) g = (
  record g { outbox = delete (through minimum) g.outbox },
  length (select (through minimum) g.outbox),
)

unfoldable pub prune_consumed_outbox : FilesystemGraph → FilesystemGraph × ℕ
prune_consumed_outbox g = prune_through (least g.consumers) g

unfoldable pub consumed_outbox_maintenance_pending : FilesystemGraph → Bool
consumed_outbox_maintenance_pending g =
    is_some_and (least g.consumers) (λ minimum. exists (through minimum) g.outbox)

-- DELETE … IN (SELECT … ORDER BY sequence LIMIT): the first rows of a kind
unfoldable pub delete_first : ℕ → (OutboxRow → Bool) → List OutboxRow → List OutboxRow
delete_first n p [] = []
delete_first zero p (r ∷ rs) = r ∷ rs
delete_first (suc n) p (r ∷ rs) = if p r then delete_first n p rs else r ∷ delete_first (suc n) p rs

-- `sqlite_sequence` has no entry before the first row of the outbox.
abbrev pub safe_through : Bool → Option ℕ → ℕ → Option ℕ
safe_through allow_without_consumers (some minimum) sequence = some minimum
safe_through true none sequence = if sequence == 0 then none else some sequence
safe_through false none sequence = none

abbrev pub prune_bounded :
    ℕ → FilesystemGraph → Option ℕ → FilesystemGraph × OutboxMaintenanceSummary
prune_bounded maximum_rows g none =
    (g, record { safe_through_sequence = none; deleted_rows = 0; backlog_remaining = false })
prune_bounded maximum_rows g (some safe) =
    let kept = delete_first maximum_rows (through safe) g.outbox in
    (
      record g { outbox = kept },
      record {
        safe_through_sequence = some safe;
        deleted_rows = length g.outbox - length kept;
        backlog_remaining = exists (through safe) kept;
      },
    )

unfoldable pub prune_rebuildable_outbox_bounded :
    ℕ → Bool → FilesystemGraph → GraphResult (FilesystemGraph × OutboxMaintenanceSummary)
prune_rebuildable_outbox_bounded maximum_rows allow_without_consumers g = do
  reject_if (maximum_rows == 0 || ltb 100000 maximum_rows)
      (GraphError.invalid_batch "outbox maintenance bound must be between 1 and 100000")
  ok (
      prune_bounded maximum_rows g
        (safe_through allow_without_consumers (least g.consumers) g.sequence))

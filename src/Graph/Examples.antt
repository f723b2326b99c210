-- ===== src/Graph/Examples.antt =====
-- Runs of the graph on concrete volumes (crates/filesystem-graph/src/store.rs).
use local_search.Prelude.{
  ℕ, ◌≡◌, refl, true, false, none, some, List, [], ◌∷◌, length, ok, Ensures, ◌↔◌,
}
use local_search.Core.Ids.{FileKey}
use local_search.Core.Models.{
  Availability, FileKind, FileObjectSnapshot, FileLinkSnapshot, ReconciliationReason,
  FilesystemEvent, IndexMutation,
}
use local_search.Platform.{VolumeDescriptor, ProviderCheckpoint}
use local_search.Graph.Types.{
  VolumeState, ObservationScanMode, GraphMutation, GraphMutationBatch, ResolvedPath,
  ProjectorCheckpoint, from_events,
}
use local_search.Graph.Tables.{ObjectRow, LinkRow, OutboxRow, FilesystemGraph}
use local_search.Graph.Links.LiveRows.{LinksLive}
use local_search.Graph.Paths.{
  load_only_link_for_object, walk, resolve_path_connection, resolve_path,
}
use local_search.Graph.Paths.Complete.{Resolves, resolve_path_iff}
use local_search.Graph.Projection.{Encoding, durable}
use local_search.Graph.Projection.Replay.{Index}
use local_search.Graph.Batch.{apply_batch}
use local_search.Graph.Batch.Follows.{FollowsCall, apply_batch-Follows}
use local_search.Graph.Refresh.{refresh_projection_paths, refresh_volume_projection}
use local_search.Graph.Refresh.Follows.{FollowsRefresh, refresh-Follows}
use local_search.Graph.Outbox.{
  projector_checkpoint, read_outbox, prune_consumed_outbox, prune_rebuildable_outbox_bounded,
}
use local_search.Graph.Outbox.Unread.{read_outbox-prune}
use local_search.Graph.Operations.{Operation, empty_graph, run}
use local_search.Graph.Sweep.{sweep_stale_observation_links}
use local_search.Graph.Sweep.Complete.{Swept, sweep_stale_links-Swept}
use local_search.Graph.Operations.Batches.{Readable, read_outbox-validate}
use local_search.Graph.Operations.Reachable.{run-reaches-LinksLive}

abbrev pub sample_encoding : Encoding
sample_encoding = record {
  fingerprint = λ content. length content.resolved_path;
  to_lowercase = λ text. text;
}

abbrev key_at : ℕ → FileKey
key_at file_id = record { volume_id = 7; file_id = file_id }

abbrev drive : VolumeDescriptor
drive = record {
  volume_id = 7;
  display_name = none;
  mount_points = [];
  filesystem = none;
  removable = false;
  local = true;
}

abbrev checkpoint_7 : ProviderCheckpoint
checkpoint_7 = record { provider_id = 119 ∷ []; format_version = 1; volume_id = 7; opaque = [] }

abbrev snapshot_of : ℕ → FileKind → FileObjectSnapshot
snapshot_of file_id kind = record {
  object_key = key_at file_id;
  metadata = record {
    kind = kind;
    size = 10;
    created_at_unix_ms = none;
    modified_at_unix_ms = none;
    hidden = false;
    availability = Availability.online;
  };
}

abbrev root_link : FileLinkSnapshot
root_link = record { file_link_id = 1; object_key = key_at 10; parent_key = none; name = 100 ∷ [] }

abbrev child_link : FileLinkSnapshot
child_link = record {
  file_link_id = 2;
  object_key = key_at 11;
  parent_key = some (key_at 10);
  name = 97 ∷ 46 ∷ 116 ∷ [];
}

abbrev observed : List FilesystemEvent
observed =
    FilesystemEvent.object_observed (snapshot_of 10 FileKind.directory)
    ∷ FilesystemEvent.object_observed (snapshot_of 11 FileKind.file)
    ∷ FilesystemEvent.link_observed root_link
    ∷ FilesystemEvent.link_observed child_link
    ∷ []

abbrev pub first_batch : GraphMutationBatch
first_batch =
    let events = from_events 7 checkpoint_7 observed in
    record events { mutations = GraphMutation.upsert_volume drive ∷ events.mutations }

abbrev nothing : Index
nothing id = none

apply_batch-Follows_example :
    FollowsCall sample_encoding empty_graph nothing
      (apply_batch sample_encoding first_batch empty_graph)
apply_batch-Follows_example =
    apply_batch-Follows sample_encoding first_batch empty_graph nothing (λ id. tt)

abbrev row_of : FileLinkSnapshot → LinkRow
row_of link = record {
  file_link_id = link.file_link_id;
  object_key = link.object_key;
  parent_key = link.parent_key;
  name = link.name;
  traversal_boundary = false;
  observation_generation = 1;
}

abbrev linked : FilesystemGraph
linked = record empty_graph { links = row_of root_link ∷ row_of child_link ∷ [] }

abbrev object_of : FileObjectSnapshot → ObjectRow
object_of object = record {
  object_key = object.object_key;
  metadata = object.metadata;
  tombstoned = false;
  observation_generation = 1;
}

abbrev waiting : FilesystemGraph
waiting = record linked {
  volumes =
      record {
        descriptor = drive;
        state = VolumeState.online;
        reconciliation_reason = none;
        generation = 1;
      }
      ∷ [];
  objects =
      object_of (snapshot_of 10 FileKind.directory) ∷ object_of (snapshot_of 11 FileKind.file) ∷ [];
  path_jobs =
      record {
        job_id = 1;
        root_object = key_at 10;
        enqueued_generation = 1;
        cursor = none;
        pending = true;
      }
      ∷ [];
}

refresh-Follows_example :
    FollowsRefresh sample_encoding waiting nothing
      (refresh_projection_paths sample_encoding 10 waiting)
    × FollowsRefresh sample_encoding waiting nothing
        (refresh_volume_projection sample_encoding 10 waiting)
refresh-Follows_example = refresh-Follows sample_encoding 10 waiting nothing (λ id. tt)

abbrev child_path : ResolvedPath
child_path = record { components = (100 ∷ []) ∷ (97 ∷ 46 ∷ 116 ∷ []) ∷ [] }

resolve_path_test : resolve_path linked 2 64 ≡ ok child_path
unfolding resolve_path resolve_path_connection walk load_only_link_for_object
resolve_path_test = refl

resolve_path_iff_example :
    (resolve_path linked 2 64 ≡ ok child_path) ↔ Resolves linked 2 64 child_path.components
resolve_path_iff_example = resolve_path_iff linked 2 64 child_path

abbrev outbox_row : ℕ → OutboxRow
outbox_row sequence = record {
  sequence = sequence;
  document_id = 2;
  document_version = sequence;
  mutation = IndexMutation.delete 2 sequence;
}

abbrev catalog : ProjectorCheckpoint
catalog = record { consumer_id = 99 ∷ []; last_sequence = 1; index_generation = 0 }

abbrev consumed : FilesystemGraph
consumed = record empty_graph {
  outbox = outbox_row 1 ∷ outbox_row 2 ∷ [];
  sequence = 2;
  consumers = catalog ∷ [];
}

read_outbox-prune_example :
    (read_outbox (some 1) 10 (prune_consumed_outbox consumed).0 ≡ read_outbox (some 1) 10 consumed)
    × Ensures
        (λ p. read_outbox (some 1) 10 p.0 ≡ read_outbox (some 1) 10 consumed)
        (prune_rebuildable_outbox_bounded 5 false consumed)
unfolding projector_checkpoint
read_outbox-prune_example = read_outbox-prune (99 ∷ []) catalog 10 5 false consumed refl

abbrev calls : List Operation
calls =
    Operation.batch first_batch durable
    ∷ Operation.begin drive ObservationScanMode.reconcile ReconciliationReason.event_overflow
    ∷ Operation.page 7 observed
    ∷ Operation.stage 7 checkpoint_7
    ∷ Operation.finalize 7 100
    ∷ Operation.finalize 7 100
    ∷ Operation.refresh_volume 100
    ∷ []

run-reaches-LinksLive_example : LinksLive (run sample_encoding calls empty_graph)
run-reaches-LinksLive_example = run-reaches-LinksLive sample_encoding calls

read_outbox-validate_example :
    Ensures Readable (read_outbox (some 1) 10 (run sample_encoding calls empty_graph))
read_outbox-validate_example = read_outbox-validate sample_encoding calls (some 1) 10

sweep_stale_links-Swept_example :
    Ensures
      (λ p. Swept 7 2 5 waiting.links p.0.links p.1)
      (sweep_stale_observation_links sample_encoding 7 2 3 5 waiting)
sweep_stale_links-Swept_example = sweep_stale_links-Swept 7 2 sample_encoding 3 5 waiting

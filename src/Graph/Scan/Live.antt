-- ===== src/Graph/Scan/Live.antt =====
-- No link of the graph leads to a tombstoned object: scans
-- (crates/filesystem-graph/src/store.rs).
use local_search.Prelude.{not, ◌==◌, ok, err, Ensures, bind-Ensures, Bool-cases, inl, inr}
use local_search.Core.Ids.{VolumeId}
use local_search.Core.Models.{ReconciliationReason}
use local_search.Platform.{VolumeDescriptor, ProviderCheckpoint}
use local_search.Graph.Types.{GraphResult, ObservationScanMode}
use local_search.Graph.Tables.{
  FilesystemGraph, checked_add_one, generation_of, upsert_volume, enqueue_volume_projection_refresh,
}
use local_search.Graph.Links.LiveRows.{LinksLive}
use local_search.Graph.Batch.{transact}
use local_search.Graph.Scan.{begin_scan, stage_observation_checkpoint}

pub begin_scan-LinksLive :
    (descriptor : VolumeDescriptor) (mode : ObservationScanMode) (reason : ReconciliationReason)
    (g : FilesystemGraph)
    → LinksLive g
    → Ensures (λ p. LinksLive p.0) (begin_scan descriptor mode reason g)
unfolding begin_scan upsert_volume enqueue_volume_projection_refresh
begin_scan-LinksLive descriptor mode reason g h =
    bind-Ensures (λ p. LinksLive p.0)
      (checked_add_one (generation_of descriptor.volume_id g.volumes) _) _ λ n e. h

pub transact-LinksLive :
    {A : Type 0} (g : FilesystemGraph) (r : GraphResult (FilesystemGraph × A))
    → LinksLive g
    → Ensures (λ p. LinksLive p.0) r
    → LinksLive (transact g r).0
transact-LinksLive g (ok p) h k = k
transact-LinksLive g (err error) h k = h

pub stage-LinksLive :
    (volume_id : VolumeId) (checkpoint : ProviderCheckpoint) (g : FilesystemGraph)
    → LinksLive g
    → LinksLive (stage_observation_checkpoint volume_id checkpoint g).0
unfolding stage_observation_checkpoint
stage-LinksLive volume_id checkpoint g h =
    elim (Bool-cases (not (checkpoint.volume_id == volume_id))) [ inl e ↦ rw e h | inr e ↦ rw e h ]

-- ===== src/Graph/Refresh.antt =====
-- Deferred refreshes of the desired catalog, a bounded page for each call
-- (crates/filesystem-graph/src/store.rs).
pub mod Follows
pub mod Live
use local_search.Prelude.{
  ℕ, ◌+◌, ◌≡◌, Bool, true, false, not, ◌&&◌, ◌||◌, Option, none, some, List, [], ◌∷◌, map, length,
  take, ltb, leb, ◌==◌, if◌then◌else◌, Result, ok, err, ◌>>=◌, ok_or,
}
use local_search.Core.Ids.{VolumeId, FileLinkId, FileKey}
use local_search.Graph.Rows.{select, exists, find, update, order_by}
use local_search.Graph.Types.{GraphError, GraphResult, PathRefreshJob, ProjectionRefreshSummary}
use local_search.Graph.Tables.{
  LinkRow, DocumentRow, PathRefreshRow, VolumeRefreshRow, FilesystemGraph, of_volume,
}
use local_search.Graph.Projection.{Encoding, ProjectionOutboxMode}
use local_search.Graph.Batch.{transact, sync_all}

abbrev as_job : PathRefreshRow → PathRefreshJob
as_job row = record {
  job_id = row.job_id;
  volume_id = row.root_object.volume_id;
  root_object = row.root_object;
  enqueued_generation = row.enqueued_generation;
}

unfoldable pub pending_refresh_jobs : ℕ → FilesystemGraph → List PathRefreshJob
pending_refresh_jobs limit g = map as_job (take limit (select (λ j. j.pending) g.path_jobs))

-- `file_link_id > ?2`, where there is a cursor
abbrev past : Option FileLinkId → FileLinkId → Bool
past none id = true
past (some cursor) id = ltb cursor id

-- The identities of a page, in their order.
unfoldable pub page_of : ℕ → Option FileLinkId → List FileLinkId → List FileLinkId
page_of maximum_links cursor ids =
    take maximum_links (order_by (λ id. 0) (λ id. id) (select (past cursor) ids))

unfoldable pub link_ids : VolumeId → FilesystemGraph → List FileLinkId
link_ids volume_id g =
    map (λ (l : LinkRow). l.file_link_id)
      (select (λ l. l.object_key.volume_id == volume_id) g.links)

unfoldable pub document_link_ids : VolumeId → FilesystemGraph → List FileLinkId
document_link_ids volume_id g =
    map (λ (d : DocumentRow). d.file_link_id)
      (select (λ d. d.object_key.volume_id == volume_id) g.documents)

abbrev pub last_of : List FileLinkId → Option FileLinkId
last_of [] = none
last_of (id ∷ []) = some id
last_of (id ∷ next ∷ ids) = last_of (next ∷ ids)

abbrev advance_path : Bool → Option FileLinkId → PathRefreshRow → PathRefreshRow
advance_path true last row = record row { pending = false }
advance_path false (some last) row = record row { cursor = some last }
advance_path false none row = row

abbrev advance_volume : Bool → Option FileLinkId → VolumeRefreshRow → VolumeRefreshRow
advance_volume true last row = record row { pending = false }
advance_volume false (some last) row = record row { cursor = some last }
advance_volume false none row = row

unfoldable pub advance_path_job : ℕ → Bool → Option FileLinkId → FilesystemGraph → FilesystemGraph
advance_path_job job_id complete last g = record g {
  path_jobs = update (λ j. j.job_id == job_id) (advance_path complete last) g.path_jobs;
}

unfoldable pub advance_volume_job :
    VolumeId → Bool → Option FileLinkId → FilesystemGraph → FilesystemGraph
advance_volume_job volume_id complete last g = record g {
  volume_jobs = update (λ j. j.volume_id == volume_id) (advance_volume complete last) g.volume_jobs;
}

abbrev pub no_refresh : ProjectionRefreshSummary
no_refresh = record { links_scanned = 0; outbox_mutations_appended = 0; job_completed = false }

abbrev first_of : List VolumeRefreshRow → Option VolumeRefreshRow
first_of [] = none
first_of (j ∷ js) = some j

unfoldable pub first_volume_job : FilesystemGraph → Option VolumeRefreshRow
first_volume_job g = first_of (
    order_by (λ j. 0) (λ (j : VolumeRefreshRow). j.volume_id)
      (select (λ j. j.pending) g.volume_jobs))

module _ (encoding : Encoding) where
  -- A page of links under the generation of their volume, and the step of its job.
  unfoldable pub refresh_page :
      VolumeId
      → List FileLinkId
      → ℕ
      → (Bool → Option FileLinkId → FilesystemGraph → FilesystemGraph)
      → FilesystemGraph
      → GraphResult (FilesystemGraph × ProjectionRefreshSummary)
  refresh_page volume_id links maximum_links advance g = do
    volume ← ok_or (find (of_volume volume_id) g.volumes) GraphError.sqlite
    (synced, appended) ← sync_all encoding links volume.generation ProjectionOutboxMode.durable g 0
    let complete = ltb (length links) maximum_links
    ok (
      advance complete (last_of links) synced,
      record {
        links_scanned = length links;
        outbox_mutations_appended = appended;
        job_completed = complete;
      },
    )

  abbrev pub refresh_path_job :
      ℕ
      → FilesystemGraph
      → Option PathRefreshRow
      → GraphResult (FilesystemGraph × ProjectionRefreshSummary)
  refresh_path_job maximum_links g none = ok (g, no_refresh)
  refresh_path_job maximum_links g (some job) =
      let volume_id = job.root_object.volume_id in
      refresh_page volume_id (page_of maximum_links job.cursor (link_ids volume_id g)) maximum_links
        (advance_path_job job.job_id) g

  abbrev pub refresh_volume_job :
      ℕ
      → FilesystemGraph
      → Option VolumeRefreshRow
      → GraphResult (FilesystemGraph × ProjectionRefreshSummary)
  refresh_volume_job maximum_links g none = ok (g, no_refresh)
  refresh_volume_job maximum_links g (some job) =
      refresh_page job.volume_id
        (page_of maximum_links job.cursor (document_link_ids job.volume_id g)) maximum_links
        (advance_volume_job job.volume_id) g

  unfoldable pub refresh_projection_paths :
      ℕ → FilesystemGraph → FilesystemGraph × GraphResult ProjectionRefreshSummary
  refresh_projection_paths maximum_links g =
      if maximum_links == 0
      then (g, ok no_refresh)
      else transact g (refresh_path_job maximum_links g (find (λ j. j.pending) g.path_jobs))

  unfoldable pub refresh_volume_projection :
      ℕ → FilesystemGraph → FilesystemGraph × GraphResult ProjectionRefreshSummary
  refresh_volume_projection maximum_links g =
      if maximum_links == 0
      then (g, ok no_refresh)
      else transact g (refresh_volume_job maximum_links g (first_volume_job g))

unfoldable pub projection_refresh_maintenance_pending : FilesystemGraph → Bool
projection_refresh_maintenance_pending g =
    exists (λ j. j.pending) g.path_jobs || exists (λ j. j.pending) g.volume_jobs

unfoldable pub complete_refresh_job : ℕ → FilesystemGraph → FilesystemGraph × Bool
complete_refresh_job job_id g =
    let chosen = λ (j : PathRefreshRow). j.job_id == job_id && j.pending in
    (
      record g { path_jobs = update chosen (λ j. record j { pending = false }) g.path_jobs },
      length (select chosen g.path_jobs) == 1,
    )

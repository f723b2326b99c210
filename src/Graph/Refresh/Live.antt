-- ===== src/Graph/Refresh/Live.antt =====
-- No link of the graph leads to a tombstoned object: refreshes
-- (crates/filesystem-graph/src/store.rs).
use local_search.Prelude.{
  ℕ, ◌≡◌, refl, sym, subst, ◌∙◌, Bool, Option, none, some, List, ltb, length, ◌==◌, if◌then◌else◌,
  ok, err, ok_or, Ensures, bind-Ensures, Ensures-ok, Bool-cases, inl, inr,
}
use local_search.Core.Ids.{VolumeId, FileLinkId}
use local_search.Graph.Rows.{find}
use local_search.Graph.Types.{GraphResult, ProjectionRefreshSummary}
use local_search.Graph.Tables.{PathRefreshRow, VolumeRefreshRow, FilesystemGraph, of_volume}
use local_search.Graph.Links.LiveRows.{AllLive, LinksLive}
use local_search.Graph.Projection.{Encoding, durable}
use local_search.Graph.Batch.{transact, sync_all}
use local_search.Graph.Batch.Live.{Files, files, sync_all-files}
use local_search.Graph.Refresh.{
  last_of, page_of, link_ids, document_link_ids, advance_path_job, advance_volume_job, no_refresh,
  first_volume_job, refresh_page, refresh_path_job, refresh_volume_job, refresh_projection_paths,
  refresh_volume_projection,
}

module _ (encoding : Encoding) where
  refresh_page-LinksLive :
      (volume_id : VolumeId) (links : List FileLinkId) (maximum_links : ℕ)
      (advance : Bool → Option FileLinkId → FilesystemGraph → FilesystemGraph) (g : FilesystemGraph)
      → ((complete : Bool) (last : Option FileLinkId) (g' : FilesystemGraph)
          → files (advance complete last g') ≡ files g')
      → LinksLive g
      → Ensures (λ p. LinksLive p.0) (refresh_page encoding volume_id links maximum_links advance g)
  unfolding refresh_page
  refresh_page-LinksLive volume_id links maximum_links advance g a h =
      let P = λ (p : FilesystemGraph × ProjectionRefreshSummary). LinksLive p.0 in
      bind-Ensures P (ok_or (find (of_volume volume_id) g.volumes) _) _ λ volume v.
        bind-Ensures P (sync_all encoding links volume.generation durable g 0) _ λ q s.
          let same =
            Ensures-ok (λ p. files p.0 ≡ files g) _ q
              (sync_all-files encoding links volume.generation durable g 0) s in
          let kept = a (ltb (length links) maximum_links) (last_of links) q.0 ∙ same in
          subst (λ (f : Files). AllLive f.objects f.links) (sym kept) h

  refresh_path_job-LinksLive :
      (maximum_links : ℕ) (g : FilesystemGraph) (job : Option PathRefreshRow)
      → LinksLive g
      → Ensures (λ p. LinksLive p.0) (refresh_path_job encoding maximum_links g job)
  unfolding advance_path_job
  refresh_path_job-LinksLive maximum_links g none h = h
  refresh_path_job-LinksLive maximum_links g (some job) h =
      refresh_page-LinksLive job.root_object.volume_id
        (page_of maximum_links job.cursor (link_ids job.root_object.volume_id g)) maximum_links
        (advance_path_job job.job_id) g (λ complete last g'. refl) h

  refresh_volume_job-LinksLive :
      (maximum_links : ℕ) (g : FilesystemGraph) (job : Option VolumeRefreshRow)
      → LinksLive g
      → Ensures (λ p. LinksLive p.0) (refresh_volume_job encoding maximum_links g job)
  unfolding advance_volume_job
  refresh_volume_job-LinksLive maximum_links g none h = h
  refresh_volume_job-LinksLive maximum_links g (some job) h =
      refresh_page-LinksLive job.volume_id
        (page_of maximum_links job.cursor (document_link_ids job.volume_id g)) maximum_links
        (advance_volume_job job.volume_id) g (λ complete last g'. refl) h

  bounded-LinksLive :
      (maximum_links : ℕ) (g : FilesystemGraph)
      (r : GraphResult (FilesystemGraph × ProjectionRefreshSummary))
      → LinksLive g
      → Ensures (λ p. LinksLive p.0) r
      → LinksLive (if maximum_links == 0 then (g, ok no_refresh) else transact g r).0
  bounded-LinksLive maximum_links g (ok p) h k = elim (Bool-cases (maximum_links == 0)) [
    | inl e ↦ rw e h
    | inr e ↦ rw e k
  ]
  bounded-LinksLive maximum_links g (err error) h k = elim (Bool-cases (maximum_links == 0)) [
    | inl e ↦ rw e h
    | inr e ↦ rw e h
  ]

  pub refresh_paths-LinksLive :
      (maximum_links : ℕ) (g : FilesystemGraph)
      → LinksLive g
      → LinksLive (refresh_projection_paths encoding maximum_links g).0
  unfolding refresh_projection_paths
  refresh_paths-LinksLive maximum_links g h =
      bounded-LinksLive maximum_links g _ h
        (refresh_path_job-LinksLive maximum_links g (find (λ j. j.pending) g.path_jobs) h)

  pub refresh_volume-LinksLive :
      (maximum_links : ℕ) (g : FilesystemGraph)
      → LinksLive g
      → LinksLive (refresh_volume_projection encoding maximum_links g).0
  unfolding refresh_volume_projection
  refresh_volume-LinksLive maximum_links g h =
      bounded-LinksLive maximum_links g _ h
        (refresh_volume_job-LinksLive maximum_links g (first_volume_job g) h)

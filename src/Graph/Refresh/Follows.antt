-- ===== src/Graph/Refresh/Follows.antt =====
-- An index goes on following the graph by the rows of a refresh
-- (crates/filesystem-graph/src/store.rs).
use local_search.Prelude.{
  ℕ, ◌≡◌, refl, sym, subst, Bool, Option, none, some, List, [], ◌++◌, append-nil, length, ltb, ◌∙◌,
  ◌==◌, if◌then◌else◌, ok, err, ok_or, Ensures, bind-Ensures, Ensures-ok, arith, Bool-cases, inl,
  inr,
}
use local_search.Core.Ids.{VolumeId, FileLinkId}
use local_search.Graph.Rows.{find}
use local_search.Graph.Types.{GraphResult, ProjectionRefreshSummary}
use local_search.Graph.Tables.{
  DocumentRow, of_document, OutboxRow, PathRefreshRow, VolumeRefreshRow, FilesystemGraph, of_volume,
}
use local_search.Graph.Projection.{Encoding, durable}
use local_search.Graph.Projection.Replay.{Index, replay, Agree, Tracks}
use local_search.Graph.Batch.{transact, sync_all}
use local_search.Graph.Batch.Follows.{FollowsFrom, sync_all-Follows}
use local_search.Graph.Refresh.{
  last_of, page_of, link_ids, document_link_ids, advance_path_job, advance_volume_job, no_refresh,
  first_volume_job, refresh_page, refresh_path_job, refresh_volume_job, refresh_projection_paths,
  refresh_volume_projection,
}

module _ (encoding : Encoding) where
  abbrev PageFollows : FilesystemGraph → Index → FilesystemGraph × ProjectionRefreshSummary → Type 0
  PageFollows g index (g', summary) =
      (rows : List OutboxRow) × (g'.outbox ≡ g.outbox ++ rows)
      × (summary.outbox_mutations_appended ≡ length rows)
      × Tracks encoding g' (replay rows index)

  no_refresh-Follows :
      (g : FilesystemGraph) (index : Index)
      → Tracks encoding g index
      → PageFollows g index (g, no_refresh)
  no_refresh-Follows g index t = ([], sym (append-nil g.outbox), refl, t)

  -- A step of a job, which writes neither the outbox nor documents.
  abbrev StepsAside : (Bool → Option FileLinkId → FilesystemGraph → FilesystemGraph) → Type 0
  StepsAside advance =
      (complete : Bool) (last : Option FileLinkId) (g : FilesystemGraph)
      → ((advance complete last g).outbox ≡ g.outbox)
        × ((advance complete last g).documents ≡ g.documents)

  refresh_page-Follows :
      (volume_id : VolumeId) (links : List FileLinkId) (maximum_links : ℕ)
      (advance : Bool → Option FileLinkId → FilesystemGraph → FilesystemGraph) (g : FilesystemGraph)
      (index : Index)
      → StepsAside advance
      → Tracks encoding g index
      → Ensures
          (PageFollows g index)
          (refresh_page encoding volume_id links maximum_links advance g)
  unfolding refresh_page
  refresh_page-Follows volume_id links maximum_links advance g index a t =
      let P = PageFollows g index in
      bind-Ensures P (ok_or (find (of_volume volume_id) g.volumes) _) _ λ volume v.
        bind-Ensures P (sync_all encoding links volume.generation durable g 0) _ λ q s.
          let (rows, o, m, t') =
            Ensures-ok (FollowsFrom encoding g index 0) _ q
              (sync_all-Follows encoding links volume.generation g 0 index t) s in
          let (outbox_kept, documents_kept) =
            a (ltb (length links) maximum_links) (last_of links) q.0 in
          let counted : q.1 ≡ length rows = omega (arith, m) in
          (
            rows,
            outbox_kept ∙ o,
            counted,
            λ id.
                subst
                  (λ (ds : List DocumentRow).
                    Agree encoding (find (of_document id) ds) (replay rows index id))
                  (sym documents_kept) (t' id),
          )

  path_job-StepsAside : (job_id : ℕ) → StepsAside (advance_path_job job_id)
  unfolding advance_path_job
  path_job-StepsAside job_id complete last g = (refl, refl)

  volume_job-StepsAside : (volume_id : VolumeId) → StepsAside (advance_volume_job volume_id)
  unfolding advance_volume_job
  volume_job-StepsAside volume_id complete last g = (refl, refl)

  refresh_path_job-Follows :
      (maximum_links : ℕ) (g : FilesystemGraph) (index : Index) (job : Option PathRefreshRow)
      → Tracks encoding g index
      → Ensures (PageFollows g index) (refresh_path_job encoding maximum_links g job)
  refresh_path_job-Follows maximum_links g index none t = no_refresh-Follows g index t
  refresh_path_job-Follows maximum_links g index (some job) t =
      refresh_page-Follows job.root_object.volume_id
        (page_of maximum_links job.cursor (link_ids job.root_object.volume_id g)) maximum_links
        (advance_path_job job.job_id) g index (path_job-StepsAside job.job_id) t

  refresh_volume_job-Follows :
      (maximum_links : ℕ) (g : FilesystemGraph) (index : Index) (job : Option VolumeRefreshRow)
      → Tracks encoding g index
      → Ensures (PageFollows g index) (refresh_volume_job encoding maximum_links g job)
  refresh_volume_job-Follows maximum_links g index none t = no_refresh-Follows g index t
  refresh_volume_job-Follows maximum_links g index (some job) t =
      refresh_page-Follows job.volume_id
        (page_of maximum_links job.cursor (document_link_ids job.volume_id g)) maximum_links
        (advance_volume_job job.volume_id) g index (volume_job-StepsAside job.volume_id) t

  -- What a refresh leaves: the rows that it appended, counted in its summary, bring the index along; a
  -- refresh that fails leaves the graph as it was.
  abbrev pub FollowsRefresh :
      FilesystemGraph → Index → FilesystemGraph × GraphResult ProjectionRefreshSummary → Type 0
  FollowsRefresh g index (g', ok summary) = PageFollows g index (g', summary)
  FollowsRefresh g index (g', err error) = g' ≡ g

  bounded-Follows :
      (maximum_links : ℕ) (g : FilesystemGraph) (index : Index)
      (r : GraphResult (FilesystemGraph × ProjectionRefreshSummary))
      → Tracks encoding g index
      → Ensures (PageFollows g index) r
      → FollowsRefresh g index (if maximum_links == 0 then (g, ok no_refresh) else transact g r)
  bounded-Follows maximum_links g index (ok p) t h = elim (Bool-cases (maximum_links == 0)) [
    | inl e ↦ rw e (no_refresh-Follows g index t)
    | inr e ↦ rw e h
  ]
  bounded-Follows maximum_links g index (err error) t h = elim (Bool-cases (maximum_links == 0)) [
    | inl e ↦ rw e (no_refresh-Follows g index t)
    | inr e ↦ rw e refl
  ]

  -- An index whose content for each document has the fingerprint that the graph desires has so again
  -- after a page of either refresh, of whatever size, once it has applied exactly the rows that the page
  -- appended to the outbox, as many as its summary says. A refresh that fails changes nothing.
  pub refresh-Follows :
      (maximum_links : ℕ) (g : FilesystemGraph) (index : Index)
      → Tracks encoding g index
      → FollowsRefresh g index (refresh_projection_paths encoding maximum_links g)
        × FollowsRefresh g index (refresh_volume_projection encoding maximum_links g)
  unfolding refresh_projection_paths refresh_volume_projection
  refresh-Follows maximum_links g index t = (
    bounded-Follows maximum_links g index _ t
        (refresh_path_job-Follows maximum_links g index (find (λ j. j.pending) g.path_jobs) t),
    bounded-Follows maximum_links g index _ t
        (refresh_volume_job-Follows maximum_links g index (first_volume_job g) t),
  )

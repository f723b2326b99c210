-- ===== src/Observation/Ends.antt =====
-- The ends of a step of the observation controller make no call of the source but a cancellation
-- (crates/agent/src/observation.rs).
use local_search.Prelude.{
  ℕ, ◌≡◌, inl, inr, refl, Option, none, some, List, ◌∷◌, ok, err, Bool-cases,
}
use local_search.Core.Ids.{VolumeId}
use local_search.Core.Models.{FilesystemEvent}
use local_search.Platform.{
  VolumeDescriptor, ProviderCheckpoint, ChangeBatch, PlatformErrorKind, PlatformResult,
}
use local_search.Wire.Broker.{ScanPage}
use local_search.Graph.Types.{GraphResult, ObservationSession}
use local_search.Graph.Tables.{FilesystemGraph}
use local_search.Graph.Projection.{Encoding}
use local_search.Observation.State.{
  SourceCall, Surroundings, ObservationStep, ActiveScan, Progress, Stepped,
}
use local_search.Observation.Outcomes.{
  end_page, stage_last, with_graph, commit, commit_then, start_session, restart_session, state_of,
  is_offline,
}
use local_search.Observation.Controller.{changes_failed, changes_read, page_read}

-- A predicate on the calls goes through the ends of a step that make no call.
module _ (encoding : Encoding) (Q : List SourceCall → Type 0) where
  pub commit-calls :
      {A : Type 0} (p : Progress) (r : FilesystemGraph × GraphResult A)
      (outcome : A → ObservationStep)
      → Q p.calls
      → Q (commit p r outcome).0.calls
  commit-calls p (g, ok value) outcome h = h
  commit-calls p (g, err error) outcome h = h

  changes_failed-calls :
      (volume_id : VolumeId) (source : ProviderCheckpoint) (kind : PlatformErrorKind) (p : Progress)
      → Q p.calls
      → Q (changes_failed encoding volume_id source kind p).0.calls
  unfolding changes_failed
  changes_failed-calls volume_id source PlatformErrorKind.source_history_gap p h =
      commit-calls p _ _ h
  changes_failed-calls volume_id source PlatformErrorKind.invalid_checkpoint p h =
      commit-calls p _ _ h
  changes_failed-calls volume_id source PlatformErrorKind.unavailable p h =
      elim (Bool-cases (is_offline (state_of volume_id p.graph))) [
        | inl e ↦ rw e h
        | inr e ↦ rw e (commit-calls p _ _ h)
      ]
  changes_failed-calls volume_id source _ p h = h

  pub changes_read-calls :
      (volume_id : VolumeId) (source : ProviderCheckpoint)
      (r : PlatformResult (List FilesystemEvent × ChangeBatch)) (p : Progress)
      → Q p.calls
      → Q (changes_read encoding volume_id source r p).0.calls
  unfolding changes_read
  changes_read-calls volume_id source (err error) p h =
      changes_failed-calls volume_id source error.kind p h
  changes_read-calls volume_id source (ok (events, changes)) p h = commit-calls p _ _ h

  stage_last-calls :
      (active : ActiveScan) (s : Option ProviderCheckpoint) (outcome : ObservationStep)
      (p : Progress)
      → Q p.calls
      → Q (stage_last active s outcome p).0.calls
  stage_last-calls active none outcome p h = h
  stage_last-calls active (some s) outcome p h = commit-calls p _ _ h

  end_page-calls :
      (active : ActiveScan) (page : ScanPage) (p : Progress)
      → Q p.calls
      → Q (end_page active page p).0.calls
  unfolding end_page
  end_page-calls active page p h = elim (Bool-cases page.complete) [
    | inl e ↦ rw e (stage_last-calls active page.checkpoint _ p h)
    | inr e ↦ rw e h
  ]

  commit_then-calls :
      {A : Type 0} (p : Progress) (r : FilesystemGraph × GraphResult A) (rest : Progress → Stepped)
      → Q p.calls
      → ((q : Progress) → Q q.calls → Q (rest q).0.calls)
      → Q (commit_then p r rest).0.calls
  commit_then-calls p (g, ok value) rest h k = k (record p { graph = g }) h
  commit_then-calls p (g, err error) rest h k = h

  pub with_graph-calls :
      (opens : GraphResult (Unit {0})) (rest : Progress → Stepped) (p : Progress)
      → Q p.calls
      → Q (rest p).0.calls
      → Q (with_graph opens rest p).0.calls
  with_graph-calls (ok u) rest p h k = k
  with_graph-calls (err error) rest p h k = h

  pub page_read-calls :
      (active : ActiveScan) (w : Surroundings) (r : PlatformResult ScanPage) (p : Progress)
      → Q p.calls
      → Q (SourceCall.cancel_scan active.scan_id ∷ p.calls)
      → Q (page_read encoding active w r p).0.calls
  page_read-calls active w (err error) p h k = k
  page_read-calls active w (ok page) p h k =
      with_graph-calls w.opens _ p h (commit_then-calls p _ _ h (end_page-calls active page))

  start_session-calls :
      (volume_id : VolumeId) (scan_id : ℕ) (p : Progress)
      (r : FilesystemGraph × GraphResult ObservationSession)
      → Q p.calls
      → Q (SourceCall.cancel_scan scan_id ∷ p.calls)
      → Q (start_session volume_id scan_id p r).0.calls
  unfolding start_session
  start_session-calls volume_id scan_id p (g, ok s) h k = h
  start_session-calls volume_id scan_id p (g, err error) h k = k

  pub restart-calls :
      (descriptor : VolumeDescriptor) (session : ObservationSession) (r : PlatformResult ℕ)
      (p : Progress)
      → Q p.calls
      → ((scan_id : ℕ) → r ≡ ok scan_id → Q (SourceCall.cancel_scan scan_id ∷ p.calls))
      → Q (restart_session descriptor session r p).0.calls
  restart-calls descriptor session (err error) p h k = h
  restart-calls descriptor session (ok scan_id) p h k =
      start_session-calls descriptor.volume_id scan_id p _ h (k scan_id refl)

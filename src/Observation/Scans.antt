-- ===== src/Observation/Scans.antt =====
-- What becomes of the active scan in a step of the observation controller
-- (crates/agent/src/observation.rs).
use local_search.Prelude.{
  ℕ, ◌≡◌, ◌⊎◌, inl, inr, refl, sym, subst, true, false, Option, none, some, [], ◌∷◌, ok, err, ap,
  ◌∙◌, Bool-cases,
}
use local_search.Platform.{ProviderCheckpoint, PlatformError, PlatformErrorKind, PlatformResult}
use local_search.Wire.Broker.{ScanPage}
use local_search.Graph.Types.{GraphError, GraphResult, ApplySummary}
use local_search.Graph.Tables.{FilesystemGraph}
use local_search.Graph.Projection.{Encoding}
use local_search.Graph.Scan.{stage_observation_checkpoint, apply_observation_scan_page}
use local_search.Observation.State.{
  SourceCall, Surroundings, ObservationStep, ObservationError, ActiveScan, Controller, Progress,
  Stepped,
}
use local_search.Observation.Outcomes.{
  clamp, end_page, stage_last, event_count, with_graph, commit, commit_then,
}
use local_search.Observation.Controller.{apply_page, page_read, read_active_scan, resume, step}

-- The result of a call of the graph is the result of the step.
abbrev pub Reports : FilesystemGraph × GraphResult (Unit {0}) → ObservationStep → Stepped → Type 0
Reports r outcome s =
    (s.0.graph ≡ r.0)
    × (((r.1 ≡ ok tt) × (s.1 ≡ ok outcome))
        ⊎ ((error : GraphError) × ((r.1 ≡ err error) × (s.1 ≡ err (ObservationError.graph error)))))

-- After the last page, the checkpoint that came with it is staged; the step fails without one.
abbrev pub Finished : ActiveScan → ScanPage → FilesystemGraph → Stepped → Type 0
Finished a page g s =
    ((page.checkpoint ≡ none)
      × (s.0.graph ≡ g)
      × (s.1 ≡ err (ObservationError.provider PlatformErrorKind.internal)))
    ⊎ ((c : ProviderCheckpoint) × ((page.checkpoint ≡ some c)
          × Reports (stage_observation_checkpoint a.volume_id c g)
              (ObservationStep.scan_page a.volume_id (event_count page.events) true) s))

module _ (encoding : Encoding) (w : Surroundings) (a : ActiveScan) (g : FilesystemGraph) where
  -- What the graph makes of a page.
  abbrev pub taken : ScanPage → FilesystemGraph × GraphResult ApplySummary
  taken page = apply_observation_scan_page encoding a.volume_id page.events g

  -- The graph cannot be opened or refuses the page.
  abbrev pub GraphFails : ScanPage → GraphError → Type 0
  GraphFails page error = (w.opens ≡ err error) ⊎ ((w.opens ≡ ok tt) × ((taken page).1 ≡ err error))

  -- The graph is open and takes the page.
  abbrev pub GraphTakes : ScanPage → Type 0
  GraphTakes page = (w.opens ≡ ok tt) × ((summary : ApplySummary) × ((taken page).1 ≡ ok summary))

  -- What becomes of the scan after a page: abandoned, kept or finished.
  abbrev pub Received : ScanPage → Stepped → Type 0
  Received page s =
      ((error : GraphError) × (GraphFails page error
          × (s.0.controller.active_scan ≡ none)
          × (s.1 ≡ err (ObservationError.graph error))))
      ⊎ ((page.complete ≡ false)
          × GraphTakes page
          × (s.0.controller.active_scan ≡ some a)
          × (s.0.graph ≡ (taken page).0)
          × (s.1 ≡ ok (ObservationStep.scan_page a.volume_id (event_count page.events) false)))
      ⊎ ((page.complete ≡ true)
          × GraphTakes page
          × (s.0.controller.active_scan ≡ none)
          × Finished a page (taken page).0 s)

  -- What becomes of the scan by the answer of the source: cancelled, or what follows on the page.
  abbrev pub Accounts : ℕ → Stepped → Type 0
  Accounts n s =
      ((error : PlatformError) × ((w.source.read_scan_page a.scan_id n ≡ err error)
          × (s.0.calls
              ≡ SourceCall.cancel_scan a.scan_id ∷ SourceCall.read_scan_page a.scan_id n ∷ [])
          × (s.0.controller.active_scan ≡ none)
          × (s.0.graph ≡ g)
          × (s.1 ≡ err (ObservationError.provider error.kind))))
      ⊎ ((page : ScanPage) × ((w.source.read_scan_page a.scan_id n ≡ ok page)
            × (s.0.calls ≡ SourceCall.read_scan_page a.scan_id n ∷ [])
            × Received page s))

-- What a step leaves of the calls and of the active scan.
abbrev Quiet : Progress → Stepped → Type 0
Quiet p s = (s.0.calls ≡ p.calls) × (s.0.controller.active_scan ≡ p.controller.active_scan)

commit-Reports :
    (p : Progress) (r : FilesystemGraph × GraphResult (Unit {0})) (outcome : ObservationStep)
    → let s = commit p r (λ _. outcome) in Quiet p s × Reports r outcome s
commit-Reports p (g, ok u) outcome = ((refl, refl), (refl, inl (refl, refl)))
commit-Reports p (g, err error) outcome = ((refl, refl), (refl, inr (error, (refl, refl))))

module _ (a : ActiveScan) (page : ScanPage) (p : Progress) where
  abbrev last_step : ObservationStep
  last_step = ObservationStep.scan_page a.volume_id (event_count page.events) true

  stage_last-Finished :
      (c : Option ProviderCheckpoint)
      → page.checkpoint ≡ c
      → let s = stage_last a c last_step p in Quiet p s × Finished a page p.graph s
  stage_last-Finished none e = ((refl, refl), inl (e, refl, refl))
  stage_last-Finished (some c) e =
      let (quiet, reports) =
        commit-Reports p (stage_observation_checkpoint a.volume_id c p.graph) last_step in
      (quiet, inr (c, (e, reports)))

module _ (encoding : Encoding) (w : Surroundings) (a : ActiveScan) (g : FilesystemGraph)
    (page : ScanPage) (p : Progress) (quiet : p.controller.active_scan ≡ none) where
  end_page-Received :
      (summary : ApplySummary)
      → w.opens ≡ ok tt
      → taken encoding w a g page ≡ (p.graph, ok summary)
      → let s = end_page a page p in (s.0.calls ≡ p.calls) × Received encoding w a g page s
  unfolding end_page
  end_page-Received summary opens e =
      let takes : GraphTakes encoding w a g page = (opens, (summary, ap (λ r. r.1) e)) in
      elim (Bool-cases page.complete) [
        | inl t ↦ rw t (
            let ((calls, active), finished) = stage_last-Finished a page p page.checkpoint refl in
            (
              calls,
              inr (
                  inr (
                    refl,
                    takes,
                    active ∙ quiet,
                    subst
                        (λ h.
                          Finished a page h (stage_last a page.checkpoint (last_step a page p) p))
                        (sym (ap (λ r. r.0) e)) finished,
                  )),
            ))
        | inr t ↦ rw t (refl, inr (inl (refl, takes, refl, sym (ap (λ r. r.0) e), refl)))
      ]

module _ (encoding : Encoding) (w : Surroundings) (a : ActiveScan) (g : FilesystemGraph) where
  commit_then-Received :
      (page : ScanPage) (p : Progress) (r : FilesystemGraph × GraphResult ApplySummary)
      → p.controller.active_scan ≡ none
      → w.opens ≡ ok tt
      → taken encoding w a g page ≡ r
      → let s = commit_then p r (end_page a page) in
        (s.0.calls ≡ p.calls) × Received encoding w a g page s
  commit_then-Received page p (h, ok summary) quiet opens e =
      end_page-Received encoding w a g page (record p { graph = h }) quiet summary opens e
  commit_then-Received page p (h, err error) quiet opens e =
      (refl, inl (error, (inr (opens, ap (λ r. r.1) e), quiet, refl)))

  with_graph-Received :
      (page : ScanPage) (p : Progress) (opens : GraphResult (Unit {0}))
      → p.controller.active_scan ≡ none
      → w.opens ≡ opens
      → taken encoding w a g page ≡ taken encoding w a p.graph page
      → let s = with_graph opens (apply_page encoding a page) p in
        (s.0.calls ≡ p.calls) × Received encoding w a g page s
  with_graph-Received page p (ok u) quiet e same = commit_then-Received page p _ quiet e same
  with_graph-Received page p (err error) quiet e same = (refl, inl (error, (inl e, quiet, refl)))

  page_read-Accounts :
      (n : ℕ) (c : Controller) (r : PlatformResult ScanPage)
      → c.active_scan ≡ none
      → w.source.read_scan_page a.scan_id n ≡ r
      → let p : Progress = record {
        controller = c;
        graph = g;
        calls = SourceCall.read_scan_page a.scan_id n ∷ [];
      } in
        Accounts encoding w a g n (page_read encoding a w r p)
  page_read-Accounts n c (err error) quiet e = inl (error, (e, refl, quiet, refl, refl))
  page_read-Accounts n c (ok page) quiet e =
      let (calls, received) = with_graph-Received page _ w.opens quiet refl refl in
      inr (page, (e, calls, received))

-- A step that starts with an active scan asks for its next page. Where the source fails, the scan is
-- cancelled and no longer active, the graph stays and the step reports the source's error. Where a
-- page is read, nothing else is asked of the source, and one of three things follows. The graph
-- cannot be opened or refuses the page: the step reports that error, and the scan is neither active
-- nor cancelled. The graph takes a page that is not the last: the scan stays active. The graph takes
-- the last page: the scan is no longer active, and the page's checkpoint is staged, or the step fails
-- where the page has none.
pub step-Accounts :
    (encoding : Encoding) (maximum_events : ℕ) (w : Surroundings) (c : Controller)
    (g : FilesystemGraph) (a : ActiveScan)
    → c.active_scan ≡ some a
    → Accounts encoding w a g (clamp maximum_events) (step encoding maximum_events w c g)
unfolding step read_active_scan
step-Accounts encoding maximum_events w c g a e =
    let n = clamp maximum_events in
    let quiet : Controller = record c { active_scan = none } in
    let p : Progress = record { controller = quiet; graph = g; calls = [] } in
    subst (λ s. Accounts encoding w a g n (resume encoding n w s p)) (sym e)
      (page_read-Accounts encoding w a g n quiet _ refl refl)

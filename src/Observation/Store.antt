-- ===== src/Observation/Store.antt =====
-- What the observation controller does to the graph (crates/agent/src/observation.rs over
-- crates/filesystem-graph/src/store.rs).
use local_search.Prelude.{
  ltb, leb, ℕ, zero, suc, ◌-◌, ◌≡◌, ◌≤◌, ◌∙◌, refl, sym, ap, subst, Option, none, some, List, [],
  ◌∷◌, length, ok, err, arith, Bool-cases, inl, inr, saturating_sub, true,
}
use local_search.Platform.{VolumeDescriptor, ProviderCheckpoint, PlatformResult}
use local_search.Wire.Broker.{ScanPage}
use local_search.Graph.Types.{GraphResult, ApplySummary}
use local_search.Graph.Tables.{FilesystemGraph}
use local_search.Graph.Projection.{Encoding}
use local_search.Graph.Scan.{stage_observation_checkpoint, apply_observation_scan_page}
use local_search.Graph.Operations.{Operation, run}
use local_search.Graph.Operations
use local_search.Observation.Selection.{selected_volumes}
use local_search.Observation.State.{
  SourceCall, discovery_refresh, Surroundings, ObservationStep, ActiveScan, Controller, Progress,
  Stepped,
}
use local_search.Observation.Outcomes.{
  clamp, end_page, stage_last, with_graph, commit, commit_then, refresh_discovery_if_due,
  discovered_volumes, get_elem?, in_range,
}
use local_search.Observation.Controller.{
  apply_page, page_read, read_active_scan, take_turn, volume_turn, observe_volume, after_discovery,
  resume, step,
}
use local_search.Observation.Decisions.{
  Paged, unread, unopened, refused, applied, staged, Offers, Decides, resumes, undiscovered, idle,
  closed, turns,
}
use local_search.Observation.Turns.{Does, stays, observe_volume-Takes}

Does-ap :
    (encoding : Encoding) (P Q : List Operation → Type 0) (g g' : FilesystemGraph)
    → ((ops : List Operation) → P ops → Q ops)
    → Does encoding P g g'
    → Does encoding Q g g'
Does-ap encoding P Q g g' f (ops, (h, e)) = (ops, (f ops h, e))

get_elem?-bound :
    (volumes : List VolumeDescriptor) (k : ℕ) → get_elem? volumes k ≡ none → length volumes ≤ k
get_elem?-bound [] k e = omega arith
get_elem?-bound (d ∷ ds) zero e = cc
get_elem?-bound (d ∷ ds) (suc k) e = omega (arith, get_elem?-bound ds k e)

get_elem?-none :
    (volumes : List VolumeDescriptor) (cursor : ℕ)
    → get_elem? volumes (in_range cursor (length volumes)) ≡ none
    → volumes ≡ []
get_elem?-none [] cursor e = refl
get_elem?-none (d ∷ ds) cursor e = elim (Bool-cases (leb (length (d ∷ ds)) cursor)) [
  | inl past ↦ ground (arith, past, e)
  | inr here ↦ ground (arith, here, get_elem?-bound (d ∷ ds) cursor)
]

commit-graph :
    {A : Type 0} (p : Progress) (r : FilesystemGraph × GraphResult A)
    (outcome : A → ObservationStep)
    → (commit p r outcome).0.graph ≡ r.0
commit-graph p (g, ok value) outcome = refl
commit-graph p (g, err error) outcome = refl

module _ (encoding : Encoding) (w : Surroundings) (n : ℕ) (a : ActiveScan)
    (g : FilesystemGraph) where
  abbrev Pages : Stepped → Type 0
  Pages s = Does encoding (Paged encoding w n g a) g s.0.graph

  abbrev took : ScanPage → FilesystemGraph × GraphResult ApplySummary
  took page = apply_observation_scan_page encoding a.volume_id page.events g

  stage_last-Pages :
      (page : ScanPage) (c : Option ProviderCheckpoint) (summary : ApplySummary)
      (outcome : ObservationStep) (p : Progress)
      → w.source.read_scan_page a.scan_id n ≡ ok page
      → w.opens ≡ ok tt
      → page.complete ≡ true
      → page.checkpoint ≡ c
      → took page ≡ (p.graph, ok summary)
      → Pages (stage_last a c outcome p)
  unfolding run Operations.step
  stage_last-Pages page none summary outcome p read opens t e h =
      (_, (applied page summary read opens (ap (λ r. r.1) h) (inr e), sym (ap (λ r. r.0) h)))
  stage_last-Pages page (some c) summary outcome p read opens t e h = (
    _,
    (
      staged page summary c read opens (ap (λ r. r.1) h) t e,
      commit-graph p (stage_observation_checkpoint a.volume_id c p.graph) (λ _. outcome)
          ∙ ap (λ g'. (stage_observation_checkpoint a.volume_id c g').0) (sym (ap (λ r. r.0) h)),
    ),
  )

  end_page-Pages :
      (page : ScanPage) (summary : ApplySummary) (p : Progress)
      → w.source.read_scan_page a.scan_id n ≡ ok page
      → w.opens ≡ ok tt
      → took page ≡ (p.graph, ok summary)
      → Pages (end_page a page p)
  unfolding end_page run Operations.step
  end_page-Pages page summary p read opens h = elim (Bool-cases page.complete) [
    | inl t ↦ rw t (stage_last-Pages page page.checkpoint summary _ p read opens t refl h)
    | inr t ↦
        rw t (_, (applied page summary read opens (ap (λ r. r.1) h) (inl t), sym (ap (λ r. r.0) h)))
  ]

  commit_then-Pages :
      (page : ScanPage) (r : FilesystemGraph × GraphResult ApplySummary) (p : Progress)
      → w.source.read_scan_page a.scan_id n ≡ ok page
      → w.opens ≡ ok tt
      → took page ≡ r
      → Pages (commit_then p r (end_page a page))
  unfolding run Operations.step
  commit_then-Pages page (g', ok summary) p read opens h =
      end_page-Pages page summary (record p { graph = g' }) read opens h
  commit_then-Pages page (g', err error) p read opens h =
      (_, (refused page error read opens (ap (λ r. r.1) h), sym (ap (λ r. r.0) h)))

  with_graph-Pages :
      (page : ScanPage) (opens : GraphResult (Unit {0})) (c : Controller) (calls : List SourceCall)
      → w.source.read_scan_page a.scan_id n ≡ ok page
      → w.opens ≡ opens
      → Pages (
          with_graph opens
            (apply_page encoding a page)
            (record { controller = c; graph = g; calls = calls }))
  with_graph-Pages page (err e) c calls read o = stays encoding _ g (unopened page e read o)
  with_graph-Pages page (ok u) c calls read o =
      commit_then-Pages page _ (record { controller = c; graph = g; calls = calls }) read o refl

  page_read-Pages :
      (r : PlatformResult ScanPage) (c : Controller) (calls : List SourceCall)
      → w.source.read_scan_page a.scan_id n ≡ r
      → Pages (page_read encoding a w r (record { controller = c; graph = g; calls = calls }))
  page_read-Pages (err e) c calls read = stays encoding _ g (unread e read)
  page_read-Pages (ok page) c calls read = with_graph-Pages page w.opens c calls read refl

module _ (encoding : Encoding) (w : Surroundings) (n : ℕ) (c : Controller) (g : FilesystemGraph)
    (inactive : c.active_scan ≡ none) where
  abbrev Decided : Stepped → Type 0
  Decided s = Does encoding (Decides encoding w n g c) g s.0.graph

  opened-Decided :
      (volumes : List VolumeDescriptor) (cursor : ℕ) (d : VolumeDescriptor) (k : Controller)
      (calls : List SourceCall) (opens : GraphResult (Unit {0}))
      → Offers encoding w n g c volumes cursor
      → get_elem? volumes (in_range cursor (length volumes)) ≡ some d
      → w.opens ≡ opens
      → Decided (
          with_graph opens
            (observe_volume encoding n w d)
            (record { controller = k; graph = g; calls = calls }))
  opened-Decided volumes cursor d k calls (err e) offers found o =
      stays encoding _ g (closed e inactive o)
  opened-Decided volumes cursor d k calls (ok u) offers found o =
      Does-ap encoding _ _ g _ (λ ops turn. turns volumes cursor d ops inactive offers found o turn)
        (observe_volume-Takes encoding w n d (record { controller = k; graph = g; calls = calls }))

  volume_turn-Decided :
      (volumes : List VolumeDescriptor) (cursor next : ℕ) (found : Option VolumeDescriptor)
      (k : Controller) (calls : List SourceCall)
      → Offers encoding w n g c volumes cursor
      → get_elem? volumes (in_range cursor (length volumes)) ≡ found
      → Decided (
          volume_turn encoding n w found next (record { controller = k; graph = g; calls = calls }))
  volume_turn-Decided volumes cursor next none k calls offers e = stays encoding _ g (
      idle cursor inactive
        (subst (λ vs. Offers encoding w n g c vs cursor) (get_elem?-none volumes cursor e) offers))
  volume_turn-Decided volumes cursor next (some d) k calls offers e =
      opened-Decided volumes cursor d (record k { cursor = next }) calls w.opens offers e refl

  discovery-Decided :
      (r : PlatformResult (List VolumeDescriptor)) (k : Controller) (calls : List SourceCall)
      → k.selection ≡ c.selection
      → k.cursor ≡ c.cursor
      → discovery_refresh ≤ w.now - c.last_discovery
      → w.source.discover_volumes ≡ r
      → Decided (
          after_discovery encoding n w
            (discovered_volumes w (record { controller = k; graph = g; calls = calls }) r))
  unfolding discovered_volumes take_turn
  discovery-Decided (err e) k calls s i due r = stays encoding _ g (undiscovered e inactive due r)
  discovery-Decided (ok found) k calls s i due r =
      volume_turn-Decided _ _ _ _ _ calls
        (inr (found, (due, r, ap (selected_volumes found) s, ground (arith, i)))) refl

  taken-Decided :
      (k : Controller) (calls : List SourceCall)
      → Offers encoding w n g c k.volumes k.cursor
      → Decided (take_turn encoding n w (record { controller = k; graph = g; calls = calls }))
  unfolding take_turn
  taken-Decided k calls offers = volume_turn-Decided k.volumes k.cursor _ _ k calls offers refl

  idle-Decided :
      (calls : List SourceCall)
      → let k : Controller = record c { active_scan = none } in
        Decided (resume encoding n w none (record { controller = k; graph = g; calls = calls }))
  unfolding refresh_discovery_if_due
  idle-Decided calls =
      let k : Controller = record c { active_scan = none } in
      elim (Bool-cases (ltb (saturating_sub w.now c.last_discovery) discovery_refresh)) [
        | inl t ↦ rw t (taken-Decided k calls (inl (ground (arith, t), refl, refl)))
        | inr t ↦ rw t (discovery-Decided _ k _ refl refl (ground (arith, t)) refl)
      ]

module _ (encoding : Encoding) (w : Surroundings) (n : ℕ) (c : Controller)
    (g : FilesystemGraph) where
  resume-Does :
      (s : Option ActiveScan)
      → c.active_scan ≡ s
      → let k : Controller = record c { active_scan = none } in
        Does encoding
          (Decides encoding w n g c)
          g
          (resume encoding n w s (record { controller = k; graph = g; calls = [] })).0.graph
  unfolding read_active_scan
  resume-Does (some a) e =
      Does-ap encoding _ _ g _ (λ ops paged. resumes a ops e paged)
        (page_read-Pages encoding w n a g _ _ _ refl)
  resume-Does none e = idle-Decided encoding w n c g e []

-- A step of the controller does to the graph exactly the calls of the store that are to be made, in
-- their order, whether they succeed or fail. They are to be made by the active scan, or else by the
-- session, the checkpoint and the state of the volume whose turn it is, and by what the source
-- answers: the events of a page and the staging of the last one's checkpoint; the start or a sweep of
-- a scan; the preparing of an initial or a reconciling scan; the changes that were read with their
-- checkpoint, after the return of an offline volume; or the record of a lost history, of a checkpoint
-- that is not valid or of a volume that is not available. None are made where the source or the
-- opening of the graph fails otherwise, or no volume is there.
pub step-Does :
    (encoding : Encoding) (maximum_events : ℕ) (w : Surroundings) (c : Controller)
    (g : FilesystemGraph)
    → Does encoding
        (Decides encoding w (clamp maximum_events) g c)
        g
        (step encoding maximum_events w c g).0.graph
unfolding step
step-Does encoding maximum_events w c g =
    resume-Does encoding w (clamp maximum_events) c g c.active_scan refl

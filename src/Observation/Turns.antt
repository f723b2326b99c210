-- ===== src/Observation/Turns.antt =====
-- What the turn of a volume does to the graph (crates/agent/src/observation.rs over
-- crates/filesystem-graph/src/store.rs).
use local_search.Prelude.{
  ℕ, ◌≡◌, refl, ap, Bool, true, false, Option, none, some, List, [], ◌∷◌, ok, err, Bool-cases, inl,
  inr,
}
use local_search.Core.Ids.{VolumeId}
use local_search.Core.Models.{FilesystemEvent}
use local_search.Platform.{
  VolumeDescriptor, ProviderCheckpoint, ChangeBatch, PlatformError, PlatformErrorKind,
  PlatformResult,
}
use local_search.Graph.Types.{
  GraphResult, VolumeState, ObservationScanMode, ObservationScanPhase, ObservationSession,
  GraphMutationBatch, ApplySummary,
}
use local_search.Graph.Tables.{FilesystemGraph, checkpoint}
use local_search.Graph.Projection.{Encoding, durable}
use local_search.Graph.Batch.{apply_batch}
use local_search.Graph.Operations.{Operation, run}
use local_search.Graph.Operations
use local_search.Graph.Scan.{observation_session}
use local_search.Observation.State.{Surroundings, ObservationStep, Progress, Stepped}
use local_search.Observation.Outcomes.{
  commit, start_session, restart_session, calling, state_of, is_offline, needs_reconciliation,
  broker_scan_mode, scan_reason,
}
use local_search.Observation.Controller.{
  in_phase, observe_session, handle_session, changes_failed, changes_read, read_incremental,
  observe_changes, observe_volume,
}
use local_search.Observation.Decisions.{
  Asks, asks_initial, asks_reconcile, recorded, Turn, starts, unstarted, sweeps, prepares,
  reconciles, follows, returns, loses, stays_offline, fails,
}

mode-Asks : (mode : ObservationScanMode) → Asks mode (broker_scan_mode mode) (scan_reason mode)
unfolding broker_scan_mode scan_reason
mode-Asks ObservationScanMode.initial = asks_initial
mode-Asks ObservationScanMode.reconcile = asks_reconcile

is_offline-state : (s : Option VolumeState) → is_offline s ≡ true → s ≡ some VolumeState.offline
is_offline-state (some VolumeState.offline) e = refl
is_offline-state _ e = cc

needs_reconciliation-state :
    (s : Option VolumeState)
    → needs_reconciliation s ≡ true
    → s ≡ some VolumeState.needs_reconciliation
needs_reconciliation-state (some VolumeState.needs_reconciliation) e = refl
needs_reconciliation-state _ e = cc

module _ (encoding : Encoding) (P : List Operation → Type 0) where
  -- The second graph is what calls of the store that are to be made make of the first.
  abbrev pub Does : FilesystemGraph → FilesystemGraph → Type 0
  Does g g' = (ops : List Operation) × (P ops × (g' ≡ run encoding ops g))

  pub stays : (g : FilesystemGraph) → P [] → Does g g
  unfolding run
  stays g h = ([], (h, refl))

  pub commit-Does :
      {A : Type 0} (op : Operation) (p : Progress) (r : FilesystemGraph × GraphResult A)
      (outcome : A → ObservationStep)
      → r.0 ≡ Operations.step encoding op p.graph
      → P (op ∷ [])
      → Does p.graph (commit p r outcome).0.graph
  unfolding run
  commit-Does op p (g, ok value) outcome e h = (op ∷ [], (h, e))
  commit-Does op p (g, err error) outcome e h = (op ∷ [], (h, e))

  start-Does :
      (op : Operation) (volume_id : VolumeId) (scan_id : ℕ) (p : Progress)
      (r : FilesystemGraph × GraphResult ObservationSession)
      → r.0 ≡ Operations.step encoding op p.graph
      → P (op ∷ [])
      → Does p.graph (start_session volume_id scan_id p r).0.graph
  unfolding run start_session
  start-Does op volume_id scan_id p (g, ok session) e h = (op ∷ [], (h, e))
  start-Does op volume_id scan_id p (g, err error) e h = (op ∷ [], (h, e))

  batch-Does :
      (b : GraphMutationBatch) (p : Progress) (outcome : ApplySummary → ObservationStep)
      → P (Operation.batch b durable ∷ [])
      → Does p.graph (commit p (apply_batch encoding b p.graph) outcome).0.graph
  unfolding Operations.step apply_batch
  batch-Does b p outcome h = commit-Does (Operation.batch b durable) p _ outcome refl h

module _ (encoding : Encoding) (w : Surroundings) (n : ℕ) (d : VolumeDescriptor)
    (p : Progress) where
  abbrev pub Takes : Stepped → Type 0
  Takes s = Does encoding (Turn encoding w n p.graph d) p.graph s.0.graph

  -- The volume has no session and is trusted, and its checkpoint is `c`.
  record Trusted (c : ProviderCheckpoint) : Type 0 where
    closed : observation_session d.volume_id p.graph ≡ none
    known : checkpoint d.volume_id p.graph ≡ some c
    sound : needs_reconciliation (state_of d.volume_id p.graph) ≡ false

  failed-Takes :
      (c : ProviderCheckpoint) (e : PlatformError) (kind : PlatformErrorKind)
      → Trusted c
      → w.source.read_changes c n ≡ err e
      → e.kind ≡ kind
      → Takes (changes_failed encoding d.volume_id c kind p)
  unfolding changes_failed
  failed-Takes c e PlatformErrorKind.source_history_gap t r k =
      batch-Does encoding _ _ p _
        (loses c e _ t.closed t.known t.sound r (ap (recorded d.volume_id) k) (inl k))
  failed-Takes c e PlatformErrorKind.invalid_checkpoint t r k =
      batch-Does encoding _ _ p _
        (loses c e _ t.closed t.known t.sound r (ap (recorded d.volume_id) k) (inr (inl k)))
  failed-Takes c e PlatformErrorKind.unavailable t r k =
      elim (Bool-cases (is_offline (state_of d.volume_id p.graph))) [
        | inl off ↦ rw off (
            stays encoding _ p.graph
              (stays_offline c e t.closed t.known (is_offline-state _ off) r k))
        | inr on ↦ rw on (
            batch-Does encoding _ _ p _
              (loses c e _ t.closed t.known t.sound r (ap (recorded d.volume_id) k) (inr (inr on))))
      ]
  failed-Takes c e _ t r k =
      stays encoding _ p.graph (fails c e t.closed t.known t.sound r (ap (recorded d.volume_id) k))

  changes-Takes :
      (c : ProviderCheckpoint) (r : PlatformResult (List FilesystemEvent × ChangeBatch))
      → Trusted c
      → w.source.read_changes c n ≡ r
      → Takes (changes_read encoding d.volume_id c r p)
  unfolding changes_read
  changes-Takes c (err e) t r = failed-Takes c e e.kind t r refl
  changes-Takes c (ok (events, changes)) t r =
      elim (Bool-cases (is_offline (state_of d.volume_id p.graph))) [
        | inl off ↦ rw off (
            batch-Does encoding _ _ p _
              (returns c events changes t.closed t.known (is_offline-state _ off) r))
        | inr on ↦
            rw on
              (batch-Does encoding _ _ p _ (follows c events changes t.closed t.known t.sound on r))
      ]

  restart-Takes :
      (s : ObservationSession) (r : PlatformResult ℕ)
      → observation_session d.volume_id p.graph ≡ some s
      → s.phase ≡ ObservationScanPhase.scanning
      → w.source.start_scan d.volume_id (broker_scan_mode s.mode) ≡ r
      → Takes (restart_session d s r p)
  unfolding Operations.step
  restart-Takes s (err e) found scanning r =
      stays encoding _ p.graph (unstarted s _ _ e found scanning (mode-Asks s.mode) r)
  restart-Takes s (ok scan_id) found scanning r =
      start-Does encoding _ (Operation.begin d s.mode _) d.volume_id scan_id p _ refl
        (starts s _ _ scan_id found scanning (mode-Asks s.mode) r)

module _ (encoding : Encoding) (w : Surroundings) (n : ℕ) (d : VolumeDescriptor) where
  phase-Takes :
      (phase : ObservationScanPhase) (s : ObservationSession) (p : Progress)
      → observation_session d.volume_id p.graph ≡ some s
      → s.phase ≡ phase
      → Takes encoding w n d p (in_phase encoding phase n w d s p)
  unfolding Operations.step
  phase-Takes ObservationScanPhase.scanning s p found e =
      restart-Takes encoding w n d (calling _ p) s _ found e refl
  phase-Takes ObservationScanPhase.sweeping_links s p found e =
      commit-Does encoding _ (Operation.finalize d.volume_id n) p _ _ refl (sweeps s found (inl e))
  phase-Takes ObservationScanPhase.sweeping_objects s p found e =
      commit-Does encoding _ (Operation.finalize d.volume_id n) p _ _ refl (sweeps s found (inr e))

  observe_changes-Takes :
      (c : Option ProviderCheckpoint) (needed : Bool) (p : Progress)
      → observation_session d.volume_id p.graph ≡ none
      → checkpoint d.volume_id p.graph ≡ c
      → needs_reconciliation (state_of d.volume_id p.graph) ≡ needed
      → Takes encoding w n d p (observe_changes encoding n w d c needed p)
  unfolding Operations.step read_incremental scan_reason
  observe_changes-Takes none needed p closed known sound =
      commit-Does encoding _ (Operation.begin d ObservationScanMode.initial _) p _ _ refl
        (prepares closed known)
  observe_changes-Takes (some c) true p closed known sound =
      commit-Does encoding _ (Operation.begin d ObservationScanMode.reconcile _) p _ _ refl
        (reconciles c closed known (needs_reconciliation-state _ sound))
  observe_changes-Takes (some c) false p closed known sound =
      changes-Takes encoding w n d (calling _ p) c _
        (record { closed = closed; known = known; sound = sound }) refl

  observe_session-Takes :
      (s : Option ObservationSession) (p : Progress)
      → observation_session d.volume_id p.graph ≡ s
      → Takes encoding w n d p (observe_session encoding n w d s p)
  unfolding handle_session
  observe_session-Takes (some s) p found = phase-Takes s.phase s p found refl
  observe_session-Takes none p closed = observe_changes-Takes _ _ p closed refl refl

  pub observe_volume-Takes :
      (p : Progress) → Takes encoding w n d p (observe_volume encoding n w d p)
  unfolding observe_volume
  observe_volume-Takes p = observe_session-Takes _ p refl

-- ===== src/Observation/Calls.antt =====
-- The calls that a step of the observation controller makes of its source
-- (crates/agent/src/observation.rs).
use local_search.Prelude.{
  ℕ, ◌≤◌, ◌+◌, ◌≡◌, ◌⊎◌, inl, inr, refl, sym, ap, Bool, true, false, Option, none, some, List, [],
  ◌∷◌, ok, err, arith, Bool-cases, ltb, saturating_sub,
}
use local_search.Core.Ids.{VolumeId}
use local_search.Platform.{VolumeDescriptor, ProviderCheckpoint, PlatformResult}
use local_search.Wire.Broker.{ScanMode, max_broker_page_events}
use local_search.Graph.Rows.{All}
use local_search.Graph.Types.{ObservationScanPhase, ObservationSession}
use local_search.Graph.Tables.{FilesystemGraph, checkpoint}
use local_search.Graph.Projection.{Encoding}
use local_search.Graph.Scan.{observation_session}
use local_search.Observation.State.{
  discovery_refresh, SourceCall, Surroundings, ActiveScan, Controller, Progress,
}
use local_search.Observation.Outcomes.{
  clamp, broker_scan_mode, discovered_volumes, refresh_discovery_if_due, calling, state_of,
  needs_reconciliation,
}
use local_search.Observation.Controller.{
  in_phase, handle_session, read_incremental, read_active_scan, observe_changes, observe_session,
  observe_volume, volume_turn, take_turn, after_discovery, resume, step,
}
use local_search.Observation.Ends.{
  commit-calls, changes_read-calls, with_graph-calls, page_read-calls, restart-calls,
}

-- The calls that start a scan or read from the source.
abbrev pub quanta : List SourceCall → ℕ
quanta [] = 0
quanta (SourceCall.start_scan volume_id mode ∷ calls) = quanta calls + 1
quanta (SourceCall.read_scan_page scan_id maximum_events ∷ calls) = quanta calls + 1
quanta (SourceCall.read_changes checkpoint maximum_events ∷ calls) = quanta calls + 1
quanta (_ ∷ calls) = quanta calls

-- The size of a page that the contract of the broker takes.
abbrev pub IsPageSize : ℕ → Type 0
IsPageSize n = (1 ≤ n) × (n ≤ max_broker_page_events)

module _ (w : Surroundings) (c : Controller) (g : FilesystemGraph) where
  -- What a call rests on: the source, the controller and the graph before the step. Incremental
  -- changes are read only of a volume that has a checkpoint and no session and needs no
  -- reconciliation; a scan is started only for a session that scans; pages are read of the active
  -- scan, and cancelled is the active scan or one that the source has just started.
  abbrev pub Justified : SourceCall → Type 0
  Justified SourceCall.discover = c.active_scan ≡ none
  Justified (SourceCall.start_scan volume_id mode) =
      (s : ObservationSession) × ((c.active_scan ≡ none)
        × (observation_session volume_id g ≡ some s)
        × (s.phase ≡ ObservationScanPhase.scanning)
        × (mode ≡ broker_scan_mode s.mode))
  Justified (SourceCall.read_scan_page scan_id n) =
      (a : ActiveScan) × ((c.active_scan ≡ some a) × (a.scan_id ≡ scan_id) × IsPageSize n)
  Justified (SourceCall.cancel_scan scan_id) =
      ((a : ActiveScan) × ((c.active_scan ≡ some a) × (a.scan_id ≡ scan_id)))
      ⊎ ((v : VolumeId × ScanMode) × (w.source.start_scan v.0 v.1 ≡ ok scan_id))
  Justified (SourceCall.read_changes source n) =
      (volume_id : VolumeId) × ((c.active_scan ≡ none)
        × (observation_session volume_id g ≡ none)
        × (checkpoint volume_id g ≡ some source)
        × (needs_reconciliation (state_of volume_id g) ≡ false)
        × IsPageSize n)

module _ (encoding : Encoding) (w : Surroundings) (c : Controller) (g : FilesystemGraph) where
  -- Every call is justified, and at most one starts a scan or reads.
  abbrev pub Quantum : List SourceCall → Type 0
  Quantum calls = All (Justified w c g) calls × (quanta calls ≤ 1)

  -- Calls that leave the step's start or read to come.
  abbrev Before : Progress → Type 0
  Before p = (p.graph ≡ g) × All (Justified w c g) p.calls × (quanta p.calls ≡ 0)

  Before-Quantum : (p : Progress) → Before p → Quantum p.calls
  Before-Quantum p (same, all, none_yet) = (all, omega arith)

  in_phase-Quantum :
      (phase : ObservationScanPhase) (n : ℕ) (descriptor : VolumeDescriptor)
      (session : ObservationSession) (p : Progress)
      → c.active_scan ≡ none
      → session.phase ≡ phase
      → observation_session descriptor.volume_id g ≡ some session
      → Before p
      → Quantum (in_phase encoding phase n w descriptor session p).0.calls
  in_phase-Quantum ObservationScanPhase.scanning n descriptor session p quiet e found
        (same, all, z) =
      let mode = broker_scan_mode session.mode in
      let started : Justified w c g (SourceCall.start_scan descriptor.volume_id mode) =
        (session, (quiet, found, e, refl)) in
      restart-calls encoding Quantum descriptor session
        (w.source.start_scan descriptor.volume_id mode)
        (calling (SourceCall.start_scan descriptor.volume_id mode) p) ((started, all), omega arith)
        λ scan_id answered.
          ((inr ((descriptor.volume_id, mode), answered), (started, all)), omega arith)
  in_phase-Quantum ObservationScanPhase.sweeping_links n descriptor session p quiet e found b =
      commit-calls encoding Quantum p _ _ (Before-Quantum p b)
  in_phase-Quantum ObservationScanPhase.sweeping_objects n descriptor session p quiet e found b =
      commit-calls encoding Quantum p _ _ (Before-Quantum p b)

  observe_changes-Quantum :
      (n : ℕ) (descriptor : VolumeDescriptor) (s : Option ProviderCheckpoint) (needed : Bool)
      (p : Progress)
      → IsPageSize n
      → c.active_scan ≡ none
      → observation_session descriptor.volume_id g ≡ none
      → checkpoint descriptor.volume_id g ≡ s
      → needs_reconciliation (state_of descriptor.volume_id g) ≡ needed
      → Before p
      → Quantum (observe_changes encoding n w descriptor s needed p).0.calls
  unfolding read_incremental
  observe_changes-Quantum n descriptor none needed p size quiet closed e f b =
      commit-calls encoding Quantum p _ _ (Before-Quantum p b)
  observe_changes-Quantum n descriptor (some s) true p size quiet closed e f b =
      commit-calls encoding Quantum p _ _ (Before-Quantum p b)
  observe_changes-Quantum n descriptor (some s) false p size quiet closed e f (same, all, z) =
      changes_read-calls encoding Quantum descriptor.volume_id s (w.source.read_changes s n)
        (calling (SourceCall.read_changes s n) p)
        (((descriptor.volume_id, (quiet, closed, e, f, size)), all), omega arith)

  observe_session-Quantum :
      (n : ℕ) (descriptor : VolumeDescriptor) (s : Option ObservationSession) (p : Progress)
      → IsPageSize n
      → c.active_scan ≡ none
      → observation_session descriptor.volume_id g ≡ s
      → Before p
      → Quantum (observe_session encoding n w descriptor s p).0.calls
  unfolding handle_session
  observe_session-Quantum n descriptor (some session) p size quiet found b =
      in_phase-Quantum session.phase n descriptor session p quiet refl found b
  observe_session-Quantum n descriptor none p size quiet closed b =
      observe_changes-Quantum n descriptor _ _ p size quiet closed
        (ap (checkpoint descriptor.volume_id) (sym b.0))
        (ap (λ h. needs_reconciliation (state_of descriptor.volume_id h)) (sym b.0)) b

  volume_turn-Quantum :
      (n : ℕ) (d : Option VolumeDescriptor) (next : ℕ) (p : Progress)
      → IsPageSize n
      → c.active_scan ≡ none
      → Before p
      → Quantum (volume_turn encoding n w d next p).0.calls
  unfolding observe_volume
  volume_turn-Quantum n none next p size quiet b = Before-Quantum p b
  volume_turn-Quantum n (some descriptor) next p size quiet b =
      let q : Progress = record p { controller = record p.controller { cursor = next } } in
      with_graph-calls encoding Quantum w.opens (observe_volume encoding n w descriptor) q
        (Before-Quantum p b)
        (observe_session-Quantum n descriptor _ q size quiet
          (ap (observation_session descriptor.volume_id) (sym b.0)) b)

  discovery-Quantum :
      (n : ℕ) (p : Progress) (r : PlatformResult (List VolumeDescriptor))
      → IsPageSize n
      → c.active_scan ≡ none
      → Before p
      → Quantum (after_discovery encoding n w (discovered_volumes w p r)).0.calls
  unfolding discovered_volumes take_turn
  discovery-Quantum n p (err error) size quiet b = Before-Quantum p b
  discovery-Quantum n p (ok ds) size quiet b =
      volume_turn-Quantum n _ _ (record p { controller = _ }) size quiet b

  resume-Quantum :
      (n : ℕ) (s : Option ActiveScan) (p : Progress)
      → IsPageSize n
      → c.active_scan ≡ s
      → Before p
      → Quantum (resume encoding n w s p).0.calls
  unfolding read_active_scan refresh_discovery_if_due take_turn
  resume-Quantum n (some active) p size e (same, all, z) =
      let read : Justified w c g (SourceCall.read_scan_page active.scan_id n) =
        (active, (e, refl, size)) in
      page_read-calls encoding Quantum active w (w.source.read_scan_page active.scan_id n)
        (calling (SourceCall.read_scan_page active.scan_id n) p) ((read, all), omega arith)
        ((inl (active, (e, refl)), (read, all)), omega arith)
  resume-Quantum n none p size e (same, all, z) =
      elim (Bool-cases (ltb (saturating_sub w.now p.controller.last_discovery) discovery_refresh)) [
        | inl t ↦ rw t (volume_turn-Quantum n _ _ p size e (same, all, z))
        | inr t ↦ rw t (
            discovery-Quantum n (calling SourceCall.discover p) w.source.discover_volumes size e
              (same, (e, all), z))
      ]

  -- Every call that a step makes of its source is justified by what the controller and the graph were
  -- before it, and at most one of them starts a scan or reads.
  pub step-Quantum : (maximum_events : ℕ) → Quantum (step encoding maximum_events w c g).0.calls
  unfolding step
  step-Quantum maximum_events =
      resume-Quantum (clamp maximum_events) c.active_scan _ (omega arith, omega arith) refl
        (refl, tt, refl)

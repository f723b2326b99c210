-- ===== src/Observation/Gap.antt =====
-- What follows on a lost history: the volume is scanned again before changes of it are read
-- (crates/agent/src/observation.rs over crates/filesystem-graph/src/store.rs).
use local_search.Prelude.{
  ℕ, ◌≡◌, ◌⊎◌, ◌∙◌, inl, inr, refl, sym, ap, subst, Bool, true, false, Option, none, some, [], ◌∷◌,
  ok, err, ◌==◌, Bool-cases, Ensures, bind-Ensures, Ensures-map, arith, ==_iff,
}
use local_search.Core.Ids.{VolumeId}
use local_search.Core.Models.{ReconciliationReason}
use local_search.Platform.{VolumeDescriptor, ProviderCheckpoint, PlatformError, PlatformErrorKind}
use local_search.Graph.Rows.{find}
use local_search.Graph.Types.{
  GraphResult, VolumeState, ObservationScanMode, ObservationScanPhase, ObservationSession,
  GraphMutation, validate, ApplySummary,
}
use local_search.Graph.Tables.{
  VolumeRow, SessionRow, FilesystemGraph, of_volume, of_session, checkpoint, checked_add_one,
  generation_of,
}
use local_search.Graph.Projection.{Encoding, durable}
use local_search.Graph.Batch.{transact, apply_batch, apply_batch_with_outbox_mode, run_batch}
use local_search.Graph.Batch.Reconciliation.{HasState, IsLost, find-upsert, lose-IsLost}
use local_search.Graph.Scan.{begin_scan, begin_observation_scan, observation_session}
use local_search.Observation.State.{SourceCall, Surroundings, ObservationStep, Progress, Stepped}
use local_search.Observation.Outcomes.{commit, calling, state_of, needs_reconciliation}
use local_search.Observation.Ends.{commit-calls}
use local_search.Observation.Controller.{
  changes_failed, changes_read, read_incremental, observe_changes, observe_session, observe_volume,
}

-- The volume has a session that scans in the mode.
abbrev pub Scans : VolumeId → ObservationScanMode → FilesystemGraph → Type 0
Scans volume_id mode g =
    (s : ObservationSession) × ((observation_session volume_id g ≡ some s)
      × (s.phase ≡ ObservationScanPhase.scanning)
      × (s.mode ≡ mode))

begin_scan-Scans :
    (descriptor : VolumeDescriptor) (mode : ObservationScanMode) (reason : ReconciliationReason)
    (g : FilesystemGraph)
    → Ensures (λ r. Scans descriptor.volume_id mode r.0) (begin_scan descriptor mode reason g)
unfolding begin_scan observation_session
begin_scan-Scans descriptor mode reason g =
    bind-Ensures (λ (r : FilesystemGraph × ObservationSession). Scans descriptor.volume_id mode r.0)
      (checked_add_one (generation_of descriptor.volume_id g.volumes) _) _
      λ generation e.
        let session : SessionRow = record {
          volume_id = descriptor.volume_id;
          scan_generation = generation;
          scan_mode = mode;
          phase = ObservationScanPhase.scanning;
          final_checkpoint = none;
        } in
        (
          record {
            volume_id = descriptor.volume_id;
            scan_generation = generation;
            mode = mode;
            phase = ObservationScanPhase.scanning;
          },
          (
            rw (find-upsert (of_session descriptor.volume_id) session _ (ground arith)) refl,
            refl,
            refl,
          ),
        )

-- What holds of a committed graph and of the step's answer.
abbrev Committed : (FilesystemGraph → Type 0) → ObservationStep → Stepped → Type 0
Committed P outcome s = Ensures (λ o. (o ≡ outcome) × P s.0.graph) s.1

commit-Committed :
    {A : Type 0} (P : FilesystemGraph → Type 0) (p : Progress)
    (r : GraphResult (FilesystemGraph × A)) (outcome : ObservationStep)
    → Ensures (λ x. P x.0) r
    → Committed P outcome (commit p (transact p.graph r) λ _. outcome)
commit-Committed P p (ok (g, value)) outcome h = (refl, h)
commit-Committed P p (err error) outcome h = tt

abbrev pub IsGap : PlatformErrorKind → Type 0
IsGap kind =
    (kind ≡ PlatformErrorKind.source_history_gap) ⊎ (kind ≡ PlatformErrorKind.invalid_checkpoint)

needs_reconciliation-state :
    (o : Option VolumeRow)
    → HasState VolumeState.needs_reconciliation o
    → (g : FilesystemGraph) (volume_id : VolumeId) → find (of_volume volume_id) g.volumes ≡ o
    → needs_reconciliation (state_of volume_id g) ≡ true
unfolding state_of
needs_reconciliation-state none h g volume_id e = absurd h
needs_reconciliation-state (some row) h g volume_id e =
    rw (needs_reconciliation, e) (ap (λ state. needs_reconciliation (some state)) h)

module _ (encoding : Encoding) where
  lose_at-IsLost :
      (volume_id : VolumeId) (source : ProviderCheckpoint) (reason : ReconciliationReason)
      (g : FilesystemGraph)
      → Ensures
          (λ x. IsLost volume_id source g.sessions x.0)
          (run_batch encoding
            (record {
              volume_id = volume_id;
              checkpoint = source;
              mutations = GraphMutation.require_reconciliation volume_id reason ∷ [];
            })
            durable
            g)
  unfolding run_batch validate
  lose_at-IsLost volume_id source reason g = elim (Bool-cases (source.volume_id == volume_id)) [
    | inl e ↦
        subst
          (λ v.
            Ensures (λ (x : FilesystemGraph × ApplySummary). IsLost v source g.sessions x.0)
              (run_batch encoding
                (record {
                  volume_id = v;
                  checkpoint = source;
                  mutations = GraphMutation.require_reconciliation v reason ∷ [];
                })
                durable g))
          ((==_iff source.volume_id volume_id).0 e) (lose-IsLost encoding source reason g)
    | inr e ↦ rw e tt
  ]

  failed-IsLost :
      (volume_id : VolumeId) (source : ProviderCheckpoint) (kind : PlatformErrorKind) (p : Progress)
      → IsGap kind
      → Committed
          (IsLost volume_id source p.graph.sessions)
          (ObservationStep.reconciliation_required volume_id)
          (changes_failed encoding volume_id source kind p)
  unfolding changes_failed apply_batch apply_batch_with_outbox_mode
  failed-IsLost volume_id source kind p (inl e) = rw e (
      commit-Committed (IsLost volume_id source p.graph.sessions) p _ _
        (lose_at-IsLost volume_id source _ p.graph))
  failed-IsLost volume_id source kind p (inr e) = rw e (
      commit-Committed (IsLost volume_id source p.graph.sessions) p _ _
        (lose_at-IsLost volume_id source _ p.graph))

  -- The turn of a volume without a session, computed.
  observe_volume-changes :
      (n : ℕ) (w : Surroundings) (descriptor : VolumeDescriptor) (source : ProviderCheckpoint)
      (needed : Bool) (p : Progress)
      → observation_session descriptor.volume_id p.graph ≡ none
      → checkpoint descriptor.volume_id p.graph ≡ some source
      → needs_reconciliation (state_of descriptor.volume_id p.graph) ≡ needed
      → observe_volume encoding n w descriptor p
        ≡ observe_changes encoding n w descriptor (some source) needed p
  unfolding observe_volume
  observe_volume-changes n w descriptor source needed p closed kept state =
      ap (λ s. observe_session encoding n w descriptor s p) closed
      ∙ ap
          (λ c.
            observe_changes encoding n w descriptor c
              (needs_reconciliation (state_of descriptor.volume_id p.graph)) p)
          kept
      ∙ ap (λ b. observe_changes encoding n w descriptor (some source) b p) state

  lost_turn :
      (n : ℕ) (w : Surroundings) (descriptor : VolumeDescriptor) (source : ProviderCheckpoint)
      (g : FilesystemGraph) (p : Progress)
      → observation_session descriptor.volume_id g ≡ none
      → IsLost descriptor.volume_id source g.sessions p.graph
      → let t = observe_volume encoding n w descriptor p in
        (t.0.calls ≡ p.calls)
        × Committed
            (Scans descriptor.volume_id ObservationScanMode.reconcile)
            (ObservationStep.scan_prepared descriptor.volume_id)
            t
  unfolding begin_observation_scan observation_session
  lost_turn n w descriptor source g p closed (state, kept, same) =
      subst
        (λ (t : Stepped).
          (t.0.calls ≡ p.calls)
          × Committed (Scans descriptor.volume_id ObservationScanMode.reconcile)
              (ObservationStep.scan_prepared descriptor.volume_id) t)
        (sym (
          observe_volume-changes n w descriptor source true p (rw same closed) kept
            (needs_reconciliation-state _ state p.graph descriptor.volume_id refl)))
        (
          commit-calls encoding (λ calls. calls ≡ p.calls) p _ _ refl,
          commit-Committed (Scans descriptor.volume_id ObservationScanMode.reconcile) p _ _
              (begin_scan-Scans descriptor ObservationScanMode.reconcile _ p.graph),
        )

  -- The first turn asks for reconciliation, and the second starts a scan and calls the source no more.
  abbrev pub RescanFollows : VolumeId → Progress → Stepped → Stepped → Type 0
  RescanFollows volume_id q s t =
      Ensures
        (λ outcome.
          (outcome ≡ ObservationStep.reconciliation_required volume_id)
          × (t.0.calls ≡ q.calls)
          × Committed (Scans volume_id ObservationScanMode.reconcile)
              (ObservationStep.scan_prepared volume_id) t)
        s.1

  -- When the source reports a gap in its history, or does not know the checkpoint, in the turn of a
  -- volume that has a checkpoint and no session and needs no reconciliation, then the turn, if it
  -- succeeds, says that reconciliation is required; and the volume's next turn on that graph, whatever
  -- the source would answer, calls it for nothing and, if it succeeds, has prepared a scan that
  -- reconciles.
  pub gap_rescans :
      (n m : ℕ) (w w' : Surroundings) (descriptor : VolumeDescriptor) (source : ProviderCheckpoint)
      (error : PlatformError) (p q : Progress)
      → observation_session descriptor.volume_id p.graph ≡ none
      → checkpoint descriptor.volume_id p.graph ≡ some source
      → needs_reconciliation (state_of descriptor.volume_id p.graph) ≡ false
      → w.source.read_changes source n ≡ err error
      → IsGap error.kind
      → let s = observe_volume encoding n w descriptor p in
        RescanFollows descriptor.volume_id q s
          (observe_volume encoding m w' descriptor (record q { graph = s.0.graph }))
  unfolding read_incremental changes_read observation_session
  gap_rescans n m w w' descriptor source error p q closed kept trusted answered gap =
      let v = descriptor.volume_id in
      let f = calling (SourceCall.read_changes source n) p in
      let lost = changes_failed encoding v source error.kind f in
      let after : Stepped → Stepped =
        λ s. observe_volume encoding m w' descriptor (record q { graph = s.0.graph }) in
      subst
        (λ (s : Stepped).
          RescanFollows v q s
            (observe_volume encoding m w' descriptor (record q { graph = s.0.graph })))
        (sym (
          observe_volume-changes n w descriptor source false p closed kept trusted
          ∙ ap (λ r. changes_read encoding v source r f) answered))
        (let next : (o : ObservationStep)
              → (o ≡ ObservationStep.reconciliation_required v)
                × IsLost v source p.graph.sessions lost.0.graph
              → (o ≡ ObservationStep.reconciliation_required v)
                × ((after lost).0.calls ≡ q.calls)
                × Committed (Scans v ObservationScanMode.reconcile)
                    (ObservationStep.scan_prepared v) (after lost) =
            λ o h.
              let t =
                lost_turn m w' descriptor source p.graph (record q { graph = lost.0.graph }) closed
                  h.1 in
              (h.0, t.0, t.1) in
          Ensures-map lost.1 next (failed-IsLost v source error.kind f gap))

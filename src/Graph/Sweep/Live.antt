-- ===== src/Graph/Sweep/Live.antt =====
-- No link of the graph leads to a tombstoned object: the sweeps of a scan
-- (crates/filesystem-graph/src/store.rs).
use local_search.Prelude.{
  ℕ, ◌≡◌, refl, sym, subst, Bool, true, false, Option, List, [], ◌∷◌, length, ltb, ◌==◌,
  if◌then◌else◌, ok, reject_if, ok_or, Ensures, bind-Ensures, Ensures-ok, arith, Bool-cases, inl,
  inr,
}
use local_search.Core.Ids.{VolumeId, FileKey}
use local_search.Platform.{ProviderCheckpoint}
use local_search.Graph.Rows.{select, exists, find, All}
use local_search.Graph.Types.{ObservationScanPhase, ObservationFinalizeSummary}
use local_search.Graph.Tables.{
  ObjectRow, LinkRow, SessionRow, FilesystemGraph, of_volume, of_session, links_to, checked_add_one,
  set_generation, save_checkpoint, enqueue_volume_projection_refresh,
}
use local_search.Graph.Links.{phase_eq, set_tombstoned, remove_link_internal}
use local_search.Graph.Links.LiveRows.{AllLive, LinksLive, AllLive-tombstone}
use local_search.Graph.Links.Liveness.{remove_link_internal-LinksLive}
use local_search.Graph.Projection.{durable, Encoding, sync_catalog_projection}
use local_search.Graph.Batch.Live.{Files, sync-files}
use local_search.Graph.Rows.Ordered.{All-select, All-take, All-order_by}
use local_search.Graph.Sweep.{
  is_stale_object, stale_links, stale_objects, tombstone_all, sweep_stale_observation_objects,
  activate_observation_checkpoint, sweep_links, sweep_stale_observation_links, finalize_phase,
  finalize_scan, finalize_observation_scan,
}
use local_search.Graph.Scan.Live.{transact-LinksLive}

no_links :
    (key : FileKey) (links : List LinkRow)
    → exists (links_to key) links ≡ false
    → (length (select (links_to key) links) == 0) ≡ true
no_links key [] h = refl
no_links key (l ∷ ls) h = ground (arith, h, no_links key ls)

abbrev Unlinked : List LinkRow → ObjectRow → Type 0
Unlinked links o = exists (links_to o.object_key) links ≡ false

tombstone_all-AllLive :
    (stale objects : List ObjectRow) (links : List LinkRow)
    → All (Unlinked links) stale
    → AllLive objects links
    → AllLive (tombstone_all stale objects) links
unfolding tombstone_all
tombstone_all-AllLive [] objects links u h = h
tombstone_all-AllLive (o ∷ os) objects links (here, rest) h =
    tombstone_all-AllLive os (set_tombstoned true o.object_key objects) links rest
      (AllLive-tombstone o.object_key objects links (no_links o.object_key links here) h)

stale-Unlinked :
    (volume_id : VolumeId) (scan_generation : ℕ) (links : List LinkRow) (o : ObjectRow)
    → is_stale_object volume_id scan_generation links o ≡ true
    → Unlinked links o
stale-Unlinked volume_id scan_generation links o h = ground (arith, h)

All-map :
    {A : Type 0} {P Q : A → Type 0} (rows : List A)
    → ((a : A) → P a → Q a)
    → All P rows
    → All Q rows
All-map [] f h = tt
All-map (r ∷ rs) f (here, rest) = (f r here, All-map rs f rest)

stale_objects-Unlinked :
    (volume_id : VolumeId) (scan_generation maximum_rows : ℕ) (g : FilesystemGraph)
    → All (Unlinked g.links) (stale_objects volume_id scan_generation maximum_rows g)
unfolding stale_objects
stale_objects-Unlinked volume_id scan_generation maximum_rows g = All-take _ maximum_rows _ (
    All-order_by _ _ (Unlinked g.links)
      (select (is_stale_object volume_id scan_generation g.links) g.objects)
      (All-map _ (λ o. stale-Unlinked volume_id scan_generation g.links o)
        (All-select (is_stale_object volume_id scan_generation g.links) g.objects)))

activate-LinksLive :
    (volume_id : VolumeId) (generation : ℕ) (checkpoint : Option ProviderCheckpoint)
    (g : FilesystemGraph)
    → LinksLive g
    → Ensures LinksLive (activate_observation_checkpoint volume_id generation checkpoint g)
unfolding activate_observation_checkpoint save_checkpoint enqueue_volume_projection_refresh
activate-LinksLive volume_id generation checkpoint g h =
    bind-Ensures LinksLive (ok_or checkpoint _) _ λ c e. h

sweep_objects-LinksLive :
    (volume_id : VolumeId) (scan_generation maximum_rows : ℕ) (g : FilesystemGraph)
    → LinksLive g
    → LinksLive (sweep_stale_observation_objects volume_id scan_generation maximum_rows g).0
unfolding sweep_stale_observation_objects
sweep_objects-LinksLive volume_id scan_generation maximum_rows g h =
    tombstone_all-AllLive (stale_objects volume_id scan_generation maximum_rows g) g.objects g.links
      (stale_objects-Unlinked volume_id scan_generation maximum_rows g) h

close_sweep-LinksLive :
    (terminal : Bool) (volume_id : VolumeId) (generation : ℕ)
    (checkpoint : Option ProviderCheckpoint) (g : FilesystemGraph)
    → LinksLive g
    → Ensures LinksLive (
        if terminal
        then activate_observation_checkpoint volume_id generation checkpoint g
        else ok (set_generation volume_id generation g))
unfolding set_generation
close_sweep-LinksLive true volume_id generation checkpoint g h =
    activate-LinksLive volume_id generation checkpoint g h
close_sweep-LinksLive false volume_id generation checkpoint g h = h

module _ (encoding : Encoding) where
  sweep_links-LinksLive :
      (stale : List LinkRow) (generation : ℕ) (g : FilesystemGraph)
      → LinksLive g
      → Ensures LinksLive (sweep_links encoding stale generation g)
  unfolding sweep_links
  sweep_links-LinksLive [] generation g h = h
  sweep_links-LinksLive (l ∷ ls) generation g h =
      bind-Ensures LinksLive (remove_link_internal l.file_link_id l.object_key generation false g) _
        λ p e.
          let live =
            Ensures-ok (λ p. LinksLive p.0) _ p
              (remove_link_internal-LinksLive l.file_link_id l.object_key generation false g h) e in
          bind-Ensures LinksLive
            (sync_catalog_projection encoding l.file_link_id generation durable p.0) _
            λ q s.
              let same =
                Ensures-ok _ _ q (sync-files encoding l.file_link_id generation durable p.0) s in
              sweep_links-LinksLive ls generation q.0
                (subst (λ (f : Files). AllLive f.objects f.links) (sym same) live)

  sweep_stale_links-LinksLive :
      (volume_id : VolumeId) (scan_generation generation maximum_rows : ℕ) (g : FilesystemGraph)
      → LinksLive g
      → Ensures
          (λ p. LinksLive p.0)
          (sweep_stale_observation_links encoding volume_id scan_generation generation maximum_rows
            g)
  unfolding sweep_stale_observation_links
  sweep_stale_links-LinksLive volume_id scan_generation generation maximum_rows g h =
      let stale = stale_links volume_id scan_generation maximum_rows g in
      bind-Ensures _ (sweep_links encoding stale generation g) _ λ g' e.
        let live = Ensures-ok LinksLive _ g' (sweep_links-LinksLive stale generation g h) e in
        elim (Bool-cases (ltb (length stale) maximum_rows)) [
          | inl few ↦ rw few live
          | inr full ↦ rw full live
        ]

  finalize_links-LinksLive :
      (phase : ObservationScanPhase) (volume_id : VolumeId) (session : SessionRow)
      (generation maximum_rows : ℕ) (g : FilesystemGraph)
      → LinksLive g
      → Ensures
          (λ p. LinksLive p.0)
          (finalize_phase encoding phase volume_id session generation maximum_rows g)
  unfolding set_generation
  finalize_links-LinksLive ObservationScanPhase.sweeping_objects volume_id session generation
        maximum_rows g h =
      let swept =
        sweep_stale_observation_objects volume_id session.scan_generation maximum_rows g in
      let live = sweep_objects-LinksLive volume_id session.scan_generation maximum_rows g h in
      bind-Ensures _
        (if swept.2
          then activate_observation_checkpoint volume_id generation session.final_checkpoint swept.0
          else ok (set_generation volume_id generation swept.0))
        _
        λ g' e.
          Ensures-ok LinksLive _ g'
            (close_sweep-LinksLive swept.2 volume_id generation session.final_checkpoint swept.0
              live)
            e
  finalize_links-LinksLive ObservationScanPhase.sweeping_links volume_id session generation
        maximum_rows g h =
      bind-Ensures _
        (sweep_stale_observation_links encoding volume_id session.scan_generation generation
          maximum_rows g)
        _
        λ p e.
          Ensures-ok (λ p. LinksLive p.0) _ p
            (sweep_stale_links-LinksLive volume_id session.scan_generation generation maximum_rows g
              h)
            e
  finalize_links-LinksLive ObservationScanPhase.scanning volume_id session generation maximum_rows g
        h =
      bind-Ensures _
        (sweep_stale_observation_links encoding volume_id session.scan_generation generation
          maximum_rows g)
        _
        λ p e.
          Ensures-ok (λ p. LinksLive p.0) _ p
            (sweep_stale_links-LinksLive volume_id session.scan_generation generation maximum_rows g
              h)
            e

  pub finalize-LinksLive :
      (volume_id : VolumeId) (maximum_rows : ℕ) (g : FilesystemGraph)
      → LinksLive g
      → LinksLive (finalize_observation_scan encoding volume_id maximum_rows g).0
  unfolding finalize_observation_scan finalize_scan
  finalize-LinksLive volume_id maximum_rows g h =
      let P = λ (p : FilesystemGraph × ObservationFinalizeSummary). LinksLive p.0 in
      elim (Bool-cases (maximum_rows == 0)) [
        | inl e ↦ rw e h
        | inr e ↦ rw e (
            transact-LinksLive g (finalize_scan encoding volume_id maximum_rows g) h (
              bind-Ensures P (ok_or (find (of_session volume_id) g.sessions) _) _ λ session s.
                bind-Ensures P (reject_if (phase_eq session.phase ObservationScanPhase.scanning) _)
                  _
                  λ u r.
                    bind-Ensures P (ok_or (find (of_volume volume_id) g.volumes) _) _ λ volume v.
                      bind-Ensures P (checked_add_one volume.generation _) _ λ generation c.
                        finalize_links-LinksLive session.phase volume_id session generation
                          maximum_rows g h))
      ]

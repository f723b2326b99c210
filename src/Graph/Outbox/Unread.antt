-- ===== src/Graph/Outbox/Unread.antt =====
-- Pruning never takes a row that a registered consumer has still to read
-- (crates/filesystem-graph/src/store.rs).
use local_search.Prelude.{
  ℕ, zero, suc, ◌≤◌, ◌≡◌, refl, ap, subst, Bool, true, false, ◌||◌, Option, none, some, List, [],
  ◌∷◌, map, take, ltb, leb, ◌==◌, ok, reject_if, Ensures, bind-Ensures, arith, Bool-cases, inl, inr,
}
use local_search.Core.Models.{Text, MutationBatch}
use local_search.Graph.Rows.{select, find, delete}
use local_search.Graph.Types.{GraphResult, ProjectorCheckpoint, OutboxMaintenanceSummary}
use local_search.Graph.Tables.{OutboxRow, FilesystemGraph, i64_max}
use local_search.Graph.Outbox.{
  beyond, sequenced, read_outbox, of_consumer, projector_checkpoint, lesser, least, through,
  prune_through, prune_consumed_outbox, delete_first, safe_through, prune_bounded,
  prune_rebuildable_outbox_bounded,
}

-- Some position is the least, and it is at most that of every consumer.
abbrev LeastFor : ProjectorCheckpoint → Option ℕ → Type 0
LeastFor c none = ⊥
LeastFor c (some n) = n ≤ c.last_sequence

lesser_self : (c : ProjectorCheckpoint) (o : Option ℕ) → LeastFor c (lesser c o)
lesser_self c none = ground arith
lesser_self c (some n) = ground arith

lesser-later : (d c : ProjectorCheckpoint) (o : Option ℕ) → LeastFor c o → LeastFor c (lesser d o)
lesser-later d c none h = absurd h
lesser-later d c (some n) h = ground (arith, h)

find-head :
    (p : ProjectorCheckpoint → Bool) (d c : ProjectorCheckpoint) (rows : List ProjectorCheckpoint)
    → p d ≡ true
    → find p (d ∷ rows) ≡ some c
    → d ≡ c
find-head p d c rows e f = ground (arith, e, f)

find-tail :
    (p : ProjectorCheckpoint → Bool) (d c : ProjectorCheckpoint) (rows : List ProjectorCheckpoint)
    → p d ≡ false
    → find p (d ∷ rows) ≡ some c
    → find p rows ≡ some c
find-tail p d c rows e f = ground (arith, e, f)

least-LeastFor :
    (id : Text) (consumers : List ProjectorCheckpoint) (c : ProjectorCheckpoint)
    → find (of_consumer id) consumers ≡ some c
    → LeastFor c (least consumers)
least-LeastFor id [] c f = cc
least-LeastFor id (d ∷ []) c f =
    elim (Bool-cases (of_consumer id d)) as (λ _. d.last_sequence ≤ c.last_sequence) [
      | inl e ↦
          rw
            (ap (λ (r : ProjectorCheckpoint). r.last_sequence)
              (find-head (of_consumer id) d c [] e f))
            (omega arith)
      | inr e ↦ cc (find-tail (of_consumer id) d c [] e f)
    ]
least-LeastFor id (d ∷ e ∷ cs) c f =
    elim (Bool-cases (of_consumer id d)) as (λ _. LeastFor c (lesser d (least (e ∷ cs)))) [
      | inl w ↦
          subst (λ r. LeastFor r (lesser d (least (e ∷ cs))))
            (find-head (of_consumer id) d c (e ∷ cs) w f) (lesser_self d (least (e ∷ cs)))
      | inr w ↦
          lesser-later d c (least (e ∷ cs))
            (least-LeastFor id (e ∷ cs) c (find-tail (of_consumer id) d c (e ∷ cs) w f))
    ]

-- Pruning through a position leaves what is beyond a later one.
select-delete :
    (after last : ℕ) (rows : List OutboxRow)
    → last ≤ after
    → select (beyond after) (delete (through last) rows) ≡ select (beyond after) rows
select-delete after last [] h = refl
select-delete after last (r ∷ rs) h = ground (arith, select-delete after last rs h)

select-delete_first :
    (n after last : ℕ) (rows : List OutboxRow)
    → last ≤ after
    → select (beyond after) (delete_first n (through last) rows) ≡ select (beyond after) rows
unfolding delete_first
select-delete_first zero after last [] h = refl
select-delete_first (suc n) after last [] h = refl
select-delete_first zero after last (r ∷ rs) h = refl
select-delete_first (suc n) after last (r ∷ rs) h =
    ground
      (arith, select-delete_first n after last rs h, select-delete_first (suc n) after last rs h)

-- The same rows beyond a position.
abbrev SameBeyond : ℕ → FilesystemGraph → FilesystemGraph → Type 0
SameBeyond after g g' = select (beyond after) g'.outbox ≡ select (beyond after) g.outbox

prune_through-SameBeyond :
    (c : ProjectorCheckpoint) (o : Option ℕ) (g : FilesystemGraph)
    → LeastFor c o
    → SameBeyond c.last_sequence g (prune_through o g).0
prune_through-SameBeyond c none g h = refl
prune_through-SameBeyond c (some n) g h = select-delete c.last_sequence n g.outbox h

prune_bounded-SameBeyond :
    (c : ProjectorCheckpoint) (o : Option ℕ) (maximum_rows : ℕ) (allow : Bool) (g : FilesystemGraph)
    → LeastFor c o
    → SameBeyond c.last_sequence g
        (prune_bounded maximum_rows g (safe_through allow o g.sequence)).0
prune_bounded-SameBeyond c none maximum_rows allow g h = absurd h
prune_bounded-SameBeyond c (some n) maximum_rows allow g h =
    select-delete_first maximum_rows c.last_sequence n g.outbox h

read_outbox-SameBeyond :
    (after limit : ℕ) (g g' : FilesystemGraph)
    → SameBeyond after g g'
    → read_outbox (some after) limit g' ≡ read_outbox (some after) limit g
unfolding read_outbox
read_outbox-SameBeyond after limit g g' h =
    let batch : List OutboxRow → GraphResult MutationBatch =
      λ rows. ok (record { mutations = map sequenced (take limit rows) }) in
    elim (Bool-cases (leb after i64_max)) [ inl e ↦ rw e (ap batch h) | inr e ↦ rw e refl ]

-- A registered consumer reads, from the position that it has acknowledged, the same batch after
-- either kind of pruning as before it, for whatever limit on the batch, bound on the pruning and
-- permission to prune without consumers.
pub read_outbox-prune :
    (id : Text) (c : ProjectorCheckpoint) (limit maximum_rows : ℕ) (allow : Bool)
    (g : FilesystemGraph)
    → projector_checkpoint id g ≡ some c
    → (read_outbox (some c.last_sequence) limit (prune_consumed_outbox g).0
        ≡ read_outbox (some c.last_sequence) limit g)
      × Ensures
          (λ p.
            read_outbox (some c.last_sequence) limit p.0
            ≡ read_outbox (some c.last_sequence) limit g)
          (prune_rebuildable_outbox_bounded maximum_rows allow g)
unfolding projector_checkpoint prune_consumed_outbox prune_rebuildable_outbox_bounded
read_outbox-prune id c limit maximum_rows allow g f =
    let behind = least-LeastFor id g.consumers c f in
    (
      read_outbox-SameBeyond c.last_sequence limit g _
          (prune_through-SameBeyond c (least g.consumers) g behind),
      bind-Ensures
          (λ (p : FilesystemGraph × OutboxMaintenanceSummary).
            read_outbox (some c.last_sequence) limit p.0
            ≡ read_outbox (some c.last_sequence) limit g)
          (reject_if (maximum_rows == 0 || ltb 100000 maximum_rows) _) _
          λ u r.
            read_outbox-SameBeyond c.last_sequence limit g _
              (prune_bounded-SameBeyond c (least g.consumers) maximum_rows allow g behind),
    )

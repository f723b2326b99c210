-- ===== src/Catalog/Cursor.antt =====
-- What a consumer has still to read, before and after it acknowledges a batch
-- (crates/filesystem-graph/src/store.rs).
use local_search.Prelude.{
  ltb→lt, length-take, ◌<◌, ℕ, zero, suc, ◌+◌, ◌≤◌, ◌≡◌, ◌∙◌, refl, sym, ap, subst, true, false,
  Option, none, some, List, [], ◌∷◌, ◌++◌, map, take, drop, length, ltb, leb, arith, Bool-cases,
  inl, inr, reject_if, Ensures, bind-Ensures, is_some_and,
}
use local_search.Core.Models.{Text, last_sequence}
use local_search.Graph.Rows.{All, select, exists, find, update}
use local_search.Graph.Rows.Ordered.{All-select}
use local_search.Graph.Types.{ProjectorCheckpoint}
use local_search.Graph.Tables.{OutboxRow, FilesystemGraph, text_eq, i64_max}
use local_search.Graph.Outbox.{
  beyond, sequenced, latest_outbox_sequence, of_consumer, projector_checkpoint,
  acknowledge_projection, write_consumer,
}
use local_search.Graph.Outbox.Sequence.{Runs}

select-beyond_later :
    (m n : ℕ) (rows : List OutboxRow)
    → m ≤ n
    → select (beyond n) (select (beyond m) rows) ≡ select (beyond n) rows
select-beyond_later m n [] l = refl
select-beyond_later m n (r ∷ rs) l = ground (arith, l, select-beyond_later m n rs l)

-- Rows that are numbered from a position on are all beyond an earlier one.
pub select-Runs :
    (m n last : ℕ) (rows : List OutboxRow)
    → m ≤ n
    → Runs n rows last
    → select (beyond m) rows ≡ rows
select-Runs m n last [] l h = refl
select-Runs m n last (r ∷ rs) l (here, rest) =
    ground (arith, here, l, select-Runs m (n + 1) last rs (omega (arith, l)) rest)

select-Runs-drop :
    (k n last : ℕ) (rows : List OutboxRow)
    → Runs n rows last
    → k ≤ length rows
    → select (beyond (n + k)) rows ≡ drop k rows
select-Runs-drop zero n last rows h l = select-Runs (n + 0) n last rows (omega arith) h
select-Runs-drop (suc k) n last [] h l = refl
select-Runs-drop (suc k) n last (r ∷ rs) (here, rest) l =
    let ih = select-Runs-drop k (n + 1) last rs rest (omega (arith, l)) in
    let shut : beyond (n + suc k) r ≡ false = ground (arith, here) in
    rw shut (subst (λ m. select (beyond m) rs ≡ drop k rs) (omega arith) ih)

pub last-Runs :
    (k n last : ℕ) (r : OutboxRow) (rows : List OutboxRow)
    → Runs n (r ∷ rows) last
    → last_sequence (record { mutations = map sequenced (take (suc k) (r ∷ rows)) })
      ≡ some (n + length (take (suc k) (r ∷ rows)))
unfolding last_sequence
last-Runs zero n last r rows (here, rest) = ap some here
last-Runs (suc k) n last r [] (here, rest) = ap some here
last-Runs (suc k) n last r (q ∷ rows) (here, rest) =
    last-Runs k (n + 1) last q rows rest ∙ ap some (omega arith)

text_eq_refl : (text : Text) → text_eq text text ≡ true
text_eq_refl [] = refl
text_eq_refl (c ∷ cs) = ground (arith, text_eq_refl cs)

-- The consumer's row has a position and a generation.
abbrev pub HasPosition : ℕ → ℕ → Option ProjectorCheckpoint → Type 0
HasPosition last generation none = ⊥
HasPosition last generation (some c) = (c.last_sequence ≡ last) × (c.index_generation ≡ generation)

abbrev advance : ProjectorCheckpoint → ProjectorCheckpoint → ProjectorCheckpoint
advance row old = record old {
  last_sequence = row.last_sequence;
  index_generation = row.index_generation;
}

update-HasPosition :
    (row : ProjectorCheckpoint) (rows : List ProjectorCheckpoint)
    → exists (of_consumer row.consumer_id) rows ≡ true
    → HasPosition row.last_sequence row.index_generation (
        find
          (of_consumer row.consumer_id)
          (update (of_consumer row.consumer_id) (advance row) rows))
update-HasPosition row [] h = cc h
update-HasPosition row (c ∷ cs) h = elim (Bool-cases (of_consumer row.consumer_id c)) [
  | inl e ↦ rw (e, e) (refl, refl)
  | inr e ↦ rw (e, e) (update-HasPosition row cs (ground (arith, h, e)))
]

append-HasPosition :
    (row : ProjectorCheckpoint) (rows : List ProjectorCheckpoint)
    → exists (of_consumer row.consumer_id) rows ≡ false
    → HasPosition row.last_sequence row.index_generation
        (find (of_consumer row.consumer_id) (rows ++ row ∷ []))
append-HasPosition row [] h = rw (text_eq_refl row.consumer_id) (refl, refl)
append-HasPosition row (c ∷ cs) h = elim (Bool-cases (of_consumer row.consumer_id c)) [
  | inl e ↦ absurd (ground (arith, h, e))
  | inr e ↦ rw e (append-HasPosition row cs (ground (arith, h, e)))
]

write-HasPosition :
    (row : ProjectorCheckpoint) (g : FilesystemGraph)
    → HasPosition row.last_sequence row.index_generation
        (find (of_consumer row.consumer_id) (write_consumer row g).consumers)
write-HasPosition row g = elim (Bool-cases (exists (of_consumer row.consumer_id) g.consumers)) [
  | inl e ↦ rw e (update-HasPosition row g.consumers e)
  | inr e ↦ rw e (append-HasPosition row g.consumers e)
]

-- The consumer has acknowledged a position, and the outbox is as it was.
abbrev pub Acknowledged : Text → ℕ → ℕ → FilesystemGraph → FilesystemGraph → Type 0
Acknowledged id last generation g g' =
    HasPosition last generation (projector_checkpoint id g')
    × (g'.outbox ≡ g.outbox)
    × (g'.sequence ≡ g.sequence)
    × (g'.documents ≡ g.documents)

pub acknowledge-Acknowledged :
    (id : Text) (last generation : ℕ) (g : FilesystemGraph)
    → Ensures (Acknowledged id last generation g) (acknowledge_projection id last generation g)
unfolding acknowledge_projection projector_checkpoint
acknowledge-Acknowledged id last generation g =
    let P = Acknowledged id last generation g in
    let row : ProjectorCheckpoint = record {
      consumer_id = id;
      last_sequence = last;
      index_generation = generation;
    } in
    bind-Ensures P (reject_if (ltb (latest_outbox_sequence g) last) _) _ λ u r.
      bind-Ensures P (reject_if (is_some_and (find (of_consumer id) g.consumers) _) _) _ λ v s.
        elim (Bool-cases (leb last i64_max)) [
          | inr e ↦ rw e tt
          | inl e ↦ rw e (elim (Bool-cases (leb generation i64_max)) [
            | inr f ↦ rw f tt
            | inl f ↦ rw f (write-HasPosition row g, refl, refl, refl)
          ])
        ]

pub Runs-length : (n last : ℕ) (rows : List OutboxRow) → Runs n rows last → n + length rows ≡ last
Runs-length n last [] h = omega (arith, h)
Runs-length n last (r ∷ rs) (here, rest) = omega (arith, Runs-length (n + 1) last rs rest)

-- A batch ends within the sequences.
pub taken-le :
    (k n last : ℕ) (rows : List OutboxRow) → Runs n rows last → n + length (take k rows) ≤ last
taken-le k n last rows h = omega (arith, Runs-length n last rows h, length-take k rows)

length-take_le : {A : Type 0} (k : ℕ) (rows : List A) → length (take k rows) ≤ length rows
length-take_le k rows = omega (arith, length-take k rows)

drop-taken : {A : Type 0} (k : ℕ) (rows : List A) → drop (length (take k rows)) rows ≡ drop k rows
drop-taken zero rows = refl
drop-taken (suc k) [] = refl
drop-taken (suc k) (r ∷ rs) = drop-taken k rs

first-beyond :
    (after : ℕ) (outbox : List OutboxRow) (r : OutboxRow) (rs : List OutboxRow)
    → select (beyond after) outbox ≡ r ∷ rs
    → after < r.sequence
first-beyond after outbox r rs e =
    ltb→lt after r.sequence
      (subst (λ rows. All (λ row. beyond after row ≡ true) rows) e
        (All-select (beyond after) outbox)).0

-- After a batch is acknowledged the rows that were not in it are to be read.
pub unread-acknowledged :
    (after last n k : ℕ) (outbox : List OutboxRow) (r : OutboxRow) (rs : List OutboxRow)
    → select (beyond after) outbox ≡ r ∷ rs
    → Runs n (r ∷ rs) last
    → select (beyond (n + length (take (suc k) (r ∷ rs)))) outbox ≡ drop (suc k) (r ∷ rs)
unread-acknowledged after last n k outbox r rs e h =
    let taken = length (take (suc k) (r ∷ rs)) in
    let above : after ≤ n + taken = omega (arith, first-beyond after outbox r rs e, h.0) in
    sym (select-beyond_later after (n + taken) outbox above)
    ∙ ap (select (beyond (n + taken))) e
    ∙ select-Runs-drop taken n last (r ∷ rs) h (length-take_le (suc k) (r ∷ rs))
    ∙ drop-taken (suc k) (r ∷ rs)

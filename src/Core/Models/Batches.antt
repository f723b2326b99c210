-- ===== src/Core/Models/Batches.antt =====
-- Which mutation batches `validate` accepts (crates/core/src/models.rs).
use local_search.Prelude.{
  ℕ, ◌+◌, ◌-◌, ◌<◌, ◌≡◌, ◌↔◌, refl, some, List, [], ◌∷◌, length, u64_max, ok, arith,
}
use local_search.Core.Models.{
  SequencedMutation, MutationBatch, validate_from, validate, first_sequence, last_sequence, last,
}

-- The sequences are `n`, `n + 1`, … in order, all below the u64 ceiling.
abbrev pub Consecutive : ℕ → List SequencedMutation → Type 0
Consecutive n [] = Unit
Consecutive n (m ∷ ms) = (m.sequence ≡ n) × (n < u64_max) × Consecutive (n + 1) ms

validate_from_sound :
    (n : ℕ) (ms : List SequencedMutation) → validate_from n ms ≡ ok tt → Consecutive n ms
unfolding validate_from
validate_from_sound n [] h = tt
validate_from_sound n (m ∷ ms) h = ground (arith, validate_from_sound (n + 1) ms)

validate_from_complete :
    (n : ℕ) (ms : List SequencedMutation) → Consecutive n ms → validate_from n ms ≡ ok tt
unfolding validate_from
validate_from_complete n [] h = refl
validate_from_complete n (m ∷ ms) h = ground (arith, validate_from_complete (n + 1) ms h.2)

abbrev pub IsConsecutive : List SequencedMutation → Type 0
IsConsecutive [] = ⊥
IsConsecutive (m ∷ ms) = Consecutive m.sequence (m ∷ ms)

validate_list_iff :
    (ms : List SequencedMutation)
    → (validate (record { mutations = ms }) ≡ ok tt) ↔ IsConsecutive ms
unfolding validate
validate_list_iff [] = ((λ h. cc), (λ h. absurd h))
validate_list_iff (m ∷ ms) =
    (validate_from_sound m.sequence (m ∷ ms), validate_from_complete m.sequence (m ∷ ms))

-- A batch is accepted exactly when it is not empty and its sequences are consecutive and all below
-- the largest u64.
pub validate_batch_iff : (b : MutationBatch) → (validate b ≡ ok tt) ↔ IsConsecutive b.mutations
validate_batch_iff b = validate_list_iff b.mutations

last-Consecutive :
    (n : ℕ) (m : SequencedMutation) (ms : List SequencedMutation)
    → Consecutive n (m ∷ ms)
    → last (m ∷ ms) ≡ some (n + length ms)
last-Consecutive n m [] h = ground arith
last-Consecutive n m (k ∷ ms) h = ground (arith, last-Consecutive (n + 1) k ms h.2)

bounds_of_list :
    (ms : List SequencedMutation) {f : ℕ}
    → IsConsecutive ms
    → first_sequence (record { mutations = ms }) ≡ some f
    → last_sequence (record { mutations = ms }) ≡ some (f + length ms - 1)
unfolding first_sequence last_sequence
bounds_of_list [] h e = absurd h
bounds_of_list (m ∷ ms) h e = ground (arith, last-Consecutive m.sequence m ms h)

-- The last sequence of an accepted batch is its first one plus the number of mutations less one: no
-- outbox sequence between them is missing or doubled.
pub validate_bounds :
    (b : MutationBatch) (f : ℕ)
    → validate b ≡ ok tt
    → first_sequence b ≡ some f
    → last_sequence b ≡ some (f + length b.mutations - 1)
validate_bounds b f h e = bounds_of_list b.mutations ((validate_batch_iff b).0 h) e

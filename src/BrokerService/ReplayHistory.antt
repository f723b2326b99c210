-- ===== src/BrokerService/ReplayHistory.antt =====
-- Lists of request identifiers, for the replay window (`ReplayWindow` of crates/fs-service/src/lib.rs).
use local_search.Prelude.{
  ℕ, zero, suc, ◌+◌, ◌-◌, ◌≤◌, ◌<◌, ◌≡◌, ◌↔◌, refl, ap, sym, ◌∙◌, true, false, ◌&&◌, ◌||◌, not,
  List, [], ◌∷◌, ◌++◌, length, length-append, length-drop, drop, arith,
}
use local_search.Core.Models.{Text}
use local_search.BrokerService.Replay.{text_eq, contains, remove}

pub text_eq_iff : (s t : Text) → (text_eq s t ≡ true) ↔ (s ≡ t)
unfolding text_eq
text_eq_iff [] [] = ground arith
text_eq_iff [] (d ∷ ds) = ground arith
text_eq_iff (c ∷ cs) [] = ground arith
text_eq_iff (c ∷ cs) (d ∷ ds) = ground (arith, text_eq_iff cs ds)

pub text_eq_refl : (t : Text) → text_eq t t ≡ true
text_eq_refl t = (text_eq_iff t t).1 refl

pub contains-append :
    (x : Text) (xs ys : List Text) → contains x (xs ++ ys) ≡ (contains x xs || contains x ys)
unfolding contains
contains-append x [] ys = refl
contains-append x (t ∷ ts) ys = ground (arith, contains-append x ts ys)

pub contains-remove :
    (x id : Text) (xs : List Text)
    → contains x (remove id xs) ≡ (not (text_eq x id) && contains x xs)
unfolding contains remove
contains-remove x id [] = ground arith
contains-remove x id (t ∷ ts) =
    ground (arith, contains-remove x id ts, text_eq_iff id t, text_eq_iff x id, text_eq_iff x t)

abbrev pub IsDistinct : List Text → Type 0
IsDistinct [] = Unit
IsDistinct (t ∷ ts) = (contains t ts ≡ false) × IsDistinct ts

pub IsDistinct-append :
    (id : Text) (xs : List Text)
    → contains id xs ≡ false
    → IsDistinct xs
    → IsDistinct (xs ++ id ∷ [])
unfolding contains
IsDistinct-append id [] c d = (refl, tt)
IsDistinct-append id (t ∷ ts) c (n, d) = (
  ground (arith, contains-append t ts (id ∷ []), text_eq_iff id t, text_eq_iff t id),
  IsDistinct-append id ts (ground (arith, c)) d,
)

-- The last `capacity` of the identifiers that were admitted
abbrev pub recent : ℕ → List Text → List Text
recent capacity history = drop (length history - capacity) history

pub drop_empty : (n : ℕ) → drop {A = Text} n [] ≡ []
drop_empty zero = refl
drop_empty (suc n) = refl

pub drop-append :
    (n : ℕ) (xs : List Text) (id : Text)
    → n ≤ length xs
    → drop n (xs ++ id ∷ []) ≡ drop n xs ++ id ∷ []
drop-append zero xs id h = refl
drop-append (suc n) [] id h = ground (arith, h)
drop-append (suc n) (x ∷ xs) id h = drop-append n xs id (omega arith)

drop_one : (n : ℕ) (xs : List Text) → drop 1 (drop n xs) ≡ drop (suc n) xs
drop_one zero xs = refl
drop_one (suc n) [] = refl
drop_one (suc n) (x ∷ xs) = drop_one n xs

length-recent_append :
    (capacity : ℕ) (history : List Text) (id : Text)
    → length (recent capacity history ++ id ∷ []) ≡ length history - (length history - capacity) + 1
length-recent_append capacity history id = omega (
  arith,
  length-append (recent capacity history) (id ∷ []),
  length-drop (length history - capacity) history,
)

-- The window's new queue is within its capacity: nothing is forgotten.
pub recent-append_short :
    (capacity : ℕ) (history : List Text) (id : Text)
    → length (recent capacity history ++ id ∷ []) ≤ capacity
    → recent capacity history ++ id ∷ [] ≡ recent capacity (history ++ id ∷ [])
recent-append_short capacity history id h =
    let counted = length-recent_append capacity history id in
    let grown = length-append history (id ∷ []) in
    let before : length history - capacity ≡ 0 = omega (arith, h, counted) in
    let after : 0 ≡ length (history ++ id ∷ []) - capacity = omega (arith, h, counted, grown) in
    ap (λ n. drop n history ++ id ∷ []) before ∙ ap (λ n. drop n (history ++ id ∷ [])) after

-- It is beyond its capacity: the oldest one is forgotten.
pub recent-append_long :
    (capacity : ℕ) (history : List Text) (id : Text)
    → capacity < length (recent capacity history ++ id ∷ [])
    → drop 1 (recent capacity history ++ id ∷ []) ≡ recent capacity (history ++ id ∷ [])
recent-append_long capacity history id h =
    let counted = length-recent_append capacity history id in
    let grown = length-append history (id ∷ []) in
    let after : suc (length history - capacity) ≡ length (history ++ id ∷ []) - capacity =
      omega (arith, h, counted, grown) in
    ap (drop 1) (sym (drop-append (length history - capacity) history id (omega arith)))
    ∙ drop_one (length history - capacity) (history ++ id ∷ [])
    ∙ ap (λ n. drop n (history ++ id ∷ [])) after

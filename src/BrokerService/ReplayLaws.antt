-- ===== src/BrokerService/ReplayLaws.antt =====
-- What the replay window refuses (`ReplayWindow` of crates/fs-service/src/lib.rs).
use local_search.Prelude.{
  ℕ, ◌-◌, ◌≤◌, ◌<◌, ◌≡◌, refl, ap, sym, ◌∙◌, Bool, false, not, List, [], ◌∷◌, ◌++◌, length, drop,
  ltb, if◌then◌else◌, arith, subst, Bool-cases, inl, inr,
}
use local_search.Core.Models.{Text}
use local_search.BrokerService.Replay.{contains, ReplayWindow, new, expire, admit}
use local_search.BrokerService.ReplayHistory.{
  text_eq_iff, contains-append, contains-remove, IsDistinct-append, drop_empty, recent-append_short,
  recent-append_long, IsDistinct, recent,
}

-- The window's queue holds the last `capacity` identifiers of the history, without a double, and
-- its set the same ones.
pub record Represents (w : ReplayWindow) (history : List Text) : Type 0 where
  pub queue : w.order ≡ recent w.capacity history
  pub distinct : IsDistinct w.order
  pub same : (x : Text) → contains x w.present ≡ contains x w.order

pub new-Represents : (capacity : ℕ) → Represents (new capacity) []
unfolding new contains
new-Represents capacity = record {
  queue = sym (drop_empty (0 - capacity));
  distinct = tt;
  same = λ x. refl;
}

expire-Represents :
    (w : ReplayWindow) (order history : List Text)
    → w.order ≡ order
    → IsDistinct order
    → ((x : Text) → contains x w.present ≡ contains x order)
    → (length order ≤ w.capacity → order ≡ recent w.capacity history)
    → (w.capacity < length order → drop 1 order ≡ recent w.capacity history)
    → Represents (expire w order) history
unfolding expire contains
expire-Represents w [] history o d s short long = record {
  queue = o ∙ short (omega arith);
  distinct = ground (arith, o);
  same = λ x. s x ∙ ap (contains x) (sym o);
}
expire-Represents w (t ∷ ts) history o d s short long =
    elim (Bool-cases (ltb w.capacity (length (t ∷ ts)))) [
      | inl over ↦ record {
        queue = ground (arith, over, long);
        distinct = ground (arith, over, d);
        same = λ x. ground (
          arith,
          over,
          s x,
          contains-remove x t w.present,
          text_eq_iff x t,
          text_eq_iff t x,
          d.0,
        );
      }
      | inr within ↦ record {
        queue = ground (arith, within, o, short);
        distinct = ground (arith, within, o, d);
        same = λ x. ground (arith, within, s x, o);
      }
    ]

-- What `admit` answers for an identifier, by the history of those that it admitted before.
abbrev pub admits : ℕ → List Text → Text → Bool
admits capacity history id = not (contains id (recent capacity history))

abbrev pub admitted : ℕ → List Text → Text → List Text
admitted capacity history id =
    if contains id (recent capacity history) then history else history ++ id ∷ []

expire-capacity : (w : ReplayWindow) (order : List Text) → (expire w order).capacity ≡ w.capacity
unfolding expire
expire-capacity w [] = refl
expire-capacity w (t ∷ ts) = ground arith

pub present-recent :
    (w : ReplayWindow) (history : List Text) (id : Text)
    → Represents w history
    → contains id w.present ≡ contains id (recent w.capacity history)
present-recent w history id r = r.same id ∙ ap (contains id) r.queue

grow-Represents :
    (w : ReplayWindow) (history : List Text) (id : Text)
    → Represents w history
    → contains id w.present ≡ false
    → let order = w.order ++ id ∷ [] in
      Represents
        (expire (record w { order = order; present = id ∷ w.present }) order)
        (history ++ id ∷ [])
unfolding contains
grow-Represents w history id r fresh =
    expire-Represents _ _ _ refl (IsDistinct-append id w.order (sym (r.same id) ∙ fresh) r.distinct)
      (λ x. ground (arith, r.same x, contains-append x w.order (id ∷ [])))
      (subst
        (λ o.
          length (o ++ id ∷ []) ≤ w.capacity
          → o ++ id ∷ [] ≡ recent w.capacity (history ++ id ∷ []))
        (sym r.queue) (recent-append_short w.capacity history id))
      (subst
        (λ o.
          w.capacity < length (o ++ id ∷ [])
          → drop 1 (o ++ id ∷ []) ≡ recent w.capacity (history ++ id ∷ []))
        (sym r.queue) (recent-append_long w.capacity history id))

-- `admit` answers by the last `capacity` identifiers of the history, and represents the new one.
pub admit-Represents :
    (w : ReplayWindow) (history : List Text) (id : Text)
    → Represents w history
    → ((admit id w).1 ≡ admits w.capacity history id)
      × Represents (admit id w).0 (admitted w.capacity history id)
      × ((admit id w).0.capacity ≡ w.capacity)
unfolding admit
admit-Represents w history id r = elim (Bool-cases (contains id w.present)) [
  | inl known ↦
      let past = sym (present-recent w history id r) ∙ known in rw (known, past) (refl, r, refl)
  | inr fresh ↦
      let past = sym (present-recent w history id r) ∙ fresh in
      rw (fresh, past) (refl, grow-Represents w history id r fresh, expire-capacity _ _)
]

-- A sequence of requests to a window, and what the history says about each.
abbrev pub answers : ReplayWindow → List Text → List Bool
answers w [] = []
answers w (id ∷ ids) = (admit id w).1 ∷ answers (admit id w).0 ids

abbrev pub expected : ℕ → List Text → List Text → List Bool
expected capacity history [] = []
expected capacity history (id ∷ ids) =
    admits capacity history id ∷ expected capacity (admitted capacity history id) ids

answers-Represents :
    (w : ReplayWindow) (history ids : List Text)
    → Represents w history
    → answers w ids ≡ expected w.capacity history ids
answers-Represents w history [] r = refl
answers-Represents w history (id ∷ ids) r =
    let (flag, next, kept) = admit-Represents w history id r in
    let later = answers-Represents (admit id w).0 (admitted w.capacity history id) ids next in
    ap (λ answer. answer ∷ answers (admit id w).0 ids) flag
    ∙ ap (λ tail. admits w.capacity history id ∷ tail)
        (later ∙ ap (λ c. expected c (admitted w.capacity history id) ids) kept)

-- A new window of any capacity answers every sequence of request identifiers as a list of all the
-- admitted ones does: an identifier is refused exactly when it is among the last `capacity`
-- identifiers that were admitted before it.
pub replay_window_refines :
    (capacity : ℕ) (ids : List Text) → answers (new capacity) ids ≡ expected capacity [] ids
unfolding new
replay_window_refines capacity ids =
    answers-Represents (new capacity) [] ids (new-Represents capacity)

-- ===== src/Graph/Rows/Ordered.antt =====
-- What an ordered and bounded selection keeps of its rows.
use local_search.Prelude.{ℕ, zero, suc, ◌≡◌, Bool, true, List, [], ◌∷◌, take, Bool-cases, inl, inr}
use local_search.Graph.Rows.{comes_before, insert_ordered, order_by, select, All}

module _ {A : Type 0} where
  pub All-select : (p : A → Bool) (rows : List A) → All (λ a. p a ≡ true) (select p rows)
  All-select p [] = tt
  All-select p (r ∷ rs) = elim (Bool-cases (p r)) [
    | inl e ↦ rw e (e, All-select p rs)
    | inr e ↦ rw e (All-select p rs)
  ]

  pub All-take : (P : A → Type 0) (n : ℕ) (rows : List A) → All P rows → All P (take n rows)
  All-take P zero [] h = tt
  All-take P zero (r ∷ rs) h = tt
  All-take P (suc n) [] h = tt
  All-take P (suc n) (r ∷ rs) (here, rest) = (here, All-take P n rs rest)

  module _ (generation identity : A → ℕ) (P : A → Type 0) where
    All-insert_ordered :
        (a : A) (rows : List A)
        → P a
        → All P rows
        → All P (insert_ordered generation identity a rows)
    unfolding insert_ordered
    All-insert_ordered a [] here rest = (here, tt)
    All-insert_ordered a (b ∷ bs) here (next, rest) =
        elim (Bool-cases (comes_before generation identity a b)) [
          | inl e ↦ rw e (here, (next, rest))
          | inr e ↦ rw e (next, All-insert_ordered a bs here rest)
        ]

    pub All-order_by : (rows : List A) → All P rows → All P (order_by generation identity rows)
    unfolding order_by
    All-order_by [] h = tt
    All-order_by (a ∷ as') (here, rest) =
        All-insert_ordered a (order_by generation identity as') here (All-order_by as' rest)

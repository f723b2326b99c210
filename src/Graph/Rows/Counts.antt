-- ===== src/Graph/Rows/Counts.antt =====
-- How many rows meet a condition, in the queries of the store
-- (crates/filesystem-graph/src/store.rs).
use local_search.Prelude.{
  ℕ, zero, suc, ◌+◌, ◌≤◌, ◌≡◌, refl, Bool, true, not, List, [], ◌∷◌, length, take, arith,
}
use local_search.Graph.Rows.{select, insert_ordered, order_by, All}

module _ {A : Type 0} where
  pub length-select-split :
      (p q : A → Bool) (rows : List A)
      → length (select p rows)
        ≡ length (select p (select (λ a. not (q a)) rows)) + length (select q (select p rows))
  length-select-split p q [] = refl
  length-select-split p q (r ∷ rs) = ground (arith, length-select-split p q rs)

  pub length-select-take :
      (q : A → Bool) (n : ℕ) (rows : List A)
      → length (select q (take n rows)) ≤ length (select q rows)
  length-select-take q zero rows = omega arith
  length-select-take q (suc n) [] = omega arith
  length-select-take q (suc n) (r ∷ rs) = ground (arith, length-select-take q n rs)

  pub length-select-All :
      (q : A → Bool) (rows : List A)
      → All (λ a. q a ≡ true) rows
      → length (select q rows) ≡ length rows
  length-select-All q [] h = refl
  length-select-All q (r ∷ rs) (here, rest) = ground (arith, here, length-select-All q rs rest)

  module _ (first second : A → ℕ) (q : A → Bool) where
    length-select-insert_ordered :
        (a : A) (rows : List A)
        → length (select q (insert_ordered first second a rows)) ≡ length (select q (a ∷ rows))
    unfolding insert_ordered
    length-select-insert_ordered a [] = refl
    length-select-insert_ordered a (b ∷ bs) = ground (arith, length-select-insert_ordered a bs)

    pub length-select-order_by :
        (rows : List A) → length (select q (order_by first second rows)) ≡ length (select q rows)
    unfolding order_by
    length-select-order_by [] = refl
    length-select-order_by (a ∷ as') = ground (
      arith,
      length-select-insert_ordered a (order_by first second as'),
      length-select-order_by as',
    )

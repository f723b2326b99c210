-- ===== src/Graph/Rows.antt =====
-- A table is the list of its rows, and an SQL statement is one of these over its condition.
pub mod Counts
pub mod Ordered
use local_search.Prelude.{
  ℕ, ◌&&◌, ltb, leb, ◌==◌, Bool, false, not, ◌||◌, Option, none, some, List, [], ◌∷◌, ◌++◌,
  if◌then◌else◌,
}

module _ {ℓ} {A : Type ℓ} where
  -- SELECT … WHERE
  abbrev pub select : (A → Bool) → List A → List A
  select p [] = []
  select p (r ∷ rs) = if p r then r ∷ select p rs else select p rs

  -- SELECT EXISTS(…)
  abbrev pub exists : (A → Bool) → List A → Bool
  exists p [] = false
  exists p (r ∷ rs) = p r || exists p rs

  -- `query_row(…).optional()`
  abbrev pub find : (A → Bool) → List A → Option A
  find p [] = none
  find p (r ∷ rs) = if p r then some r else find p rs

  -- DELETE … WHERE
  abbrev pub delete : (A → Bool) → List A → List A
  delete p rs = select (λ r. not (p r)) rs

  -- UPDATE … SET … WHERE
  abbrev pub update : (A → Bool) → (A → A) → List A → List A
  update p f [] = []
  update p f (r ∷ rs) = (if p r then f r else r) ∷ update p f rs

  -- INSERT … ON CONFLICT DO UPDATE, by the test for the row of the same key
  abbrev pub upsert : (A → Bool) → (A → A) → A → List A → List A
  upsert p f new rs = if exists p rs then update p f rs else rs ++ new ∷ []

abbrev pub All {ℓ κ} : {A : Type ℓ} → (A → Type κ) → List A → Type κ
All P [] = Unit
All P (x ∷ xs) = P x × All P xs

-- ORDER BY two columns
module _ {A : Type 0} (first second : A → ℕ) where
  abbrev pub comes_before : A → A → Bool
  comes_before a b = ltb (first a) (first b) || (first a == first b && leb (second a) (second b))

  unfoldable pub insert_ordered : A → List A → List A
  insert_ordered a [] = a ∷ []
  insert_ordered a (b ∷ bs) =
      let rest = insert_ordered a bs in if comes_before a b then a ∷ b ∷ bs else b ∷ rest

  unfoldable pub order_by : List A → List A
  order_by [] = []
  order_by (a ∷ as') = insert_ordered a (order_by as')

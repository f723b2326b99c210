-- ===== src/Catalog/Fuel.antt =====
-- The loops of a rebuild end by their own tests (crates/catalog-index/src/projector.rs).
use local_search.Prelude.{
  ℕ, zero, suc, ◌+◌, ◌-◌, ◌≤◌, ◌<◌, ◌≡◌, refl, min, true, false, Option, none, some, List, [], ◌∷◌,
  map, ◌==◌, u64_max, arith, Bool-cases, inl, inr,
}
use local_search.Graph.Outbox.{greatest}
use local_search.Catalog.Types.{is_some, generation_at, next_unused, next_unused_generation}

module _ {S : Type 0} where
  abbrev pub numbers : List (ℕ × S) → List ℕ
  numbers generations = map (λ e. e.0) generations

  generation_at-beyond :
      (n : ℕ) (generations : List (ℕ × S))
      → greatest (numbers generations) < n
      → generation_at n generations ≡ none
  generation_at-beyond n [] h = refl
  generation_at-beyond n ((k, s) ∷ rest) h =
      let other : (k == n) ≡ false = ground (arith, h) in
      rw other (generation_at-beyond n rest (omega (arith, h)))

  is_some-within :
      (n : ℕ) (generations : List (ℕ × S))
      → is_some (generation_at n generations) ≡ true
      → n ≤ greatest (numbers generations)
  is_some-within n [] h = cc h
  is_some-within n ((k, s) ∷ rest) h = elim (Bool-cases (k == n)) [
    | inl e ↦ ground (arith, e)
    | inr e ↦ ground (arith, is_some-within n rest (ground (arith, h, e)))
  ]

  is_some-none : (o : Option S) → is_some o ≡ false → o ≡ none
  is_some-none none h = refl
  is_some-none (some s) h = cc h

  next_unused-none :
      (fuel n : ℕ) (generations : List (ℕ × S))
      → greatest (numbers generations) < u64_max
      → greatest (numbers generations) < fuel + n
      → generation_at (next_unused fuel generations n) generations ≡ none
        × (n ≤ next_unused fuel generations n)
  unfolding next_unused
  next_unused-none zero n generations small enough =
      (generation_at-beyond n generations (omega (arith, enough)), omega arith)
  next_unused-none (suc fuel) n generations small enough =
      elim (Bool-cases (is_some (generation_at n generations))) [
        | inl used ↦
            let within = is_some-within n generations used in
            let next : min (n + 1) u64_max ≡ n + 1 = omega (arith, within, small) in
            let ih = next_unused-none fuel (n + 1) generations small (omega (arith, enough)) in
            rw (used, next) (ih.0, omega (arith, ih.1))
        | inr free ↦ rw free (is_some-none (generation_at n generations) free, omega arith)
      ]

  -- A rebuild takes a generation that is not there yet and is not below its minimum, unless the
  -- greatest one is the last of u64.
  pub next_unused_generation-none :
      (generations : List (ℕ × S)) (minimum : ℕ)
      → greatest (numbers generations) < u64_max
      → (generation_at (next_unused_generation generations minimum) generations ≡ none)
        × (minimum ≤ next_unused_generation generations minimum)
  unfolding next_unused_generation
  next_unused_generation-none generations minimum small =
      next_unused-none (greatest (numbers generations) + 1 - minimum) minimum generations small
        (omega arith)

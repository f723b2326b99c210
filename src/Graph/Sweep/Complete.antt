-- ===== src/Graph/Sweep/Complete.antt =====
-- A sweep of links that does not meet its bound leaves no stale link
-- (crates/filesystem-graph/src/store.rs).
use local_search.Prelude.{
  ℕ, zero, suc, ◌+◌, ◌<◌, ◌≤◌, ◌≡◌, refl, sym, ap, subst, ◌∙◌, ◌⊎◌, Bool, true, false, not, ◌||◌,
  List, [], ◌∷◌, length, take, ltb, Ensures, bind-Ensures, Ensures-ok, arith, Bool-cases, inl, inr,
}
use local_search.Core.Ids.{VolumeId}
use local_search.Graph.Rows.{select, exists, insert_ordered, order_by, All}
use local_search.Graph.Rows.Counts.{
  length-select-split, length-select-take, length-select-All, length-select-order_by,
}
use local_search.Graph.Rows.Ordered.{All-select, All-take, All-order_by}
use local_search.Graph.Tables.{LinkRow, FilesystemGraph}
use local_search.Graph.Projection.{Encoding}
use local_search.Graph.Sweep.Removes.{same_id, without, sweep_links-without}
use local_search.Graph.Sweep.{
  is_stale_link, stale_links, sweep_links, sweep_stale_observation_links,
}

exists-insert_ordered :
    (first second : LinkRow → ℕ) (p : LinkRow → Bool) (a : LinkRow) (rows : List LinkRow)
    → exists p (insert_ordered first second a rows) ≡ p a || exists p rows
unfolding insert_ordered
exists-insert_ordered first second p a [] = refl
exists-insert_ordered first second p a (b ∷ bs) =
    ground (arith, exists-insert_ordered first second p a bs)

exists-order_by :
    (first second : LinkRow → ℕ) (p : LinkRow → Bool) (rows : List LinkRow)
    → exists p (order_by first second rows) ≡ exists p rows
unfolding order_by
exists-order_by first second p [] = refl
exists-order_by first second p (a ∷ as') =
    exists-insert_ordered first second p a (order_by first second as')
    ∙ ap (λ b. p a || b) (exists-order_by first second p as')

take_all : (n : ℕ) (rows : List LinkRow) → ltb (length (take n rows)) n ≡ true → take n rows ≡ rows
take_all zero [] h = refl
take_all zero (r ∷ rs) h = ground (arith, h)
take_all (suc n) [] h = refl
take_all (suc n) (r ∷ rs) h = ap (λ ls. r ∷ ls) (take_all n rs (ground (arith, h)))

length-take-bound : (n : ℕ) (rows : List LinkRow) → length (take n rows) ≤ n
length-take-bound zero rows = omega arith
length-take-bound (suc n) [] = omega arith
length-take-bound (suc n) (r ∷ rs) = omega (arith, length-take-bound n rs)

module _ (volume_id : VolumeId) (scan_generation : ℕ) where
  abbrev stale : LinkRow → Bool
  stale l = is_stale_link volume_id scan_generation l

  -- A stale link is still to be removed.
  abbrev IsCovered : List LinkRow → LinkRow → Type 0
  IsCovered pending l = (not (stale l) || exists (same_id l) pending) ≡ true

  All-IsCovered-cons :
      (s : LinkRow) (pending links : List LinkRow)
      → All (IsCovered pending) links
      → All (IsCovered (s ∷ pending)) links
  All-IsCovered-cons s pending [] h = tt
  All-IsCovered-cons s pending (l ∷ ls) (here, rest) =
      (ground (arith, here), All-IsCovered-cons s pending ls rest)

  select-IsCovered : (links : List LinkRow) → All (IsCovered (select stale links)) links
  select-IsCovered [] = tt
  select-IsCovered (l ∷ ls) = elim (Bool-cases (stale l)) [
    | inl e ↦
        let first : select stale (l ∷ ls) ≡ l ∷ select stale ls = ground (arith, e) in
        subst (λ (ps : List LinkRow). All (IsCovered ps) (l ∷ ls)) (sym first)
          (ground arith, All-IsCovered-cons l (select stale ls) ls (select-IsCovered ls))
    | inr e ↦
        let later : select stale (l ∷ ls) ≡ select stale ls = ground (arith, e) in
        subst (λ (ps : List LinkRow). All (IsCovered ps) (l ∷ ls)) (sym later)
          (ground (arith, e), select-IsCovered ls)
  ]

  All-IsCovered-order_by :
      (first second : LinkRow → ℕ) (pending links : List LinkRow)
      → All (IsCovered pending) links
      → All (IsCovered (order_by first second pending)) links
  All-IsCovered-order_by first second pending [] h = tt
  All-IsCovered-order_by first second pending (l ∷ ls) (here, rest) = (
    ground (arith, here, exists-order_by first second (same_id l) pending),
    All-IsCovered-order_by first second pending ls rest,
  )

  -- No link of the volume is older than the scan.
  abbrev pub NoneStale : List LinkRow → Type 0
  NoneStale links = All (λ l. is_stale_link volume_id scan_generation l ≡ false) links

  NoneStale-without :
      (pending links : List LinkRow)
      → All (IsCovered pending) links
      → NoneStale (without pending links)
  NoneStale-without pending [] h = tt
  NoneStale-without pending (l ∷ ls) (here, rest) = elim (Bool-cases (exists (same_id l) pending)) [
    | inl e ↦ rw e (NoneStale-without pending ls rest)
    | inr e ↦ rw e (ground (arith, e, here), NoneStale-without pending ls rest)
  ]

  stale_links-IsCovered :
      (maximum_rows : ℕ) (g : FilesystemGraph)
      → ltb (length (stale_links volume_id scan_generation maximum_rows g)) maximum_rows ≡ true
      → All (IsCovered (stale_links volume_id scan_generation maximum_rows g)) g.links
  unfolding stale_links
  stale_links-IsCovered maximum_rows g few =
      subst (λ (ps : List LinkRow). All (IsCovered ps) g.links) (sym (take_all maximum_rows _ few))
        (All-IsCovered-order_by _ _ (select stale g.links) g.links (select-IsCovered g.links))

  -- A row of the sweep has one with its identifier.
  Present-cons :
      (s : LinkRow) (pending rows : List LinkRow)
      → All (λ l. exists (same_id l) pending ≡ true) rows
      → All (λ l. exists (same_id l) (s ∷ pending) ≡ true) rows
  Present-cons s pending [] h = tt
  Present-cons s pending (l ∷ ls) (here, rest) =
      (ground (arith, here), Present-cons s pending ls rest)

  Present-self : (rows : List LinkRow) → All (λ l. exists (same_id l) rows ≡ true) rows
  Present-self [] = tt
  Present-self (l ∷ ls) = (ground arith, Present-cons l ls ls (Present-self ls))

  -- Stale links that a sweep removes: they are fewer by as many as it has rows.
  stale_links-fewer :
      (maximum_rows : ℕ) (g : FilesystemGraph)
      → let pending = stale_links volume_id scan_generation maximum_rows g in
        length (select stale (without pending g.links)) + length pending
        ≤ length (select stale g.links)
  unfolding stale_links
  stale_links-fewer maximum_rows g =
      let pending = stale_links volume_id scan_generation maximum_rows g in
      let q : LinkRow → Bool = λ l. exists (same_id l) pending in
      let first = λ (l : LinkRow). l.observation_generation in
      let second = λ (l : LinkRow). l.file_link_id in
      omega (
        arith,
        length-select-split stale q g.links,
        length-select-order_by first second q (select stale g.links),
        length-select-take q maximum_rows (order_by first second (select stale g.links)),
        length-select-All q pending (Present-self pending),
      )

  stale_links-Stale :
      (maximum_rows : ℕ) (g : FilesystemGraph)
      → All (λ l. stale l ≡ true) (stale_links volume_id scan_generation maximum_rows g)
  unfolding stale_links
  stale_links-Stale maximum_rows g =
      All-take _ maximum_rows _ (All-order_by _ _ _ _ (All-select stale g.links))

  stale_links-bound :
      (maximum_rows : ℕ) (g : FilesystemGraph)
      → length (stale_links volume_id scan_generation maximum_rows g) ≤ maximum_rows
  unfolding stale_links
  stale_links-bound maximum_rows g = length-take-bound maximum_rows _

  -- What a sweep leaves of the links, and how many it says to have removed: those of stale links and
  -- no others are gone, with each a stale link less, and as many as are allowed or all of them.
  abbrev pub Swept : ℕ → List LinkRow → List LinkRow → ℕ → Type 0
  Swept maximum_rows before after removed =
      ((pending : List LinkRow) × (All (λ l. stale l ≡ true) pending
          × (length pending ≡ removed)
          × (after ≡ without pending before)))
      × (length (select stale after) + removed ≤ length (select stale before))
      × ((removed ≡ maximum_rows) ⊎ ((removed < maximum_rows) × NoneStale after))

  -- A sweep of links that succeeds leaves at least as many stale links fewer as it reports, and it
  -- reports as many as it was allowed to remove, or fewer and then no stale link is left. It removes
  -- the links with the identifiers of as many stale links as it reports and leaves every other link
  -- as it was. A link is stale where it is of the volume and older than the scan.
  pub sweep_stale_links-Swept :
      (encoding : Encoding) (generation maximum_rows : ℕ) (g : FilesystemGraph)
      → Ensures
          (λ p. Swept maximum_rows g.links p.0.links p.1)
          (sweep_stale_observation_links encoding volume_id scan_generation generation maximum_rows
            g)
  unfolding sweep_stale_observation_links
  sweep_stale_links-Swept encoding generation maximum_rows g =
      let pending = stale_links volume_id scan_generation maximum_rows g in
      let P = λ (p : FilesystemGraph × ℕ). Swept maximum_rows g.links p.0.links p.1 in
      bind-Ensures P (sweep_links encoding pending generation g) _ λ g' e.
        let gone : g'.links ≡ without pending g.links =
          Ensures-ok (λ (g' : FilesystemGraph). g'.links ≡ without pending g.links) _ g'
            (sweep_links-without encoding pending generation g) e in
        let swept : Swept maximum_rows g.links (without pending g.links) (length pending) = (
          (pending, (stale_links-Stale maximum_rows g, refl, refl)),
          stale_links-fewer maximum_rows g,
          elim (Bool-cases (ltb (length pending) maximum_rows)) [
            | inl few ↦ inr (
              ground (arith, few),
              NoneStale-without pending g.links (stale_links-IsCovered maximum_rows g few),
            )
            | inr full ↦ inl (ground (arith, full, stale_links-bound maximum_rows g))
          ],
        ) in
        let kept = subst (λ ls. Swept maximum_rows g.links ls (length pending)) (sym gone) swept in
        elim (Bool-cases (ltb (length pending) maximum_rows)) [
          | inl few ↦ rw few kept
          | inr full ↦ rw full kept
        ]

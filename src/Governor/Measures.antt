-- ===== src/Governor/Measures.antt =====
-- The measurements that enter the policy (crates/resource-governor/src/lib.rs): available memory in
-- basis points, and a latency rounded up to milliseconds.
use local_search.Prelude.{ℕ, ◌+◌, ◌*◌, ◌/◌, ◌≤◌, ◌<◌, ◌≡◌, Option, some, none, arith, min, u64_max}
use native.Mathlib.Decide.{dec_lt}
use local_search.Governor.Types.{memory_basis_points}
use local_search.Governor.Machine.{Duration, duration_millis_ceil}

-- A latency below the range of u64 milliseconds is rounded up: the result times a million is at
-- least the latency in nanoseconds and exceeds it by less than a million.
pub duration_millis_ceil_lem :
    (d : Duration)
    → d.nanos < 1000000000
    → d.secs * 1000 + 1000 ≤ u64_max
    → (d.secs * 1000000000 + d.nanos ≤ duration_millis_ceil d * 1000000)
      × (duration_millis_ceil d * 1000000 < d.secs * 1000000000 + d.nanos + 1000000)
unfolding duration_millis_ceil
duration_millis_ceil_lem d h u = ground arith

floor_bounds : (x t : ℕ) → 0 < t → (x / t * t ≤ x) × (x < (x / t + 1) * t)
floor_bounds x t h = grind arith

floor_le : (v x t : ℕ) → 0 < t → v * t ≤ x → x ≤ t * 10000 → v ≤ 10000
floor_le v x t h l m = grind arith

-- What `memory_basis_points` promises of a total and an available amount.
abbrev pub IsRatio : ℕ → ℕ → Option ℕ → Type 0
IsRatio t a none = t ≡ 0
IsRatio t a (some v) =
    (0 < t) × (v ≤ 10000) × (v * t ≤ min a t * 10000) × (min a t * 10000 < (v + 1) * t)

-- Of known amounts, available memory is reported exactly when the total is not zero; it is then the
-- floor of the ratio, capped at one, in ten-thousandths.
pub memory_basis_points_lem : (t a : ℕ) → IsRatio t a (memory_basis_points (some t) (some a))
unfolding memory_basis_points
memory_basis_points_lem t a = elim (dec_lt 0 t) [
  | yes p ↦
      let (lo, hi) = floor_bounds (min a t * 10000) t p in
      let v : ℕ = min a t * 10000 / t in
      let le : v ≤ 10000 = floor_le v (min a t * 10000) t p lo (omega arith) in ground arith
  | no p ↦ ground arith
]

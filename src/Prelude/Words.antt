-- ===== src/Prelude/Words.antt =====
-- Machine words as native numbers: the saturating operations of Rust's unsigned integers.
use Prim.Native.Nat.{ℕ, ◌+◌, ◌-◌, min}

abbrev pub u8_max : ℕ
u8_max = 255

abbrev pub u16_max : ℕ
u16_max = 65535

abbrev pub u32_max : ℕ
u32_max = 4294967295

abbrev pub u64_max : ℕ
u64_max = 18446744073709551615

-- u8::saturating_add, u64::saturating_add
abbrev pub saturating_add_u8 : ℕ → ℕ → ℕ
saturating_add_u8 a b = min (a + b) u8_max

abbrev pub saturating_add_u64 : ℕ → ℕ → ℕ
saturating_add_u64 a b = min (a + b) u64_max

-- saturating_sub of any unsigned type
abbrev pub saturating_sub : ℕ → ℕ → ℕ
saturating_sub a b = a - b

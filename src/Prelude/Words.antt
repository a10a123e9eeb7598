-- ===== src/Prelude/Words.antt =====
-- Unsigned machine integers as native numbers, with the width's bound written out.
use Prim.Native.Nat.{ℕ, ◌+◌, ◌*◌, min}

abbrev pub u32_max : ℕ
u32_max = 4294967295

abbrev pub u64_max : ℕ
u64_max = 18446744073709551615

-- `u64::saturating_add` and `u64::saturating_mul`. `u64::saturating_sub` is the `-` of ℕ.
abbrev pub saturating_add : ℕ → ℕ → ℕ
saturating_add a b = min (a + b) u64_max

abbrev pub saturating_mul : ℕ → ℕ → ℕ
saturating_mul a b = min (a * b) u64_max

-- `u32::saturating_add`.
abbrev pub saturating_add_32 : ℕ → ℕ → ℕ
saturating_add_32 a b = min (a + b) u32_max

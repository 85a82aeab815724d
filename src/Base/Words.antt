-- ===== src/Base/Words.antt =====
-- Machine words as native numbers: the wrap of a w-bit integer is written out.
use Prim.Native.Nat.{ℕ, ◌+◌, ◌-◌, ◌*◌, ◌%◌, ◌^◌}

-- `u32::wrapping_add`, and `+=` on a `u32` or `u64` in a release build.
abbrev pub wrapping_add32 : ℕ → ℕ → ℕ
wrapping_add32 a b = (a + b) % 2 ^ 32

abbrev pub wrapping_add64 : ℕ → ℕ → ℕ
wrapping_add64 a b = (a + b) % 2 ^ 64

abbrev pub wrapping_mul64 : ℕ → ℕ → ℕ
wrapping_mul64 a b = a * b % 2 ^ 64

-- `u32::wrapping_sub`.
abbrev pub wrapping_sub32 : ℕ → ℕ → ℕ
wrapping_sub32 a b = (a + 2 ^ 32 - b) % 2 ^ 32

-- `saturating_sub` is the subtraction of ℕ, which stops at 0.
abbrev pub saturating_sub : ℕ → ℕ → ℕ
saturating_sub a b = a - b

abbrev pub ns_per_sec : ℕ
ns_per_sec = 1_000_000_000

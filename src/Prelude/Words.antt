-- ===== src/Prelude/Words.antt =====
-- Machine words as native numbers. The release profile of Rust wraps: `+` on a `u64` is taken
-- modulo 2 ^ 64, `+` on a `u32` modulo 2 ^ 32, and `as u32` keeps the low 32 bits.
use Prim.Native.Nat.{ℕ, ◌+◌, ◌-◌, ◌%◌, ◌^◌}

abbrev pub u32_mod : ℕ
u32_mod = 2 ^ 32

abbrev pub u64_mod : ℕ
u64_mod = 2 ^ 64

abbrev pub add32 : ℕ → ℕ → ℕ
add32 a b = (a + b) % u32_mod

abbrev pub add64 : ℕ → ℕ → ℕ
add64 a b = (a + b) % u64_mod

-- `a - b` on a `u64`
abbrev pub sub64 : ℕ → ℕ → ℕ
sub64 a b = (a + u64_mod - b) % u64_mod

abbrev pub as_u32 : ℕ → ℕ
as_u32 n = n % u32_mod

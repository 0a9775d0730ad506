-- ===== src/Prelude/Words.antt =====
-- Machine words as native numbers. A `u64` is a number below 2 ^ 64; an `i64` is its bit pattern,
-- so a cast between the two is the identity. Arithmetic wraps, as in Rust's release profile.
use Prim.Native.Nat.{ℕ, ◌+◌, ◌-◌, ◌%◌, ◌^◌, ◌≤◌, ◌<◌}
use mathlib.Core.Path.{◌≡◌}
use mathlib.Core.Bool.{Bool}
use native.Mathlib.Omega.{arith}
use jbm.Prelude.Tests.{ltb}

abbrev pub u32_mod : ℕ
u32_mod = 2 ^ 32

abbrev pub u64_mod : ℕ
u64_mod = 2 ^ 64

-- A bound under which the cast to `i64` keeps the value.
abbrev pub i64_max : ℕ
i64_max = 2 ^ 63

-- `a - b` on `u64`, and on `i64` patterns.
abbrev pub sub64 : ℕ → ℕ → ℕ
sub64 a b = (a + u64_mod - b) % u64_mod

abbrev pub u32 : ℕ → ℕ
u32 n = n % u32_mod

abbrev pub u64 : ℕ → ℕ
u64 n = n % u64_mod

-- `a < b` on `i64` patterns: the order with the sign bit flipped.
abbrev pub lt_i64 : ℕ → ℕ → Bool
lt_i64 a b = ltb ((a + i64_max) % u64_mod) ((b + i64_max) % u64_mod)

pub sub64_exact : (a b : ℕ) → a < u64_mod → b ≤ a → sub64 a b ≡ a - b
sub64_exact a b h le = omega arith

-- The sign of a difference of times.
pub lt_i64-sub64-zero : (a b : ℕ) → a < i64_max → b < i64_max → lt_i64 (sub64 a b) 0 ≡ ltb a b
lt_i64-sub64-zero a b h k = ground arith

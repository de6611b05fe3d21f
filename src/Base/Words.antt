-- ===== src/Base/Words.antt =====
-- Unsigned machine integers: a natural number below 2 ^ 32 or 2 ^ 64, reduced after arithmetic.
use Prim.Native.Nat.{ℕ, ◌+◌, ◌%◌, ◌^◌, ◌<◌}
use mathlib.Core.Path.{◌≡◌}
use native.Mathlib.Omega.{arith}

-- `static_cast<uint32_t>`, and the result of `uint32_t` arithmetic
unfoldable pub u32 : ℕ → ℕ
u32 n = n % 2 ^ 32

-- `uint64_t` and `size_t`
unfoldable pub u64 : ℕ → ℕ
u64 n = n % 2 ^ 64

pub u32-eq : (n : ℕ) → n < 2 ^ 32 → u32 n ≡ n
unfolding u32
u32-eq n h = omega arith

pub u64-eq : (n : ℕ) → n < 2 ^ 64 → u64 n ≡ n
unfolding u64
u64-eq n h = omega arith

-- Reducing after each addition is the same as reducing once.
pub u32_add : (a b : ℕ) → u32 (u32 a + b) ≡ u32 (a + b)
unfolding u32
u32_add a b = omega arith

pub u64_add : (a b : ℕ) → u64 (u64 a + b) ≡ u64 (a + b)
unfolding u64
u64_add a b = omega arith

pub u32_idem : (n : ℕ) → u32 (u32 n) ≡ u32 n
unfolding u32
u32_idem n = omega arith

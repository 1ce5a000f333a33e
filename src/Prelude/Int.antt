-- ===== src/Prelude/Int.antt =====
-- Go's int64, which also carries time.Duration in nanoseconds: integers over the native numbers,
-- with the wrap-around of the machine written out.
use Prim.Native.Nat.{ℕ, suc, ◌+◌, ◌-◌, ◌*◌, ◌/◌, ◌%◌, ◌^◌, ◌≤◌, ◌<◌}
use mathlib.Core.Path.{◌≡◌, refl}
use mathlib.Core.Bool.{Bool, false}
use native.Mathlib.Omega.{arith}
use package.ggscale_go.Prelude.Tests.{◌==◌, ltb, leb, if◌then◌else◌}

-- `negsuc n` is -(n + 1).
pub data ℤ : Type 0 where
  pos : ℕ → ℤ
  negsuc : ℕ → ℤ

abbrev pub pos_part : ℤ → ℕ
pos_part (pos n) = n
pos_part (negsuc n) = 0

abbrev pub neg_part : ℤ → ℕ
neg_part (pos n) = 0
neg_part (negsuc n) = suc n

abbrev pub sub_ℕ : ℕ → ℕ → ℤ
sub_ℕ a b = if leb b a then pos (a - b) else negsuc (b - a - 1)

abbrev pub ltb_ℤ : ℤ → ℤ → Bool
ltb_ℤ a b = ltb (pos_part a + neg_part b) (pos_part b + neg_part a)

abbrev pub leb_ℤ : ℤ → ℤ → Bool
leb_ℤ a b = leb (pos_part a + neg_part b) (pos_part b + neg_part a)

infix 50 ◌≤ℤ◌
abbrev pub ◌≤ℤ◌ : ℤ → ℤ → Type 0
a ≤ℤ b = pos_part a + neg_part b ≤ pos_part b + neg_part a

-- The int64 that keeps the low 64 bits of an integer.
unfoldable pub wrap64 : ℤ → ℤ
wrap64 (pos n) = let m = n % 2 ^ 64 in if ltb m (2 ^ 63) then pos m else negsuc (2 ^ 64 - 1 - m)
wrap64 (negsuc n) = let m = n % 2 ^ 64 in if ltb m (2 ^ 63) then negsuc m else pos (2 ^ 64 - 1 - m)

-- A product with a positive constant, and the division by one, which truncates towards zero.
unfoldable pub mul64 : ℤ → ℕ → ℤ
unfolding wrap64
mul64 (pos n) k = wrap64 (pos (n * k))
mul64 (negsuc n) k = wrap64 (sub_ℕ 0 (suc n * k))

unfoldable pub quot64 : ℤ → ℕ → ℤ
quot64 (pos n) k = pos (n / k)
quot64 (negsuc n) k = sub_ℕ 0 (suc n / k)

unfoldable pub add64 : ℤ → ℤ → ℤ
unfolding wrap64
add64 a b = wrap64 (sub_ℕ (pos_part a + pos_part b) (neg_part a + neg_part b))

pub wrap64_pos : (n : ℕ) → n < 2 ^ 63 → wrap64 (pos n) ≡ pos n
unfolding wrap64
wrap64_pos n h = ground arith

pub add64_pos : (m n : ℕ) → m + n < 2 ^ 63 → add64 (pos m) (pos n) ≡ pos (m + n)
unfolding add64
add64_pos m n h = ground arith

pub mul64_pos : (n k : ℕ) → n * k < 2 ^ 63 → mul64 (pos n) k ≡ pos (n * k)
unfolding mul64
mul64_pos n k h = ground arith

wraps : mul64 (pos 5_000_000_000_000_000_000) 2 ≡ negsuc 8_446_744_073_709_551_615
unfolding mul64
wraps = refl

abbrev pub eq_ℤ : ℤ → ℤ → Bool
eq_ℤ (pos m) (pos n) = m == n
eq_ℤ (negsuc m) (negsuc n) = m == n
eq_ℤ m n = false

abbrev pub is_zero : ℤ → Bool
is_zero m = eq_ℤ m (pos 0)

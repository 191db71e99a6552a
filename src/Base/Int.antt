-- ===== src/Base/Int.antt =====
-- Signed integers over the native numbers: the int64 counts of milliseconds, which the code only
-- subtracts, halves and compares.
use Prim.Native.Nat.{ℕ, suc, ◌+◌, ◌-◌, ◌/◌, ◌≤◌, ◌<◌}
use mathlib.Core.Path.{◌≡◌}
use mathlib.Core.Logic.{◌↔◌}
use mathlib.Core.Bool.{Bool, true, false}
use native.Mathlib.Omega.{arith}
use discovery.Base.Tests.{leb, ◌==◌, if◌then◌else◌}

-- `negsuc n` is -(n + 1).
pub data ℤ : Type 0 where
  pos : ℕ → ℤ
  negsuc : ℕ → ℤ

abbrev pub pos_part : ℤ → ℕ
pos_part (pos n) = n
pos_part (negsuc n) = 0

abbrev pub neg_part : ℤ → ℕ
neg_part (pos n) = 0
neg_part (negsuc n) = suc n

-- An int64.
abbrev pub FitsI64 : ℤ → Type 0
FitsI64 (pos n) = n < 9223372036854775808
FitsI64 (negsuc n) = n < 9223372036854775808

infixl 65 ◌-ℤ◌
infix 50 ◌≤ℤ◌
unfoldable pub ◌-ℤ◌ : ℤ → ℤ → ℤ
a -ℤ b =
    let x = pos_part a + neg_part b in
    let y = neg_part a + pos_part b in if leb y x then pos (x - y) else negsuc (y - x - 1)

abbrev pub ◌≤ℤ◌ : ℤ → ℤ → Type 0
a ≤ℤ b = pos_part a + neg_part b ≤ pos_part b + neg_part a

abbrev pub leb_ℤ : ℤ → ℤ → Bool
leb_ℤ a b = leb (pos_part a + neg_part b) (pos_part b + neg_part a)

-- The C++ quotient `z / 2`, which rounds towards zero.
unfoldable pub halve : ℤ → ℤ
halve (pos n) = pos (n / 2)
halve (negsuc n) = if leb 1 n then negsuc ((n + 1) / 2 - 1) else pos 0

-- A positive duration is at least its half, and its half is not negative.
pub halve-le : (z : ℤ) → pos 0 ≤ℤ z → halve z ≤ℤ z
unfolding halve
halve-le (pos n) h = omega arith
halve-le (negsuc n) h = absurd (omega arith)

-- `==` of two integers.
abbrev pub same_ℤ : ℤ → ℤ → Bool
same_ℤ (pos m) (pos n) = m == n
same_ℤ (negsuc m) (negsuc n) = m == n
same_ℤ (pos m) (negsuc n) = false
same_ℤ (negsuc m) (pos n) = false

pub same_ℤ_iff : (a b : ℤ) → (same_ℤ a b ≡ true) ↔ (a ≡ b)
same_ℤ_iff (pos m) (pos n) = ground arith
same_ℤ_iff (negsuc m) (negsuc n) = ground arith
same_ℤ_iff (pos m) (negsuc n) = ground arith
same_ℤ_iff (negsuc m) (pos n) = ground arith

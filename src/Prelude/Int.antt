-- ===== src/Prelude/Int.antt =====
-- Signed integers over the native numbers, under the library's names (its ℤ stands on the unary ℕ).
use observable_bsd.Prelude.Tests.{ltb, leb, if◌then◌else◌, ◌==◌}
use Prim.Native.Nat.{ℕ, suc, ◌+◌, ◌-◌}
use mathlib.Core.Bool.{Bool, true, false}
use mathlib.Core.Path.{◌≡◌, ap}
use native.Mathlib.Omega.{arith}

-- `negsuc n` is -(n + 1).
pub data ℤ : Type 0 where
  pos : ℕ → ℤ
  negsuc : ℕ → ℤ

abbrev pub pos_part : ℤ → ℕ
pos_part (pos n) = n
pos_part (negsuc n) = 0

abbrev pub neg_part : ℤ → ℕ
neg_part (pos n) = 0
neg_part (negsuc n) = suc n

-- a - b, as an integer.
abbrev pub sub_ℕ : ℕ → ℕ → ℤ
sub_ℕ a b = if leb b a then pos (a - b) else negsuc (b - a - 1)

abbrev pub ltb_ℤ : ℤ → ℤ → Bool
ltb_ℤ a b = ltb (pos_part a + neg_part b) (pos_part b + neg_part a)

abbrev pub leb_ℤ : ℤ → ℤ → Bool
leb_ℤ a b = leb (pos_part a + neg_part b) (pos_part b + neg_part a)

abbrev pub eq_ℤ : ℤ → ℤ → Bool
eq_ℤ (pos a) (pos b) = a == b
eq_ℤ (pos a) (negsuc b) = false
eq_ℤ (negsuc a) (pos b) = false
eq_ℤ (negsuc a) (negsuc b) = a == b

pub eq_ℤ_sound : (a b : ℤ) → eq_ℤ a b ≡ true → a ≡ b
eq_ℤ_sound (pos a) (pos b) h = let e : a ≡ b = ground arith in ap pos e
eq_ℤ_sound (pos a) (negsuc b) h = ground arith
eq_ℤ_sound (negsuc a) (pos b) h = ground arith
eq_ℤ_sound (negsuc a) (negsuc b) h = let e : a ≡ b = ground arith in ap negsuc e

pub eq_ℤ_refl : (a : ℤ) → eq_ℤ a a ≡ true
eq_ℤ_refl (pos a) = ground arith
eq_ℤ_refl (negsuc a) = ground arith

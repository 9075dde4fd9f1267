-- ===== src/Prelude/Text.antt =====
-- C strings as the list of their bytes before the terminating NUL, and what <string.h> does to them.
use Prim.Native.Nat.{ℕ, zero, suc, ◌<◌, ◌≤◌}
use Prim.Native.Char.{code}
use Prim.Native.String.{String}
use mathlib.Core.Path.{◌≡◌, refl, ap}
use mathlib.Core.Logic.{◌↔◌}
use mathlib.Core.Bool.{Bool, true, false, ◌&&◌}
use mathlib.Core.List.{List, [], ◌∷◌}
use native.Mathlib.Omega.{arith}
use observable_bsd.Prelude.Tests.{◌==◌}
use observable_bsd.Prelude.Lists.{length, take}

abbrev pub Bytes : Type 0
Bytes = List ℕ

-- The bytes of an ASCII literal.
abbrev pub codes : String → Bytes
codes String.[] = []
codes (String.◌∷◌ c s) = code c ∷ codes s

-- strcmp(a, b) == 0
unfoldable pub bytes_eq : Bytes → Bytes → Bool
bytes_eq [] [] = true
bytes_eq [] (y ∷ ys) = false
bytes_eq (x ∷ xs) [] = false
bytes_eq (x ∷ xs) (y ∷ ys) = (x == y) && bytes_eq xs ys

pub bytes_eq_refl : (a : Bytes) → bytes_eq a a ≡ true
unfolding bytes_eq
bytes_eq_refl [] = refl
bytes_eq_refl (x ∷ xs) = ground (arith, bytes_eq_refl xs)

pub bytes_eq_sound : (a b : Bytes) → bytes_eq a b ≡ true → a ≡ b
unfolding bytes_eq
bytes_eq_sound [] [] h = refl
bytes_eq_sound [] (y ∷ ys) h = ground arith
bytes_eq_sound (x ∷ xs) [] h = ground arith
bytes_eq_sound (x ∷ xs) (y ∷ ys) h = ground (arith, bytes_eq_sound xs ys)

pub bytes_eq_iff : (a b : Bytes) → (bytes_eq a b ≡ true) ↔ (a ≡ b)
bytes_eq_iff a b = (bytes_eq_sound a b, λ e. let r = bytes_eq_refl a in ground arith)

-- s[0] == '\0'
abbrev pub is_empty {ℓ} : {A : Type ℓ} → List A → Bool
is_empty [] = true
is_empty (x ∷ xs) = false

-- What strlcpy(dst, src, size) leaves in dst, for a size that is not 0.
unfoldable pub strlcpy : Bytes → ℕ → Bytes
strlcpy src zero = []
strlcpy src (suc size) = take size src

pub take-all {ℓ} : {A : Type ℓ} (n : ℕ) (xs : List A) → length xs ≤ n → take n xs ≡ xs
take-all zero [] h = refl
take-all zero (x ∷ xs) h = absurd (omega arith)
take-all (suc n) [] h = refl
take-all (suc n) (x ∷ xs) h = ap (λ t. x ∷ t) (take-all n xs (omega arith))

-- A string that fits is copied whole.
pub strlcpy_fits : (src : Bytes) (size : ℕ) → length src < size → strlcpy src size ≡ src
unfolding strlcpy
strlcpy_fits src zero h = absurd (omega arith)
strlcpy_fits src (suc size) h = take-all size src (omega arith)

-- ===== src/Stdio/Digits.antt =====
-- The digits of a number in a base are read back as that number.
use observable_bsd.Prelude.{
  ℕ, zero, suc, ◌+◌, ◌*◌, ◌/◌, ◌%◌, ◌^◌, ◌<◌, ◌≡◌, refl, sym, ap, ◌∙◌, inl, inr, none, some, List,
  [], ◌∷◌, ◌++◌, map, append_assoc, Bytes, ltb, if◌then◌else◌, arith, Bool-cases,
}
use mathlib.Core.List.{map-append}
use native.Mathlib.Nat.{pow-zero}
use observable_bsd.Json.{hex_digit}
use observable_bsd.Stdio.{digits, digit_value, in_base, scan_digits, scan_number}

-- No digit stands at the head.
abbrev pub Stops : Bytes → Type 0
Stops [] = Unit
Stops (c ∷ s) = digit_value c ≡ none

scan_digits_stop : (base acc : ℕ) (s : Bytes) → Stops s → scan_digits base acc s ≡ (acc, s)
unfolding scan_digits in_base
scan_digits_stop base acc [] h = refl
scan_digits_stop base acc (c ∷ s) h = ground arith

-- How a value grows by the digits of `n` behind it.
unfoldable pub shift : ℕ → ℕ → ℕ → ℕ → ℕ
shift base zero acc n = acc
shift base (suc fuel) acc n =
    let rest = shift base fuel acc (n / base) * base + n % base in
    if ltb n base then acc * base + n else rest

-- What the proofs use of a base: its digits are read, and it divides with a remainder.
pub record IsBase (base : ℕ) : Type 0 where
  pub reads : (d : ℕ) → d < base → in_base base (hex_digit d) ≡ some d
  pub splits : (n : ℕ) → n / base * base + n % base ≡ n
  pub small : (n : ℕ) → n % base < base
  pub shrinks : (fuel n : ℕ) → n < base ^ suc fuel → n / base < base ^ fuel

module _ (base : ℕ) (b : IsBase base) where
  scan_digits_one :
      (acc d : ℕ) (s : Bytes)
      → d < base
      → scan_digits base acc (hex_digit d ∷ s) ≡ scan_digits base (acc * base + d) s
  unfolding scan_digits
  scan_digits_one acc d s h = ground (arith, b.reads d)

  scan_digits-digits :
      (fuel acc n : ℕ) (s : Bytes)
      → scan_digits base acc (map hex_digit (digits base fuel n) ++ s)
        ≡ scan_digits base (shift base fuel acc n) s
  unfolding digits shift
  scan_digits-digits zero acc n s = refl
  scan_digits-digits (suc fuel) acc n s = elim (Bool-cases (ltb n base)) [
    | inl l ↦ rw l (scan_digits_one acc n s (ground arith))
    | inr g ↦
        rw
          (
            g,
            map-append hex_digit (digits base fuel (n / base)) (n % base ∷ []),
            append_assoc,
            scan_digits-digits fuel acc (n / base),
          )
          (scan_digits_one (shift base fuel acc (n / base)) (n % base) s (b.small n))
  ]

  shift_zero : (fuel n : ℕ) → n < base ^ fuel → shift base fuel 0 n ≡ n
  unfolding shift
  shift_zero zero n h = omega (arith, pow-zero base)
  shift_zero (suc fuel) n h = elim (Bool-cases (ltb n base)) [
    | inl l ↦ rw l (omega arith)
    | inr g ↦ rw (g, shift_zero fuel (n / base) (b.shrinks fuel n h)) (b.splits n)
  ]

  -- A number's digits begin with a digit; what follows it is read on top of it.
  pub digits_head :
      (fuel n : ℕ) → (d : ℕ) × (ds : List ℕ) × (digits base (suc fuel) n ≡ d ∷ ds) × (d < base)
  unfolding digits
  digits_head zero n = elim (Bool-cases (ltb n base)) [
    | inl l ↦ (n, [], rw l, ground arith)
    | inr g ↦ (n % base, [], rw g, b.small n)
  ]
  digits_head (suc fuel) n = elim (Bool-cases (ltb n base)) [
    | inl l ↦ (n, [], rw l, ground arith)
    | inr g ↦
        let (d, ds, e, l) = digits_head fuel (n / base) in (d, ds ++ n % base ∷ [], rw (g, e), l)
  ]

  scan_number_cons :
      (d : ℕ) (s : Bytes)
      → d < base
      → scan_number base (hex_digit d ∷ s) ≡ some (scan_digits base d s)
  unfolding scan_number
  scan_number_cons d s l = ground (arith, b.reads d)

  pub scan_number-digits :
      (fuel n : ℕ) (s : Bytes)
      → n < base ^ suc fuel
      → Stops s
      → scan_number base (map hex_digit (digits base (suc fuel) n) ++ s) ≡ some (n, s)
  scan_number-digits fuel n s h stop =
      let (d, ds, e, l) = digits_head fuel n in
      let read : scan_digits base d (map hex_digit ds ++ s) ≡ (n, s) =
        sym (scan_digits_head d ds l) ∙ rw e at (all_digits) in
      rw e (scan_number_cons d (map hex_digit ds ++ s) l ∙ ap some read)
    where
      all_digits : scan_digits base 0 (map hex_digit (digits base (suc fuel) n) ++ s) ≡ (n, s)
      all_digits =
          scan_digits-digits (suc fuel) 0 n s
          ∙ rw (shift_zero (suc fuel) n h) (scan_digits_stop base n s stop)

      scan_digits_head :
          (d : ℕ) (ds : List ℕ)
          → d < base
          → scan_digits base 0 (hex_digit d ∷ map hex_digit ds ++ s)
            ≡ scan_digits base d (map hex_digit ds ++ s)
      scan_digits_head d ds l =
          scan_digits_one 0 d (map hex_digit ds ++ s) l
          ∙ ap (λ (a : ℕ). scan_digits base a (map hex_digit ds ++ s)) (omega arith)

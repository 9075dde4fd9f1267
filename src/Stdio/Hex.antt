-- ===== src/Stdio/Hex.antt =====
-- sscanf("%lx") reads back what printf("%lx") wrote.
use observable_bsd.Prelude.{
  ℕ, zero, suc, ◌/◌, ◌%◌, ◌<◌, ◌≡◌, ◌≢◌, refl, inl, inr, false, some, List, [], ◌∷◌, ◌++◌, map,
  Bytes, ltb, arith, Bool-cases,
}
use native.Mathlib.Nat.{pow-suc}
use observable_bsd.Types.{u64}
use observable_bsd.Json.{hex_digit}
use observable_bsd.Stdio.Digits.{Stops, IsBase, digits_head, scan_number-digits}
use observable_bsd.Stdio.{
  digits, print_hex, digit_value, in_base, scan_number, is_space, skip_space, skip_prefix,
  scan_sign, scan_hex,
}

in_base-hex_digit : (d : ℕ) → d < 16 → in_base 16 (hex_digit d) ≡ some d
unfolding in_base digit_value
in_base-hex_digit d h = ground arith

hex_IsBase : IsBase 16
hex_IsBase = record {
  reads = in_base-hex_digit;
  splits = λ n. omega arith;
  small = λ n. omega arith;
  shrinks = λ fuel n h. omega (arith, pow-suc 16 fuel);
}

-- Every digit is below the base.
Small : List ℕ → Type 0
Small [] = Unit
Small (d ∷ ds) = (d < 16) × Small ds

Small-append : (ds es : List ℕ) → Small ds → Small es → Small (ds ++ es)
unfolding Small
Small-append [] es h k = k
Small-append (d ∷ ds) es h k = (h.0, Small-append ds es h.1 k)

digits-Small : (fuel n : ℕ) → Small (digits 16 fuel n)
unfolding Small digits
digits-Small zero n = tt
digits-Small (suc fuel) n = elim (Bool-cases (ltb n 16)) [
  | inl l ↦ rw l (ground arith, tt)
  | inr g ↦ rw g (
      Small-append (digits 16 fuel (n / 16)) (n % 16 ∷ []) (digits-Small fuel (n / 16))
        (omega arith, tt))
]

-- No letter x stands at the head.
unfoldable pub NoX : Bytes → Type 0
NoX [] = Unit
NoX (c ∷ s) = (c ≢ b'x') × (c ≢ b'X')

NoX-digits : (ds : List ℕ) (s : Bytes) → Small ds → NoX s → NoX (map hex_digit ds ++ s)
unfolding NoX Small
NoX-digits [] s h x = x
NoX-digits (d ∷ ds) s h x = (λ e. ground arith, λ e. ground arith)

skip_prefix_none : (z : ℕ) (t : Bytes) → NoX t → skip_prefix (z ∷ t) ≡ z ∷ t
unfolding skip_prefix NoX in_base digit_value
skip_prefix_none z [] h = refl
skip_prefix_none z (x ∷ []) h = refl
skip_prefix_none z (x ∷ d ∷ t) h = ground arith

pub skip_space_digit : (d : ℕ) (s : Bytes) → d < 16 → skip_space (hex_digit d ∷ s) ≡ hex_digit d ∷ s
unfolding skip_space is_space
skip_space_digit d s h = ground arith

pub scan_sign_digit :
    (d : ℕ) (s : Bytes) → d < 16 → scan_sign (hex_digit d ∷ s) ≡ (false, hex_digit d ∷ s)
unfolding scan_sign
scan_sign_digit d s h = ground arith

scan_hex_head :
    (d n : ℕ) (t rest : Bytes)
    → d < 16
    → NoX t
    → n < u64
    → scan_number 16 (hex_digit d ∷ t) ≡ some (n, rest)
    → scan_hex (hex_digit d ∷ t) ≡ some (n, rest)
unfolding scan_hex
scan_hex_head d n t rest l x h e =
    rw (skip_space_digit d t l, scan_sign_digit d t l, skip_prefix_none (hex_digit d) t x, e)
      (ground arith)

-- What printf("%lx") wrote of a 64-bit value is read back by sscanf("%lx") as that value, where
-- neither a digit nor the letter x follows.
pub scan_hex-print_hex_before :
    (n : ℕ) (s : Bytes) → n < u64 → Stops s → NoX s → scan_hex (print_hex n ++ s) ≡ some (n, s)
unfolding print_hex
scan_hex-print_hex_before n s h stop x =
    let (d, ds, e, l) = digits_head 16 hex_IsBase 63 n in
    let small : Small (d ∷ ds) = rw e at (digits-Small 64 n) in
    let read : scan_number 16 (hex_digit d ∷ map hex_digit ds ++ s) ≡ some (n, s) =
      rw e at (scan_number-digits 16 hex_IsBase 63 n s (omega arith) stop) in
    rw e (
      scan_hex_head d n (map hex_digit ds ++ s) s l (NoX-digits ds s (unfold Small in small.1) x) h
        read)

-- In particular before a quote.
pub scan_hex-print_hex :
    (n : ℕ) (s : Bytes) → n < u64 → scan_hex (print_hex n ++ b'"' ∷ s) ≡ some (n, b'"' ∷ s)
unfolding digit_value NoX
scan_hex-print_hex n s h = scan_hex-print_hex_before n (b'"' ∷ s) h refl (omega arith, omega arith)

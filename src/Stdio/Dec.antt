-- ===== src/Stdio/Dec.antt =====
-- sscanf("%d") and sscanf("%u") read back what printf() wrote with the same conversion.
use observable_bsd.Prelude.{
  ℕ, zero, suc, ◌^◌, ◌<◌, ◌≡◌, refl, false, some, ◌++◌, map, Bytes, arith, ℤ, pos, negsuc,
}
use native.Mathlib.Nat.{pow-suc}
use observable_bsd.Json.{hex_digit}
use observable_bsd.Types.{u64}
use observable_bsd.Stdio.{
  print_dec, print_int, digit_value, in_base, scan_number, is_space, skip_space, scan_sign,
  int_result, scan_int, to_ulong, uint_result, scan_uint,
}
use observable_bsd.Stdio.Digits.{Stops, IsBase, digits_head, scan_number-digits}
use observable_bsd.Stdio.Hex.{skip_space_digit, scan_sign_digit}

in_base-digit : (d : ℕ) → d < 10 → in_base 10 (hex_digit d) ≡ some d
unfolding in_base digit_value
in_base-digit d h = ground arith

dec_IsBase : IsBase 10
dec_IsBase = record {
  reads = in_base-digit;
  splits = λ n. omega arith;
  small = λ n. omega arith;
  shrinks = λ fuel n h. omega (arith, pow-suc 10 fuel);
}

-- A number below 10^64, and what follows it.
scan_number-print_dec :
    (n : ℕ) (s : Bytes) → n < u64 → Stops s → scan_number 10 (print_dec n ++ s) ≡ some (n, s)
unfolding print_dec
scan_number-print_dec n s h stop = scan_number-digits 10 dec_IsBase 63 n s (omega arith) stop

-- Its head is a digit: neither a space nor a sign.
unsigned :
    (n : ℕ) (s : Bytes) → scan_sign (skip_space (print_dec n ++ s)) ≡ (false, print_dec n ++ s)
unfolding print_dec
unsigned n s =
    let (d, ds, e, l) = digits_head 10 dec_IsBase 63 n in
    rw e (
      rw (skip_space_digit d (map hex_digit ds ++ s) (omega arith))
        (scan_sign_digit d (map hex_digit ds ++ s) (omega arith)))

pub scan_uint-print_dec :
    (n : ℕ) (s : Bytes) → n < 2 ^ 32 → Stops s → scan_uint (print_dec n ++ s) ≡ some (n, s)
unfolding scan_uint uint_result to_ulong
scan_uint-print_dec n s h stop =
    rw (unsigned n s, scan_number-print_dec n s (omega arith) stop) (ground arith)

-- A value of type int.
abbrev pub IsInt : ℤ → Type 0
IsInt (pos n) = n < 2 ^ 31
IsInt (negsuc n) = n < 2 ^ 31

int_pos : (n : ℕ) (s : Bytes) → int_result false (some (n, s)) ≡ some (pos n, s)
unfolding int_result
int_pos zero s = refl
int_pos (suc n) s = refl

pub scan_int-print_int :
    (n : ℤ) (s : Bytes) → IsInt n → Stops s → scan_int (print_int n ++ s) ≡ some (n, s)
unfolding scan_int print_int
scan_int-print_int (pos n) s h stop =
    rw (unsigned n s, scan_number-print_dec n s (omega arith) stop) (int_pos n s)
scan_int-print_int (negsuc n) s h stop =
    unfold scan_sign skip_space is_space in
    rw (scan_number-print_dec (suc n) s (omega arith) stop) refl

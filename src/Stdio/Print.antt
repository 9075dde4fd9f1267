-- ===== src/Stdio/Print.antt =====
-- What printf() writes of a number: digits, and not many.
use observable_bsd.Prelude.{
  ℕ, zero, suc, ◌+◌, ◌/◌, ◌%◌, ◌≤◌, List, [], ◌∷◌, ◌++◌, map, Bytes, length, length-append,
  length-map, arith, ℤ, pos, negsuc,
}
use observable_bsd.Json.{hex_digit}
use observable_bsd.Stdio.{digits, print_hex, print_dec, print_int}
use observable_bsd.Stdio.Lines.{NoNewline}

length-digits : (base fuel n : ℕ) → length (digits base fuel n) ≤ fuel
unfolding digits
length-digits base zero n = omega arith
length-digits base (suc fuel) n = ground (
  arith,
  length-append (digits base fuel (n / base)) (n % base ∷ []),
  length-digits base fuel (n / base),
)

pub NoNewline-append : (s t : Bytes) → NoNewline s → NoNewline t → NoNewline (s ++ t)
NoNewline-append [] t h k = k
NoNewline-append (c ∷ s) t h k = (h.0, NoNewline-append s t h.1 k)

NoNewline-map : (ds : List ℕ) → NoNewline (map hex_digit ds)
NoNewline-map [] = tt
NoNewline-map (d ∷ ds) = (λ e. ground arith, NoNewline-map ds)

-- A text that stands inside a line and is not long.
pub record Fits (s : Bytes) (n : ℕ) : Type 0 where
  pub no_newline : NoNewline s
  pub short : length s ≤ n

pub Fits-print_hex : (n : ℕ) → Fits (print_hex n) 64
unfolding print_hex
Fits-print_hex n = record {
  no_newline = NoNewline-map (digits 16 64 n);
  short = omega (arith, length-map (digits 16 64 n) hex_digit, length-digits 16 64 n);
}

pub Fits-print_dec : (n : ℕ) → Fits (print_dec n) 64
unfolding print_dec
Fits-print_dec n = record {
  no_newline = NoNewline-map (digits 10 64 n);
  short = omega (arith, length-map (digits 10 64 n) hex_digit, length-digits 10 64 n);
}

pub Fits-print_int : (n : ℤ) → Fits (print_int n) 65
unfolding print_int
Fits-print_int (pos n) = record {
  no_newline = (Fits-print_dec n).no_newline;
  short = let h = (Fits-print_dec n).short in omega arith;
}
Fits-print_int (negsuc n) = record {
  no_newline = (omega arith, (Fits-print_dec (suc n)).no_newline);
  short = let h = (Fits-print_dec (suc n)).short in omega arith;
}

pub Fits-append : (s t : Bytes) {m n : ℕ} → Fits s m → Fits t n → Fits (s ++ t) (m + n)
Fits-append s t h k = record {
  no_newline = NoNewline-append s t h.no_newline k.no_newline;
  short = let a = h.short in let b = k.short in omega (arith, length-append s t);
}

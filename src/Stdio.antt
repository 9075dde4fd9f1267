-- ===== src/Stdio.antt =====
-- What the source uses of <stdio.h>: the conversions %lx, %d and %u of printf(), the conversions
-- %N[^"], %lx, %d and %u of sscanf() with literal text between them, and fgets().
pub mod Digits
pub mod Hex
pub mod Dec
pub mod Print
pub mod Quoted
pub mod Lines
use observable_bsd.Prelude.{
  ℕ, zero, suc, ◌+◌, ◌-◌, ◌*◌, ◌/◌, ◌%◌, ◌^◌, Bool, true, false, not, ◌&&◌, ◌||◌, Option, none,
  some, List, [], ◌∷◌, ◌++◌, map, Bytes, codes, ltb, leb, ◌==◌, if◌then◌else◌, length, ℤ, pos,
  negsuc,
}
use observable_bsd.Types.{u64}
use observable_bsd.Json.{hex_digit}

-- The digits of a number in a base, the highest first. 64 digits are enough for 64 bits in any base.
unfoldable pub digits : ℕ → ℕ → ℕ → List ℕ
digits base zero n = []
digits base (suc fuel) n =
    let rest = digits base fuel (n / base) ++ n % base ∷ [] in if ltb n base then n ∷ [] else rest

-- printf("%lx", n)
unfoldable pub print_hex : ℕ → Bytes
unfolding digits
print_hex n = map hex_digit (digits 16 64 n)

-- printf("%u", n)
unfoldable pub print_dec : ℕ → Bytes
unfolding digits
print_dec n = map hex_digit (digits 10 64 n)

-- printf("%d", n)
unfoldable pub print_int : ℤ → Bytes
unfolding print_dec
print_int (pos n) = print_dec n
print_int (negsuc n) = b'-' ∷ print_dec (suc n)

-- Literal text of a format that holds no white space: what is left behind it.
unfoldable pub literal : Bytes → Bytes → Option Bytes
literal [] s = some s
literal (c ∷ cs) [] = none
literal (c ∷ cs) (d ∷ s) = if c == d then literal cs s else none

-- The bytes that are no quote, `width` at most, and the rest.
span_quote : ℕ → Bytes → Bytes × Bytes
span_quote zero s = ([], s)
span_quote (suc width) [] = ([], [])
span_quote (suc width) (c ∷ s) =
    let (word, rest) = span_quote width s in if c == b'"' then ([], c ∷ s) else (c ∷ word, rest)

not_empty : Bytes × Bytes → Option (Bytes × Bytes)
not_empty ([], rest) = none
not_empty (c ∷ word, rest) = some (c ∷ word, rest)

-- %N[^"]: at least one byte.
unfoldable pub scan_quoted : ℕ → Bytes → Option (Bytes × Bytes)
unfolding span_quote not_empty
scan_quoted width s = not_empty (span_quote width s)

-- The value of a digit, in either case.
unfoldable pub digit_value : ℕ → Option ℕ
digit_value c =
    if leb b'0' c && leb c b'9'
    then some (c - b'0')
    else if leb b'a' c && leb c b'f'
    then some (c - b'a' + 10)
    else if leb b'A' c && leb c b'F'
    then some (c - b'A' + 10)
    else none

-- The value of a byte that is a digit of the base.
unfoldable pub in_base : ℕ → ℕ → Option ℕ
in_base base c = elim (digit_value c) [ none ↦ none | some d ↦ if ltb d base then some d else none ]

-- The digits at the head, on top of the value `acc` of those before, and the rest.
unfoldable pub scan_digits : ℕ → ℕ → Bytes → ℕ × Bytes
scan_digits base acc [] = (acc, [])
scan_digits base acc (c ∷ s) = elim (in_base base c) [
  | none ↦ (acc, c ∷ s)
  | some d ↦ scan_digits base (acc * base + d) s
]

-- At least one digit.
unfoldable pub scan_number : ℕ → Bytes → Option (ℕ × Bytes)
scan_number base [] = none
scan_number base (c ∷ s) = elim (in_base base c) [
  | none ↦ none
  | some d ↦ some (scan_digits base d s)
]

unfoldable pub is_space : ℕ → Bool
is_space c = c == 32 || leb 9 c && leb c 13

unfoldable pub skip_space : Bytes → Bytes
skip_space [] = []
skip_space (c ∷ s) = let rest = skip_space s in if is_space c then rest else c ∷ s

-- An optional prefix 0x or 0X, which counts only before a digit.
skip_prefix : Bytes → Bytes
skip_prefix (z ∷ x ∷ d ∷ s) = elim (in_base 16 d) [
  | none ↦ z ∷ x ∷ d ∷ s
  | some v ↦ if z == b'0' && (x == b'x' || x == b'X') then d ∷ s else z ∷ x ∷ d ∷ s
]
skip_prefix s = s

-- A sign, whether it is `-`, and the rest.
unfoldable pub scan_sign : Bytes → Bool × Bytes
scan_sign [] = (false, [])
scan_sign (c ∷ s) =
    if c == b'-' then (true, s) else if c == b'+' then (false, s) else (false, c ∷ s)

-- strtoul(): the largest value when the number does not fit, and the negative modulo 2^64.
to_ulong : Bool → ℕ → ℕ
to_ulong negative n = if leb u64 n then u64 - 1 else if negative then (u64 - n) % u64 else n

ulong_result : Bool → Option (ℕ × Bytes) → Option (ℕ × Bytes)
ulong_result negative none = none
ulong_result negative (some (n, rest)) = some (to_ulong negative n, rest)

-- %lx
unfoldable pub scan_hex : Bytes → Option (ℕ × Bytes)
unfolding digit_value in_base scan_digits scan_number is_space skip_space skip_prefix scan_sign
    to_ulong ulong_result
scan_hex s =
    let (negative, rest) = scan_sign (skip_space s) in
    ulong_result negative (scan_number 16 (skip_prefix rest))

int_result : Bool → Option (ℕ × Bytes) → Option (ℤ × Bytes)
int_result negative none = none
int_result negative (some (zero, rest)) = some (pos 0, rest)
int_result negative (some (suc n, rest)) = some (if negative then negsuc n else pos (suc n), rest)

-- %d, of a number that fits an int.
unfoldable pub scan_int : Bytes → Option (ℤ × Bytes)
unfolding digit_value in_base scan_digits scan_number is_space skip_space scan_sign int_result
scan_int s =
    let (negative, rest) = scan_sign (skip_space s) in int_result negative (scan_number 10 rest)

-- strtoul() as an unsigned int.
uint_result : Bool → Option (ℕ × Bytes) → Option (ℕ × Bytes)
unfolding to_ulong
uint_result negative none = none
uint_result negative (some (n, rest)) = some (to_ulong negative n % 2 ^ 32, rest)

-- %u
unfoldable pub scan_uint : Bytes → Option (ℕ × Bytes)
unfolding digit_value in_base scan_digits scan_number is_space skip_space scan_sign uint_result
scan_uint s =
    let (negative, rest) = scan_sign (skip_space s) in uint_result negative (scan_number 10 rest)

-- What fgets(line, size, fp) reads, for a size of at least 2: bytes up to and with a newline,
-- `room` at most, and the rest of the file.
span_line : ℕ → Bytes → Bytes × Bytes
span_line zero s = ([], s)
span_line (suc room) [] = ([], [])
span_line (suc room) (c ∷ s) =
    let (line, rest) = span_line room s in if c == 10 then (c ∷ [], s) else (c ∷ line, rest)

-- The lines that a loop over fgets(line, size, fp) sees; each takes a byte at least, so the length
-- of the file is fuel enough.
lines_from : ℕ → ℕ → Bytes → List Bytes
lines_from size zero s = []
lines_from size (suc fuel) [] = []
lines_from size (suc fuel) (c ∷ s) =
    let (line, rest) = span_line (size - 1) (c ∷ s) in line ∷ lines_from size fuel rest

unfoldable pub read_lines : ℕ → Bytes → List Bytes
unfolding span_line lines_from
read_lines size file = lines_from size (length file) file

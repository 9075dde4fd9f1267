-- ===== src/Json/Reader.antt =====
-- A reader of JSON strings by RFC 8259, independent of format.c, to read back what it writes.
use observable_bsd.Prelude.{
  ℕ, zero, suc, ◌+◌, ◌-◌, ◌*◌, ◌&&◌, ◌||◌, Option, none, some, [], ◌∷◌, Bytes, ltb, leb, ◌==◌,
  if◌then◌else◌,
}

-- A reader of the inside of a JSON string (RFC 8259): the bytes up to the closing quote, with what
-- is left, or none on an illegal byte or escape. `fuel` bounds the number of characters.
unfoldable pub hex_value : ℕ → Option ℕ
hex_value c =
    if leb b'0' c && leb c b'9'
    then some (c - b'0')
    else if leb b'a' c && leb c b'f'
    then some (c - b'a' + 10)
    else none

unfoldable pub unescape_char : ℕ → Option ℕ
unescape_char c =
    if c == b'"'
    then some b'"'
    else if c == 92
    then some 92
    else if c == b'b'
    then some 8
    else if c == b'f'
    then some 12
    else if c == b'n'
    then some 10
    else if c == b'r'
    then some 13
    else if c == b't'
    then some 9
    else none

-- A code point from four hexadecimal digits, with what follows them.
unfoldable pub read_code : Bytes → Option (ℕ × Bytes)
read_code (a ∷ b ∷ c ∷ d ∷ s) = elim (hex_value a) [
  | none ↦ none
  | some w ↦ elim (hex_value b) [
    | none ↦ none
    | some x ↦ elim (hex_value c) [
      | none ↦ none
      | some y ↦ elim (hex_value d) [
        | none ↦ none
        | some z ↦ some (w * 4096 + x * 256 + y * 16 + z, s)
      ]
    ]
  ]
]
read_code _ = none

unfoldable pub read_escape : Bytes → Option (ℕ × Bytes)
read_escape [] = none
read_escape (u ∷ s) =
    if u == b'u' then read_code s else elim (unescape_char u) [ none ↦ none | some c ↦ some (c, s) ]

-- The first character of the inside of a string, decoded.
unfoldable pub read_char : Bytes → Option (ℕ × Bytes)
read_char [] = none
read_char (c ∷ s) =
    if c == 92 then read_escape s else if c == b'"' || ltb c 0x20 then none else some (c, s)

unfoldable pub read_string : ℕ → Bytes → Option (Bytes × Bytes)
read_string zero s = none
read_string (suc fuel) [] = none
read_string (suc fuel) (c ∷ s) = if c == b'"' then some ([], s) else elim (read_char (c ∷ s)) [
  | none ↦ none
  | some (d, r) ↦ elim (read_string fuel r) [ none ↦ none | some (ds, t) ↦ some (d ∷ ds, t) ]
]

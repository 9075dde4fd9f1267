-- ===== src/Json.antt =====
-- The JSON strings of Sources/bsdtrace/format.c: json_escape() into a buffer, json_string() into a
-- stream. A buffer is what stands in it before the terminating NUL.
pub mod Reader
pub mod Escape
pub mod OneLine
use observable_bsd.Prelude.{
  ℕ, zero, suc, ◌+◌, ◌-◌, ◌/◌, ◌%◌, Bool, List, [], ◌∷◌, ◌++◌, Bytes, codes, ltb, ◌==◌,
  if◌then◌else◌, length,
}

-- The digit of a number below 16, as printf("%x") writes it.
abbrev pub hex_digit : ℕ → ℕ
hex_digit d = if ltb d 10 then d + b'0' else d - 10 + b'a'

-- The switch of both functions: what one byte is written as. For a control character this is
-- "\\u%04x", whose first two digits are 0 below 0x20.
unfoldable pub escape_char : ℕ → Bytes
escape_char c =
    if c == b'"'
    then codes "\\\""
    else if c == 92
    then codes "\\\\"
    else if c == 8
    then codes "\\b"
    else if c == 12
    then codes "\\f"
    else if c == 10
    then codes "\\n"
    else if c == 13
    then codes "\\r"
    else if c == 9
    then codes "\\t"
    else if ltb c 0x20
    then codes "\\u00" ++ hex_digit (c / 16) ∷ hex_digit (c % 16) ∷ []
    else c ∷ []

-- The loop of json_escape(), with `pos` bytes written.
escape_from : ℕ → ℕ → Bytes → Bytes
escape_from dstlen pos [] = []
escape_from dstlen pos (c ∷ src) =
    let rest = escape_char c ++ escape_from dstlen (pos + length (escape_char c)) src in
    if ltb (pos + 7) dstlen then rest else []

-- The string left in `dst`; the function's result is its length.
unfoldable pub json_escape : ℕ → Bytes → Bytes
unfolding escape_char escape_from
json_escape dstlen src = escape_from dstlen 0 src

escape_all : Bytes → Bytes
escape_all [] = []
escape_all (c ∷ s) = escape_char c ++ escape_all s

unfoldable pub json_string : Bytes → Bytes
unfolding escape_char escape_all
json_string s = codes "\"" ++ escape_all s ++ codes "\""

-- ===== src/Json/Escape.antt =====
-- What json_escape() and json_string() write: it fits the buffer, it is legal inside a JSON string,
-- and a JSON reader gets the source back.
use observable_bsd.Prelude.{
  ℕ, zero, suc, ◌+◌, ◌*◌, ◌/◌, ◌%◌, ◌≤◌, ◌<◌, ◌≡◌, ◌≢◌, refl, inl, inr, Bool, true, false, ◌||◌,
  none, some, List, [], ◌∷◌, ◌++◌, append_assoc, Bytes, codes, ltb, ◌==◌, length, length-append,
  get_or, drop, lt→ltb, arith, Bool-cases,
}
use observable_bsd.Json.Reader.{
  hex_value, unescape_char, read_code, read_escape, read_char, read_string,
}
use observable_bsd.Json.{hex_digit, escape_char, escape_from, json_escape, escape_all, json_string}

length-escape_char : (c : ℕ) → length (escape_char c) ≤ 6
unfolding escape_char
length-escape_char c = ground arith

abbrev pub All {ℓ κ} : {A : Type ℓ} → (A → Type κ) → List A → Type κ
All P [] = Unit
All P (x ∷ xs) = P x × All P xs

length-escape_from :
    (dstlen pos : ℕ) (src : Bytes)
    → pos < dstlen
    → pos + length (escape_from dstlen pos src) < dstlen
unfolding escape_from
length-escape_from dstlen pos [] h = omega arith
length-escape_from dstlen pos (c ∷ src) h = elim (Bool-cases (ltb (pos + 7) dstlen)) [
  | inl room ↦ rw room (
      ground (
        arith,
        length-append (escape_char c) (escape_from dstlen (pos + length (escape_char c)) src),
        length-escape_char c,
        length-escape_from dstlen (pos + length (escape_char c)) src,
      ))
  | inr full ↦ rw full (omega arith)
]

-- Whatever the source, what json_escape() writes and its terminating NUL fit the buffer.
pub length-json_escape :
    (dstlen : ℕ) (src : Bytes) → 0 < dstlen → length (json_escape dstlen src) < dstlen
unfolding json_escape
length-json_escape dstlen src h = let r = length-escape_from dstlen 0 src h in omega arith

hex_value-hex_digit : (d : ℕ) → d < 16 → hex_value (hex_digit d) ≡ some d
unfolding hex_value
hex_value-hex_digit d h = ground arith

read_code_digits :
    (a b c d w x y z v : ℕ) (rest : Bytes)
    → hex_value a ≡ some w
    → hex_value b ≡ some x
    → hex_value c ≡ some y
    → hex_value d ≡ some z
    → w * 4096 + x * 256 + y * 16 + z ≡ v
    → read_code (a ∷ b ∷ c ∷ d ∷ rest) ≡ some (v, rest)
unfolding read_code
read_code_digits a b c d w x y z v rest p q r s e = ground arith

control_code :
    (c : ℕ) (rest : Bytes)
    → c < 32
    → read_code (codes "00" ++ hex_digit (c / 16) ∷ hex_digit (c % 16) ∷ rest) ≡ some (c, rest)
control_code c rest h =
    read_code_digits b'0' b'0' (hex_digit (c / 16)) (hex_digit (c % 16)) 0 0 (c / 16) (c % 16) c
      rest (hex_value-hex_digit 0 (omega arith)) (hex_value-hex_digit 0 (omega arith))
      (hex_value-hex_digit (c / 16) (omega arith)) (hex_value-hex_digit (c % 16) (omega arith))
      (omega arith)

-- The special characters, which have an escape of two bytes.
is_special : ℕ → Bool
is_special c = c == b'"' || c == 92 || c == 8 || c == 12 || c == 10 || c == 13 || c == 9

read_char-special :
    (c : ℕ) (rest : Bytes)
    → is_special c ≡ true
    → read_char (escape_char c ++ rest) ≡ some (c, rest)
unfolding read_char read_escape unescape_char escape_char is_special
read_char-special c rest h = ground arith

read_char-control :
    (c : ℕ) (rest : Bytes)
    → is_special c ≡ false
    → c < 32
    → read_char (escape_char c ++ rest) ≡ some (c, rest)
unfolding read_char read_escape escape_char is_special
read_char-control c rest h l = ground (arith, control_code c rest)

read_char-plain :
    (c : ℕ) (rest : Bytes)
    → is_special c ≡ false
    → 32 ≤ c
    → read_char (escape_char c ++ rest) ≡ some (c, rest)
unfolding read_char escape_char is_special
read_char-plain c rest h l = ground arith

read_char-escape_char : (c : ℕ) (rest : Bytes) → read_char (escape_char c ++ rest) ≡ some (c, rest)
read_char-escape_char c rest = elim (Bool-cases (is_special c)) [
  | inl s ↦ read_char-special c rest s
  | inr p ↦ elim (Bool-cases (ltb c 32)) [
    | inl l ↦ read_char-control c rest p (ground arith)
    | inr g ↦ read_char-plain c rest p (ground arith)
  ]
]

-- An escaped character is not empty and does not begin with a quote.
escape_char-head :
    (c : ℕ) → (x : ℕ) × (xs : Bytes) × (escape_char c ≡ x ∷ xs) × ((x == b'"') ≡ false)
unfolding escape_char
escape_char-head c =
    (get_or (escape_char c) 0 0, drop 1 (escape_char c), ground arith, ground arith)

read_string_char :
    (fuel c : ℕ) (s : Bytes)
    → read_string (suc fuel) (escape_char c ++ s)
      ≡ elim (read_string fuel s) [ none ↦ none | some (ds, t) ↦ some (c ∷ ds, t) ]
unfolding read_string
read_string_char fuel c s =
    let (x, xs, e, q) = escape_char-head c in
    let r : read_char (x ∷ xs ++ s) ≡ some (c, s) = rw e at (read_char-escape_char c s) in
    rw (e, q, r)

-- A JSON reader that stands behind the opening quote gets back every string that was escaped, and
-- stops behind the closing quote.
read_string-escape_all :
    (s rest : Bytes) (fuel : ℕ)
    → length s < fuel
    → read_string fuel (escape_all s ++ b'"' ∷ rest) ≡ some (s, rest)
unfolding escape_all
read_string-escape_all s rest zero h = absurd (omega arith)
read_string-escape_all [] rest (suc fuel) h = unfold read_string in refl
read_string-escape_all (c ∷ s) rest (suc fuel) h =
    rw (append_assoc, read_string_char fuel c, read_string-escape_all s rest fuel (omega arith))
      refl

escape_from_fits :
    (dstlen pos : ℕ) (src : Bytes)
    → pos + length (escape_all src) + 7 ≤ dstlen
    → escape_from dstlen pos src ≡ escape_all src
unfolding escape_from escape_all
escape_from_fits dstlen pos [] h = refl
escape_from_fits dstlen pos (c ∷ src) h =
    let a = length-append (escape_char c) (escape_all src) in
    let (x, xs, e, q) = escape_char-head c in
    let one : 0 < length (escape_char c) = rw e (omega arith) in
    rw (
      lt→ltb (pos + 7) dstlen (omega arith),
      escape_from_fits dstlen (pos + length (escape_char c)) src (omega arith),
    )

-- While the escaped string leaves 7 bytes of the buffer free, nothing is cut off: what json_escape()
-- leaves, put between quotes as its callers do, is what json_string() writes, and reads back as the
-- source.
pub json_escape_roundtrip :
    (dstlen : ℕ) (src rest : Bytes)
    → length (json_string src) + 5 ≤ dstlen
    → (codes "\"" ++ json_escape dstlen src ++ codes "\"" ≡ json_string src)
      × (read_string (suc (length src)) (json_escape dstlen src ++ b'"' ∷ rest) ≡ some (src, rest))
unfolding json_escape json_string
json_escape_roundtrip dstlen src rest h =
    let a = length-append (codes "\"" ++ escape_all src) (codes "\"") in
    let b = length-append (codes "\"") (escape_all src) in
    let e = escape_from_fits dstlen 0 src (omega arith) in
    (rw e refl, rw e (read_string-escape_all src rest (suc (length src)) (omega arith)))

-- A byte that is written as it is.
abbrev pub IsPlain : ℕ → Type 0
IsPlain c = (c ≢ b'"') × (c ≢ 92) × (32 ≤ c)

escape_char-plain : (c : ℕ) → IsPlain c → escape_char c ≡ c ∷ []
unfolding escape_char
escape_char-plain c h = ground arith

escape_from-plain :
    (dstlen pos : ℕ) (src : Bytes)
    → All IsPlain src
    → pos + length src + 7 ≤ dstlen
    → escape_from dstlen pos src ≡ src
unfolding escape_from
escape_from-plain dstlen pos [] p h = refl
escape_from-plain dstlen pos (c ∷ src) p h = rw (
  lt→ltb (pos + 7) dstlen (omega arith),
  escape_char-plain c p.0,
  escape_from-plain dstlen (pos + 1) src p.1 (omega arith),
)

-- A string of plain bytes that leaves 7 bytes of the buffer free is copied.
pub json_escape-plain :
    (dstlen : ℕ) (src : Bytes)
    → All IsPlain src
    → length src + 7 ≤ dstlen
    → json_escape dstlen src ≡ src
unfolding json_escape
json_escape-plain dstlen src p h = escape_from-plain dstlen 0 src p (omega arith)

-- ===== src/Json/OneLine.antt =====
-- What json_escape() writes stays on one line.
use observable_bsd.Prelude.{ℕ, ◌+◌, inl, inr, [], ◌∷◌, Bytes, ltb, length, arith, Bool-cases}
use observable_bsd.Stdio.Lines.{NoNewline}
use observable_bsd.Stdio.Print.{NoNewline-append}
use observable_bsd.Json.{escape_char, escape_from, json_escape}

NoNewline-escape_char : (c : ℕ) → NoNewline (escape_char c)
unfolding escape_char
NoNewline-escape_char c = ground arith

NoNewline-escape_from : (dstlen pos : ℕ) (s : Bytes) → NoNewline (escape_from dstlen pos s)
unfolding escape_from
NoNewline-escape_from dstlen pos [] = tt
NoNewline-escape_from dstlen pos (c ∷ s) = elim (Bool-cases (ltb (pos + 7) dstlen)) [
  | inl room ↦ rw room (
      NoNewline-append (escape_char c) _ (NoNewline-escape_char c)
        (NoNewline-escape_from dstlen (pos + length (escape_char c)) s))
  | inr full ↦ rw full tt
]

-- No newline stands in what is written.
pub NoNewline-json_escape : (dstlen : ℕ) (src : Bytes) → NoNewline (json_escape dstlen src)
unfolding json_escape
NoNewline-json_escape dstlen src = NoNewline-escape_from dstlen 0 src

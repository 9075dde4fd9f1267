-- ===== src/Stdio/Quoted.antt =====
-- sscanf("%N[^\"]") reads a word up to the quote behind it.
use observable_bsd.Prelude.{
  ℕ, zero, suc, ◌≤◌, ◌≡◌, ◌≢◌, refl, none, some, [], ◌∷◌, ◌++◌, Bytes, length, arith,
}
use observable_bsd.Stdio.{span_quote, scan_quoted}

-- No byte is a quote.
abbrev pub NoQuote : Bytes → Type 0
NoQuote [] = Unit
NoQuote (c ∷ s) = (c ≢ b'"') × NoQuote s

span_quote_word :
    (width : ℕ) (word s : Bytes)
    → NoQuote word
    → length word ≤ width
    → span_quote width (word ++ b'"' ∷ s) ≡ (word, b'"' ∷ s)
unfolding span_quote
span_quote_word zero [] s n h = refl
span_quote_word zero (c ∷ word) s n h = absurd (omega arith)
span_quote_word (suc width) [] s n h = refl
span_quote_word (suc width) (c ∷ word) s n h = ground (arith, span_quote_word width word s n.1)

pub scan_quoted_word :
    (width : ℕ) (c : ℕ) (word s : Bytes)
    → NoQuote (c ∷ word)
    → length (c ∷ word) ≤ width
    → scan_quoted width (c ∷ word ++ b'"' ∷ s) ≡ some (c ∷ word, b'"' ∷ s)
unfolding scan_quoted
scan_quoted_word width c word s n h = rw (span_quote_word width (c ∷ word) s n h) refl

pub scan_quoted_empty : (width : ℕ) (s : Bytes) → scan_quoted width (b'"' ∷ s) ≡ none
unfolding scan_quoted
scan_quoted_empty zero s = refl
scan_quoted_empty (suc width) s = refl

-- ===== src/Stdio/Lines.antt =====
-- A loop over fgets() sees the lines that were written, if none is longer than its buffer.
use observable_bsd.Prelude.{
  ℕ, zero, suc, ◌+◌, ◌-◌, ◌≤◌, ◌<◌, ◌≡◌, ◌≢◌, refl, ap, ◌∙◌, List, [], ◌∷◌, ◌++◌, append_assoc,
  Bytes, length, length-append, arith,
}
use observable_bsd.Stdio.{span_line, lines_from, read_lines}

-- A line that was written: no newline but the one at its end.
abbrev pub NoNewline : Bytes → Type 0
NoNewline [] = Unit
NoNewline (c ∷ s) = (c ≢ 10) × NoNewline s

abbrev pub concat : List Bytes → Bytes
concat [] = []
concat (l ∷ ls) = l ++ concat ls

abbrev pub end_line : Bytes → Bytes
end_line l = l ++ 10 ∷ []

-- Lines that a buffer of `size` bytes holds with their newline and the NUL.
abbrev pub Lines : ℕ → List Bytes → Type 0
Lines size [] = Unit
Lines size (l ∷ ls) = NoNewline l × (length l + 2 ≤ size) × Lines size ls

abbrev pub end_lines : List Bytes → List Bytes
end_lines [] = []
end_lines (l ∷ ls) = end_line l ∷ end_lines ls

span_line_whole :
    (room : ℕ) (l rest : Bytes)
    → NoNewline l
    → length l < room
    → span_line room (l ++ 10 ∷ rest) ≡ (end_line l, rest)
unfolding span_line
span_line_whole zero l rest n h = absurd (omega arith)
span_line_whole (suc room) [] rest n h = refl
span_line_whole (suc room) (c ∷ l) rest n h = ground (arith, span_line_whole room l rest n.1)

lines_from_step :
    (size fuel : ℕ) (l rest : Bytes)
    → NoNewline l
    → length l + 2 ≤ size
    → lines_from size (suc fuel) (l ++ 10 ∷ rest) ≡ end_line l ∷ lines_from size fuel rest
lines_from_step size fuel [] rest n h =
    unfold lines_from in rw (span_line_whole (size - 1) [] rest tt (omega arith)) refl
lines_from_step size fuel (c ∷ l) rest n h =
    unfold lines_from in rw (span_line_whole (size - 1) (c ∷ l) rest n (omega arith)) refl

lines_from-concat :
    (size fuel : ℕ) (ls : List Bytes)
    → Lines size ls
    → length (concat (end_lines ls)) ≤ fuel
    → lines_from size fuel (concat (end_lines ls)) ≡ end_lines ls
lines_from-concat size zero [] h f = unfold lines_from in refl
lines_from-concat size (suc fuel) [] h f = unfold lines_from in refl
lines_from-concat size zero (l ∷ ls) h f =
    absurd
      (omega (arith, length-append (end_line l) (concat (end_lines ls)), length-append l (10 ∷ [])))
lines_from-concat size (suc fuel) (l ∷ ls) (n, b, h) f =
    let a = length-append (end_line l) (concat (end_lines ls)) in
    let c = length-append l (10 ∷ []) in
    rw (append_assoc, lines_from_step size fuel l (concat (end_lines ls)) n b)
      (ap (λ t. end_line l ∷ t) (lines_from-concat size fuel ls h (omega arith)))

-- What was written line by line is read line by line.
pub read_lines-concat :
    (size : ℕ) (ls : List Bytes)
    → Lines size ls
    → read_lines size (concat (end_lines ls)) ≡ end_lines ls
unfolding read_lines
read_lines-concat size ls h = lines_from-concat size _ ls h (omega arith)

-- A loop over fgets() begins with the lines that its buffer holds, whatever follows them.
unfoldable pub Begins : List Bytes → List Bytes → Type 0
Begins [] ls = Unit
Begins (k ∷ ks) [] = ⊥
Begins (k ∷ ks) (l ∷ ls) = (l ≡ k) × Begins ks ls

first_line :
    (l : Bytes) (ls : List Bytes) (rest : Bytes)
    → concat (end_lines (l ∷ ls)) ++ rest ≡ l ++ 10 ∷ (concat (end_lines ls) ++ rest)
first_line l ls rest =
    append_assoc (end_line l) (concat (end_lines ls)) rest
    ∙ append_assoc l (10 ∷ []) (concat (end_lines ls) ++ rest)

length-first_line :
    (l : Bytes) (ls : List Bytes) (rest : Bytes)
    → length (concat (end_lines (l ∷ ls)) ++ rest)
      ≡ length l + suc (length (concat (end_lines ls) ++ rest))
length-first_line l ls rest =
    ap length (first_line l ls rest) ∙ length-append l (10 ∷ (concat (end_lines ls) ++ rest))

lines_from-Begins :
    (size fuel : ℕ) (ls : List Bytes) (rest : Bytes)
    → Lines size ls
    → length (concat (end_lines ls) ++ rest) ≤ fuel
    → Begins (end_lines ls) (lines_from size fuel (concat (end_lines ls) ++ rest))
unfolding Begins
lines_from-Begins size fuel [] rest h f = tt
lines_from-Begins size zero (l ∷ ls) rest h f = absurd (omega (arith, length-first_line l ls rest))
lines_from-Begins size (suc fuel) (l ∷ ls) rest (n, b, h) f =
    rw (first_line l ls rest, lines_from_step size fuel l (concat (end_lines ls) ++ rest) n b)
      (refl, lines_from-Begins size fuel ls rest h (omega (arith, length-first_line l ls rest)))

-- Lines that were written and that the buffer holds are the first that are read, whatever follows.
pub read_lines-Begins :
    (size : ℕ) (ls : List Bytes) (rest : Bytes)
    → Lines size ls
    → Begins (end_lines ls) (read_lines size (concat (end_lines ls) ++ rest))
unfolding read_lines
read_lines-Begins size ls rest h = lines_from-Begins size _ ls rest h (omega arith)

-- ===== src/Dwarf/Found.antt =====
-- dwarf_addr_to_line() over a binary whose units libdwarf walks through, and which line it finds.
use observable_bsd.Prelude.{
  ℕ, zero, suc, ◌-◌, ◌≤◌, ◌<◌, ◌≡◌, refl, inl, inr, true, false, Option, none, some, List, [], ◌∷◌,
  ◌++◌, Bytes, strlcpy, ltb, ℤ, length, arith, Bool-cases,
}
use observable_bsd.Types.{sub64}
use observable_bsd.Json.Escape.{All}
use observable_bsd.Dwarf.{
  Libdwarf, Best, no_best, DwarfCache, scan_lines, unit_lines, rewind, search_units, answer,
  dwarf_addr_to_line,
}
use observable_bsd.Dwarf.Nearest.{
  Addressed, All-weaken, IsNearest, no_line, nearest, IsNearest-bound, scan_lines-IsNearest,
}

module _ {D Die Line : Type 0} (lib : Libdwarf D Die Line) where
  -- dwarf_next_cu_header_c() moves from the first place through the units of the list, and then to
  -- the last place, without a unit.
  pub data Walk : D → List D → D → Type 0 where
    at_end : (d d' : D) → lib.next_cu_header d ≡ (false, d') → Walk d [] d'
    at_unit :
        (d d1 d' : D) (ds : List D)
        → lib.next_cu_header d ≡ (true, d1)
        → Walk d1 ds d'
        → Walk d (d1 ∷ ds) d'

module _ {D Die Line : Type 0} (lib : Libdwarf D Die Line) where
  -- The lines of all units, in order.
  unfoldable pub lines_of : List D → List Line
  lines_of [] = []
  lines_of (d ∷ ds) = unit_lines lib d ++ lines_of ds

module _ {D Die Line : Type 0} (lib : Libdwarf D Die Line) where
  scan_lines-append :
      (file_addr : ℕ) (xs ys : List Line) (b : Best)
      → scan_lines lib file_addr (xs ++ ys) b
        ≡ scan_lines lib file_addr ys (scan_lines lib file_addr xs b)
  unfolding scan_lines
  scan_lines-append file_addr [] ys b = refl
  scan_lines-append file_addr (x ∷ xs) ys b = scan_lines-append file_addr xs ys _

  rewind-Walk :
      (fuel : ℕ) (d : D) (ds : List D) (d' : D)
      → Walk lib d ds d'
      → length ds < fuel
      → rewind lib fuel d ≡ some d'
  unfolding rewind
  rewind-Walk zero d ds d' w h = absurd (omega arith)
  rewind-Walk (suc n) _ _ _ (at_end d d' e) h = rw (rewind, e) refl
  rewind-Walk (suc n) _ _ _ (at_unit d d1 d' ds e w) h =
      rw (rewind, e) (rewind-Walk n d1 ds d' w (omega arith))

  search_units-Walk :
      (file_addr fuel : ℕ) (d : D) (ds : List D) (d' : D) (b : Best)
      → Walk lib d ds d'
      → length ds < fuel
      → search_units lib file_addr fuel d b
        ≡ some (scan_lines lib file_addr (lines_of lib ds) b, d')
  unfolding search_units lines_of scan_lines
  search_units-Walk file_addr zero d ds d' b w h = absurd (omega arith)
  search_units-Walk file_addr (suc n) _ _ _ b (at_end d d' e) h = rw (search_units, e) refl
  search_units-Walk file_addr (suc n) _ _ _ b (at_unit d d1 d' ds e w) h =
      rw (search_units, e, scan_lines-append file_addr (unit_lines lib d1) (lines_of lib ds) b)
        (search_units-Walk file_addr n d1 ds d' _ w (omega arith))

-- The file and the number are those of what is best of the lines, which is a line less than 64 bytes
-- before the address, the file cut to the size; where nothing is found, each line at an address other
-- than 0 lies behind the address or 64 bytes or more before it.
abbrev pub Answers :
    {D Die Line : Type 0} → Libdwarf D Die Line → ℕ → ℕ → List Line → Option (Bytes × ℤ) → Type 0
Answers lib file_addr filesz ls none =
    All (Addressed lib file_addr (λ a. 0 < a → 64 ≤ file_addr - a)) ls
Answers lib file_addr filesz ls (some (file, line)) =
    (b : Best) × IsNearest lib file_addr ls b
    × (b.found ≡ true)
    × (file_addr - b.addr < 64)
    × (file ≡ strlcpy b.file filesz)
    × (line ≡ b.line)

module _ {D Die Line : Type 0} (lib : Libdwarf D Die Line) where
  answer-Answers :
      (file_addr filesz : ℕ) (ls : List Line) (b : Best)
      → IsNearest lib file_addr ls b
      → Answers lib file_addr filesz ls (answer file_addr filesz b)
  unfolding answer
  answer-Answers file_addr filesz _ _ (no_line ls h) =
      All-weaken ls (λ l p a e f z. let q = p a e f in absurd (omega arith)) h
  answer-Answers file_addr filesz _ _ (nearest before line after prior b n e z m h k f g t) =
      let all = nearest before line after prior b n e z m h k f g t in
      elim (Bool-cases (ltb (file_addr - b.addr) 64)) [
        | inl s ↦ rw (answer, t, s) (b, all, t, ground (arith, s), refl, refl)
        | inr s ↦
            rw (answer, t, s)
              (All-weaken (before ++ line ∷ after)
                (λ l p a d c z. let q = p a d c in ground (arith, s))
                (IsNearest-bound lib file_addr _ b all))
      ]

  -- With more fuel than libdwarf has units, both behind its place and from the first on,
  -- dwarf_addr_to_line() ends, and finds the first of the lines of all units that are nearest to the
  -- address in the file, at or before it, where they are less than 64 bytes before it. It gives the file
  -- and the number of this line where libdwarf has them; a file or number that libdwarf does not have is
  -- the one that was best, by the same rule, of the lines before it. Otherwise it gives nothing, and
  -- each line at an address other than 0 lies behind the address or 64 bytes or more before it.
  pub dwarf_addr_to_line-Answers :
      (fuel : ℕ) (dc : DwarfCache D) (addr filesz : ℕ) (skipped units : List D) (first last : D)
      → Walk lib dc.dbg skipped first
      → Walk lib first units last
      → length skipped < fuel
      → length units < fuel
      → (r : Option (Bytes × ℤ)) × (dwarf_addr_to_line lib fuel dc addr filesz
          ≡ some (r, record dc { dbg = last }))
        × Answers lib (sub64 addr dc.slide) filesz (lines_of lib units) r
  unfolding dwarf_addr_to_line
  dwarf_addr_to_line-Answers fuel dc addr filesz skipped units first last w v h k =
      let file_addr = sub64 addr dc.slide in
      let e = rewind-Walk lib fuel dc.dbg skipped first w h in
      let f = search_units-Walk lib file_addr fuel first units last no_best v k in
      (
        _,
        rw (dwarf_addr_to_line, e, f) refl,
        answer-Answers file_addr filesz (lines_of lib units) _
            (scan_lines-IsNearest lib file_addr (lines_of lib units) [] no_best (no_line [] tt)),
      )

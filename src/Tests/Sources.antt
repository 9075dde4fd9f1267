-- ===== src/Tests/Sources.antt =====
-- Examples for the source lines of a profile.
use mathlib.Core.Option.{some-injective}
use observable_bsd.Decode.{after_slash}
use observable_bsd.Prelude.{
  sym, ℕ, zero, suc, ◌+◌, ◌≡◌, refl, Bool, true, false, Option, none, some, List, [], ◌∷◌, Bytes,
  codes, bytes_eq, strlcpy, pos, ℤ, arith, ltb, if◌then◌else◌,
}
use observable_bsd.Types.{to_int, PtImageInfo, executable, maxpathlen}
use observable_bsd.Hwt.Process.{Os}
use observable_bsd.Hwt.Balance.{Balanced}
use observable_bsd.Dwarf.{
  Libdwarf, rewind, search_units, answer, scan_lines, take_line, DwarfCache, Dwarf, unit_lines,
  section_path, dwarf_addr_to_line, dwarf_cache_close_all,
}
use observable_bsd.Dwarf.Found.{
  Walk, at_end, at_unit, lines_of, Answers, dwarf_addr_to_line-Answers,
}
use observable_bsd.Dwarf.Named.{section_path_unique}
use observable_bsd.Dwarf.Lookups.{Lookup, source_all, HasTables, IsReadable, LinesOf}
use observable_bsd.Dwarf.Answered.{source_all-answered}

-- A binary of one unit with the lines 0 to 2 at the addresses 16, 19 and 22; a Dwarf_Debug is at
-- place 0 before the unit and at place 1 in it, and a line is its own number.
abbrev next_place : ℕ → Bool × ℕ
next_place zero = (true, 1)
next_place (suc d) = (false, 0)

abbrev address_of : ℕ → Option ℕ
address_of n = if ltb n 3 then some (n + n + n + 16) else none

abbrev small_libdwarf : Libdwarf ℕ ℕ ℕ
small_libdwarf = record {
  next_cu_header = next_place;
  siblingof = λ d. some d;
  srclines = λ die. some (0 ∷ 1 ∷ 2 ∷ []);
  lineaddr = address_of;
  linesrc = λ n. some (codes "main.c");
  lineno = λ n. some n;
}

abbrev cache : DwarfCache ℕ
cache = record { path = codes "/bin/a"; dbg = 0; fd = 3; slide = 0 }

units_Walk : Walk small_libdwarf 0 (1 ∷ []) 0
units_Walk = at_unit 0 1 0 [] refl (at_end 1 0 refl)

dwarf_addr_to_line-Answers_example :
    (r : Option (Bytes × ℤ)) × (dwarf_addr_to_line small_libdwarf 2 cache 20 maxpathlen
      ≡ some (r, cache))
    × Answers small_libdwarf 20 maxpathlen (lines_of small_libdwarf (1 ∷ [])) r
dwarf_addr_to_line-Answers_example =
    dwarf_addr_to_line-Answers small_libdwarf 2 cache 20 maxpathlen (1 ∷ []) (1 ∷ []) 0 0 units_Walk
      units_Walk (omega arith) (omega arith)

line_found :
    dwarf_addr_to_line small_libdwarf 2 cache 20 maxpathlen
    ≡ some (some (codes "main.c", pos 1), cache)
unfolding dwarf_addr_to_line rewind search_units answer scan_lines unit_lines take_line strlcpy
    to_int
line_found = refl

abbrev sections : List PtImageInfo
sections = record { path = codes "/bin/a"; load_addr = 0; base_addr = 0; type = executable } ∷ []

abbrev lookup : ℕ → Lookup ℕ
lookup addr = record {
  symbol = record {
    addr = addr;
    size = 4;
    slide = 0;
    name = record { loc = 1; text = codes "main" };
    binary = record { loc = 2; text = codes "a" };
  };
  opening = record { fd = some 3; init = some 0 };
}

abbrev Reads : Bytes → ℕ → Type 0
Reads path d = d ≡ 0

abbrev all_lines : Bytes → List ℕ
all_lines path = 0 ∷ 1 ∷ 2 ∷ []

abbrev no_slide : Bytes → ℕ
no_slide path = 0

has_tables : HasTables small_libdwarf 2 sections all_lines no_slide Reads
unfolding lines_of unit_lines
has_tables path d e = (
  0,
  rw e (record {
    skipped = 1 ∷ [];
    units = 1 ∷ [];
    first = 0;
    to_end = units_Walk;
    through = units_Walk;
    few_skipped = omega arith;
    few_units = omega arith;
    has_lines = refl;
  }),
  refl,
)

readable : (addr : ℕ) → IsReadable small_libdwarf 2 sections all_lines no_slide Reads (lookup addr)
unfolding section_path after_slash bytes_eq
readable addr path e =
    let named = section_path_unique (codes "a") sections (some path) e in
    let q = some-injective (codes "/bin/a") path named in
    rw (sym q) (omega arith, refl, (3, refl), (0, refl, refl))

abbrev idle : Os
idle = record { fds = []; maps = []; ioctls = []; faults = 0 }

source_all-answered_example :
    (ls : List (Option (Bytes × ℤ))) × (t : Dwarf ℕ) × (source_all small_libdwarf 2 sections
        (lookup 20 ∷ lookup 16 ∷ [])
        (record { caches = []; os = idle; debugs = 0 })
      ≡ some (ls, t))
    × LinesOf small_libdwarf 2 sections all_lines no_slide Reads (lookup 20 ∷ lookup 16 ∷ []) ls
    × Balanced idle (dwarf_cache_close_all t).os (λ x. 0) (λ x. 0)
    × ((dwarf_cache_close_all t).debugs ≡ 0)
source_all-answered_example =
    source_all-answered small_libdwarf 2 sections all_lines no_slide Reads idle 0
      (lookup 20 ∷ lookup 16 ∷ []) (omega arith) has_tables (readable 20, (readable 16, tt))

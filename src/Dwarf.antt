-- ===== src/Dwarf.antt =====
-- Sources/bsdtrace/dwarf.c: the source line of an address, and the cache of opened binaries; and the
-- lookup that profile_record() of decode.c makes with them. What libdwarf answers is an argument.
pub mod Nearest
pub mod Found
pub mod Cached
pub mod Room
pub mod Named
pub mod Lookups
pub mod Ready
pub mod Answered
use observable_bsd.Prelude.{
  ℕ, zero, suc, ◌+◌, ◌-◌, ◌%◌, ◌^◌, Bool, true, false, ◌&&◌, Option, none, some, List, [], ◌∷◌,
  ◌++◌, Bytes, bytes_eq, strlcpy, ltb, leb, if◌then◌else◌, length, get_elem?, set, ℤ, pos, negsuc,
}
use observable_bsd.Types.{PtImageInfo, sub64, to_int, maxpathlen}
use observable_bsd.Symbols.{SymEntry}
use observable_bsd.Decode.{after_slash}
use observable_bsd.Hwt.Process.{Os, opened_fd, close, close_field}

-- The functions of libdwarf that the code calls, over its types Dwarf_Debug, Dwarf_Die and
-- Dwarf_Line; none and false stand for any answer but DW_DLV_OK. A Dwarf_Debug has a place among its
-- compilation units, which dwarf_next_cu_header_c() moves on.
pub record Libdwarf (D Die Line : Type 0) : Type 0 where
  pub next_cu_header : D → Bool × D
  pub siblingof : D → Option Die
  pub srclines : Die → Option (List Line)
  pub lineaddr : Line → Option ℕ
  pub linesrc : Line → Option Bytes
  pub lineno : Line → Option ℕ

-- global_best_addr, global_best_file, global_best_line and found.
pub record Best : Type 0 where
  pub addr : ℕ
  pub file : Bytes
  pub line : ℤ
  pub found : Bool

abbrev pub no_best : Best
no_best = record { addr = 0; file = []; line = pos 0; found = false }

pub or_file : Option Bytes → Bytes → Bytes
or_file none file = file
or_file (some src) file = strlcpy src maxpathlen

pub or_line : Option ℕ → ℤ → ℤ
or_line none line = line
or_line (some n) line = to_int n

module _ {D Die Line : Type 0} (lib : Libdwarf D Die Line) (file_addr : ℕ) where
  -- The body of the loop over the lines.
  unfoldable pub take_line : Line → Best → Best
  unfolding or_file or_line
  take_line l b = elim (lib.lineaddr l) [
    | none ↦ b
    | some a ↦
        if leb a file_addr && ltb b.addr a
        then record {
          addr = a;
          file = or_file (lib.linesrc l) b.file;
          line = or_line (lib.lineno l) b.line;
          found = true;
        }
        else b
  ]

module _ {D Die Line : Type 0} (lib : Libdwarf D Die Line) (file_addr : ℕ) where
  unfoldable pub scan_lines : List Line → Best → Best
  scan_lines [] b = b
  scan_lines (l ∷ ls) b = scan_lines ls (take_line lib file_addr l b)

module _ {D Die Line : Type 0} (lib : Libdwarf D Die Line) where
  -- The lines of the unit that a Dwarf_Debug is at; none where there is no DIE or no line table.
  unfoldable pub unit_lines : D → List Line
  unit_lines d = elim (lib.siblingof d) [
    | none ↦ []
    | some cu_die ↦ elim (lib.srclines cu_die) [ none ↦ [] | some lines ↦ lines ]
  ]

module _ {D Die Line : Type 0} (lib : Libdwarf D Die Line) where
  -- The first loop, on fuel; none where it runs out.
  unfoldable pub rewind : ℕ → D → Option D
  rewind zero d = none
  rewind (suc n) d =
      let (ok, d') = lib.next_cu_header d in let rest = rewind n d' in if ok then rest else some d'

  -- The loop over the units.
  unfoldable pub search_units : ℕ → ℕ → D → Best → Option (Best × D)
  search_units file_addr zero d b = none
  search_units file_addr (suc n) d b =
      let (ok, d') = lib.next_cu_header d in
      let rest = search_units file_addr n d' (scan_lines lib file_addr (unit_lines lib d') b) in
      if ok then rest else some (b, d')

-- What is returned: -1, or 0 with the file and the line.
unfoldable pub answer : ℕ → ℕ → Best → Option (Bytes × ℤ)
answer file_addr filesz b =
    if b.found && ltb (file_addr - b.addr) 64 then some (strlcpy b.file filesz, b.line) else none

-- struct dwarf_cache; `dbg` is not NULL in an entry that is used.
pub record DwarfCache (D : Type 0) : Type 0 where
  pub path : Bytes
  pub dbg : D
  pub fd : ℕ
  pub slide : ℕ

module _ {D Die Line : Type 0} (lib : Libdwarf D Die Line) where
  -- dwarf_addr_to_line() with a cache, for a `filesz` that is not 0: the answer, and the cache with
  -- its place moved. None: out of fuel.
  unfoldable pub dwarf_addr_to_line :
      ℕ → DwarfCache D → ℕ → ℕ → Option (Option (Bytes × ℤ) × DwarfCache D)
  dwarf_addr_to_line fuel dc addr filesz =
      let file_addr = sub64 addr dc.slide in
      elim (rewind lib fuel dc.dbg) [
        | none ↦ none
        | some d ↦ elim (search_units lib file_addr fuel d no_best) [
          | none ↦ none
          | some (b, d') ↦ some (answer file_addr filesz b, record dc { dbg = d' })
        ]
      ]

abbrev pub max_dwarf_caches : ℕ
max_dwarf_caches = 32

-- caches[] and ncaches, the process, and how many Dwarf_Debug are initialised and not finished.
pub record Dwarf (D : Type 0) : Type 0 where
  pub caches : List (DwarfCache D)
  pub os : Os
  pub debugs : ℕ

-- What open() and dwarf_init() give for a binary.
pub record Opening (D : Type 0) : Type 0 where
  pub fd : Option ℕ
  pub init : Option D

-- The search for a path, from the index `i` on.
unfoldable pub find_cache : {D : Type 0} → Bytes → List (DwarfCache D) → ℕ → Option ℕ
find_cache path [] i = none
find_cache path (c ∷ cs) i =
    let rest = find_cache path cs (suc i) in if bytes_eq c.path path then some i else rest

open_debug : {D : Type 0} → Bytes → ℕ → ℕ → Option D → Dwarf D → Option ℕ × Dwarf D
open_debug path slide fd none s = (none, record s { os = close fd s.os })
open_debug path slide fd (some d) s = (
  some (length s.caches),
  record s {
    caches =
        s.caches ++ record { path = strlcpy path maxpathlen; dbg = d; fd = fd; slide = slide } ∷ [];
    debugs = suc s.debugs;
  },
)

open_new : {D : Type 0} → Bytes → ℕ → Opening D → Dwarf D → Option ℕ × Dwarf D
unfolding open_debug
open_new path slide x s = elim x.fd [
  | none ↦ (none, s)
  | some fd ↦ open_debug path slide fd x.init (record s { os = opened_fd s.os (some fd) })
]

-- dwarf_cache_open(): the index of the cache, or NULL.
unfoldable pub dwarf_cache_open :
    {D : Type 0} → Bytes → ℕ → Opening D → Dwarf D → Option ℕ × Dwarf D
unfolding open_new
dwarf_cache_open path slide x s = elim (find_cache path s.caches 0) [
  | some i ↦ (some i, s)
  | none ↦ if leb max_dwarf_caches (length s.caches) then (none, s) else open_new path slide x s
]

-- dwarf_finish() and close() for each cache.
close_caches : {D : Type 0} → List (DwarfCache D) → Dwarf D → Dwarf D
close_caches [] s = s
close_caches (c ∷ cs) s =
    close_caches cs (record s { debugs = s.debugs - 1; os = close_field (some c.fd) s.os })

unfoldable pub dwarf_cache_close_all : {D : Type 0} → Dwarf D → Dwarf D
unfolding close_caches
dwarf_cache_close_all s = record (close_caches s.caches s) { caches = [] }

-- `bn` of profile_record(): the text behind the last '/', or the whole path.
abbrev pub last_part : Bytes → Bytes
last_part path = elim (after_slash path) [ none ↦ path | some b ↦ b ]

-- The loop over `si`: the path of the first section whose last part is the name of the binary.
unfoldable pub section_path : Bytes → List PtImageInfo → Option Bytes
section_path binary [] = none
section_path binary (s ∷ ss) =
    let rest = section_path binary ss in
    if bytes_eq (last_part s.path) binary then some s.path else rest

module _ {D Die Line : Type 0} (lib : Libdwarf D Die Line) where
  line_at : ℕ → ℕ → Option ℕ × Dwarf D → Option (Option (Bytes × ℤ) × Dwarf D)
  line_at fuel addr (none, s) = some (none, s)
  line_at fuel addr (some i, s) = elim (get_elem? s.caches i) [
    | none ↦ some (none, s)
    | some dc ↦ elim (dwarf_addr_to_line lib fuel dc addr maxpathlen) [
      | none ↦ none
      | some (r, dc') ↦ some (r, record s { caches = set s.caches i dc' })
    ]
  ]

module _ {D Die Line : Type 0} (lib : Libdwarf D Die Line) where
  -- The source line of a symbol, which profile_record() stores in a new entry.
  unfoldable pub source_of :
      ℕ → List PtImageInfo → SymEntry → Opening D → Dwarf D → Option (Option (Bytes × ℤ) × Dwarf D)
  unfolding line_at
  source_of fuel sections sym x s = elim (section_path sym.binary.text sections) [
    | none ↦ some (none, s)
    | some path ↦ line_at lib fuel sym.addr (dwarf_cache_open path sym.slide x s)
  ]

-- ===== src/Dwarf/Lookups.antt =====
-- The source lines that profile_record() of decode.c stores, over a whole decode.
use observable_bsd.Prelude.{ℕ, ◌<◌, ◌≡◌, Option, none, some, List, [], ◌∷◌, Bytes, ℤ, length}
use observable_bsd.Types.{PtImageInfo, maxpathlen, sub64}
use observable_bsd.Symbols.{SymEntry}
use observable_bsd.Dwarf.{Libdwarf, DwarfCache, Dwarf, Opening, source_of}
use observable_bsd.Dwarf.Named.{IsNamed}
use observable_bsd.Dwarf.Found.{Walk, lines_of, Answers}

-- A new entry of the profile, and what the system answers where its binary has no cache.
pub record Lookup (D : Type 0) : Type 0 where
  pub symbol : SymEntry
  pub opening : Opening D

module _ {D Die Line : Type 0} (lib : Libdwarf D Die Line) where
  -- The source lines of the entries, in order. None: out of fuel.
  unfoldable pub source_all :
      ℕ
      → List PtImageInfo
      → List (Lookup D)
      → Dwarf D
      → Option (List (Option (Bytes × ℤ)) × Dwarf D)
  source_all fuel sections [] s = some ([], s)
  source_all fuel sections (x ∷ xs) s = elim (source_of lib fuel sections x.symbol x.opening s) [
    | none ↦ none
    | some (r, s1) ↦ elim (source_all fuel sections xs s1) [
      | none ↦ none
      | some (rs, s2) ↦ some (r ∷ rs, s2)
    ]
  ]

module _ {D Die Line : Type 0} (lib : Libdwarf D Die Line) (fuel : ℕ) where
  -- From where `d` is, libdwarf walks to the end and then through all units, fewer than the fuel; they
  -- have these lines, and `last` is where it ends.
  pub record IsTable (d : D) (lines : List Line) (last : D) : Type 0 where
    pub skipped : List D
    pub units : List D
    pub first : D
    pub to_end : Walk lib d skipped first
    pub through : Walk lib first units last
    pub few_skipped : length skipped < fuel
    pub few_units : length units < fuel
    pub has_lines : lines_of lib units ≡ lines

module _ {D Die Line : Type 0} (lib : Libdwarf D Die Line) (fuel : ℕ) (sections : List PtImageInfo)
    (lines : Bytes → List Line) (slide_of : Bytes → ℕ) (Reads : Bytes → D → Type 0) where
  -- A Dwarf_Debug for a path gives the lines of the binary there whenever it is walked through.
  abbrev pub HasTables : Type 0
  HasTables =
      (path : Bytes) (d : D)
      → Reads path d
      → (last : D) × IsTable lib fuel d (lines path) last × Reads path last

  -- The binary of the symbol can be opened, and all symbols of a path have one slide.
  abbrev pub IsReadable : Lookup D → Type 0
  IsReadable x =
      (path : Bytes)
      → IsNamed x.symbol.binary.text sections (some path)
      → (length path < maxpathlen)
        × (x.symbol.slide ≡ slide_of path)
        × ((fd : ℕ) × (x.opening.fd ≡ some fd))
        × ((d : D) × (x.opening.init ≡ some d) × Reads path d)

  -- What is found at a path, which is none where no section is taken.
  abbrev pub LineAt : Lookup D → Option (Bytes × ℤ) → Option Bytes → Type 0
  LineAt x r none = r ≡ none
  LineAt x r (some path) =
      Answers lib (sub64 x.symbol.addr x.symbol.slide) maxpathlen (lines path) r

  -- What is found at the first section whose last part is the name of the symbol's binary.
  abbrev pub LineOf : Lookup D → Option (Bytes × ℤ) → Type 0
  LineOf x r = (path : Option Bytes) × IsNamed x.symbol.binary.text sections path × LineAt x r path

  -- The answers, one for each lookup, in order.
  abbrev pub LinesOf : List (Lookup D) → List (Option (Bytes × ℤ)) → Type 0
  LinesOf [] [] = ◌≡◌ {A = ℕ} 0 0
  LinesOf [] (r ∷ rs) = ◌≡◌ {A = ℕ} 0 1
  LinesOf (x ∷ xs) [] = ◌≡◌ {A = ℕ} 0 1
  LinesOf (x ∷ xs) (r ∷ rs) = LineOf x r × LinesOf xs rs

  -- A cache reads its own path, with the slide of that path.
  abbrev pub IsCacheOf : DwarfCache D → Type 0
  IsCacheOf c = Reads c.path c.dbg × (c.slide ≡ slide_of c.path)

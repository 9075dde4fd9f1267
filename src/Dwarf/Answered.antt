-- ===== src/Dwarf/Answered.antt =====
-- The lookups of source lines of a whole decode are answered, and leave nothing open.
use mathlib.Core.Option.{some-injective}
use observable_bsd.Prelude.{
  ℕ, ◌≤◌, ◌≡◌, refl, sym, inl, inr, Option, none, some, List, [], ◌∷◌, Bytes, ℤ, length, length-set,
  get_elem?, set, arith, Option-cases,
}
use observable_bsd.Types.{PtImageInfo, maxpathlen, sub64}
use observable_bsd.Json.Escape.{All}
use observable_bsd.Hwt.Process.{Os}
use observable_bsd.Hwt.Balance.{Balanced}
use observable_bsd.Dwarf.{
  Libdwarf, Dwarf, max_dwarf_caches, dwarf_cache_close_all, section_path, line_at, source_of,
}
use observable_bsd.Dwarf.Found.{Answers, dwarf_addr_to_line-Answers}
use observable_bsd.Dwarf.Cached.{cache_fds, moved-IsHeld, dwarf_cache_close_all-released}
use observable_bsd.Dwarf.Room.{missing-set, missing-bound}
use observable_bsd.Dwarf.Lookups.{Lookup, source_all, HasTables, IsReadable, LineOf, LinesOf}
use observable_bsd.Dwarf.Named.{section_path-IsNamed}
use observable_bsd.Dwarf.Ready.{All-get, All-set, IsReady, IsOpened, dwarf_cache_open-IsOpened}

module _ {D Die Line : Type 0} (lib : Libdwarf D Die Line) (fuel : ℕ) (sections : List PtImageInfo)
    (lines : Bytes → List Line) (slide_of : Bytes → ℕ) (Reads : Bytes → D → Type 0) where
  -- dwarf_addr_to_line() of an opened cache, whose place it moves.
  line_at-Answers :
      (base : Os) (n : ℕ) (path : Bytes) (addr : ℕ) (r : Option ℕ × Dwarf D)
      → HasTables lib fuel sections lines slide_of Reads
      → IsOpened lib fuel sections lines slide_of Reads base n path r
      → (l : Option (Bytes × ℤ)) × (t : Dwarf D) × (line_at lib fuel addr r ≡ some (l, t))
        × Answers lib (sub64 addr (slide_of path)) maxpathlen (lines path) l
        × IsReady lib fuel sections lines slide_of Reads base n t
  unfolding line_at
  line_at-Answers base n path addr (none, s) tables o = absurd (let e = o.is_index in ground arith)
  line_at-Answers base n path addr (some i, s) tables o =
      let c = o.cache in
      let e : get_elem? s.caches i ≡ some c =
        let k = some-injective i o.index o.is_index in rw k o.is_there in
      let (reads, slide) = All-get _ s.caches i c o.is_ready.known e in
      let (last, table, again) = tables c.path c.dbg reads in
      let (l, f, a) =
        dwarf_addr_to_line-Answers lib fuel c addr maxpathlen table.skipped table.units table.first
          last table.to_end table.through table.few_skipped table.few_units in
      (
        l,
        record s { caches = set s.caches i (record c { dbg = last }) },
        rw (line_at, e, f) refl,
        (rw (sym o.is_path, sym slide, sym table.has_lines) a),
        record {
          held = moved-IsHeld s i c last e o.is_ready.held;
          known = All-set _ s.caches i _ o.is_ready.known (again, slide);
          room =
              let r = o.is_ready.room in
              omega (
                arith,
                length-set s.caches i (record c { dbg = last }),
                missing-set sections s.caches i c last e,
              );
        },
      )

  source_of-LineOf :
      (base : Os) (n : ℕ) (x : Lookup D) (s : Dwarf D)
      → HasTables lib fuel sections lines slide_of Reads
      → IsReadable lib fuel sections lines slide_of Reads x
      → IsReady lib fuel sections lines slide_of Reads base n s
      → (l : Option (Bytes × ℤ)) × (t : Dwarf D) × (source_of lib fuel sections x.symbol x.opening s
          ≡ some (l, t))
        × LineOf lib fuel sections lines slide_of Reads x l
        × IsReady lib fuel sections lines slide_of Reads base n t
  unfolding source_of
  source_of-LineOf base n x s tables readable h =
      elim (Option-cases (section_path x.symbol.binary.text sections)) [
        | inl e ↦
            let named = section_path-IsNamed x.symbol.binary.text sections in
            (none, s, rw (source_of, e) refl, (none, rw e at named, refl), h)
        | inr (path, e) ↦
            let named = rw e at (section_path-IsNamed x.symbol.binary.text sections) in
            let (short, slide, (fd, f), (d, g, reads)) = readable path named in
            let o =
              dwarf_cache_open-IsOpened lib fuel sections lines slide_of Reads base n
                x.symbol.binary.text path x.opening s fd d e short f g reads h in
            let (l, t, k, a, ready) = line_at-Answers base n path x.symbol.addr _ tables o in
            (l, t, rw (source_of, e, slide) k, (some path, named, rw slide a), ready)
      ]

  source_all-LinesOf :
      (base : Os) (n : ℕ) (xs : List (Lookup D)) (s : Dwarf D)
      → HasTables lib fuel sections lines slide_of Reads
      → All (IsReadable lib fuel sections lines slide_of Reads) xs
      → IsReady lib fuel sections lines slide_of Reads base n s
      → (ls : List (Option (Bytes × ℤ))) × (t : Dwarf D) × (source_all lib fuel sections xs s
          ≡ some (ls, t))
        × LinesOf lib fuel sections lines slide_of Reads xs ls
        × IsReady lib fuel sections lines slide_of Reads base n t
  unfolding source_all
  source_all-LinesOf base n [] s tables readable h = ([], s, refl, refl, h)
  source_all-LinesOf base n (x ∷ xs) s tables (readable, rest) h =
      let (l, s1, e, a, h1) = source_of-LineOf base n x s tables readable h in
      let (ls, s2, f, b, h2) = source_all-LinesOf base n xs s1 tables rest h1 in
      (l ∷ ls, s2, rw (source_all, e, f) refl, (a, b), h2)

  -- Where at most 32 sections are given, each path that is taken has less than MAXPATHLEN bytes, can be
  -- opened and is read by libdwarf with fewer units than the fuel, and the symbols for which a path is
  -- taken have one slide: all lookups end. For each symbol the first section is taken whose path, or
  -- what follows the last '/' in it, is the name of the symbol's binary. The answer is what
  -- dwarf_addr_to_line() is to find, with the slide of the symbol, in the lines of the file at this
  -- path: the nearest line less than 64 bytes before the symbol, or nothing; and nothing where there is
  -- no such section. After dwarf_cache_close_all() the process has open what it had before the first
  -- lookup, and as many Dwarf_Debug objects.
  pub source_all-answered :
      (base : Os) (n : ℕ) (xs : List (Lookup D))
      → length sections ≤ max_dwarf_caches
      → HasTables lib fuel sections lines slide_of Reads
      → All (IsReadable lib fuel sections lines slide_of Reads) xs
      → (ls : List (Option (Bytes × ℤ))) × (t : Dwarf D) × (source_all lib fuel sections xs
            (record { caches = []; os = base; debugs = n })
          ≡ some (ls, t))
        × LinesOf lib fuel sections lines slide_of Reads xs ls
        × Balanced base (dwarf_cache_close_all t).os (λ x. 0) (λ x. 0)
        × ((dwarf_cache_close_all t).debugs ≡ n)
  unfolding cache_fds
  source_all-answered base n xs few tables readable =
      let start : IsReady lib fuel sections lines slide_of Reads base n
          (record { caches = []; os = base; debugs = n }) =
        record {
          held = record {
            files = record { fds = λ x. omega arith; maps = λ x. omega arith; faults = refl };
            objects = omega arith;
            limit = omega arith;
          };
          known = tt;
          room = omega (arith, missing-bound sections []);
        } in
      let (ls, t, e, a, h) = source_all-LinesOf base n xs _ tables readable start in
      let (b, d, c) = dwarf_cache_close_all-released t h.held in (ls, t, e, a, b, d)

-- ===== src/Dwarf/Ready.antt =====
-- The caches of a decode, of which each reads the binary of its path, have room for every section.
use mathlib.Core.Option.{some-injective}
use mathlib.Core.Path.{subst}
use observable_bsd.Prelude.{
  ℕ, zero, suc, ◌+◌, ◌≤◌, ◌<◌, ◌≡◌, refl, inl, inr, false, Option, some, List, [], ◌∷◌, ◌++◌, Bytes,
  strlcpy_fits, leb, length, length-append, get_elem?, set, arith, Option-cases,
}
use observable_bsd.Types.{PtImageInfo, maxpathlen}
use observable_bsd.Json.Escape.{All}
use observable_bsd.Hwt.Process.{Os}
use observable_bsd.Dwarf.{
  Libdwarf, DwarfCache, Dwarf, Opening, max_dwarf_caches, find_cache, open_new, open_debug,
  dwarf_cache_open, section_path,
}
use observable_bsd.Dwarf.Cached.{IsHeld, dwarf_cache_open-IsHeld}
use observable_bsd.Dwarf.Room.{missing, find_cache-some, find_cache-none, missing-less}
use observable_bsd.Dwarf.Lookups.{IsCacheOf}

pub All-get {ℓ κ} :
    {A : Type ℓ} (P : A → Type κ) (xs : List A) (i : ℕ) (x : A)
    → All P xs
    → get_elem? xs i ≡ some x
    → P x
All-get P [] i x h e = absurd (ground arith)
All-get P (y ∷ ys) zero x (p, h) e = subst P (some-injective y x e) p
All-get P (y ∷ ys) (suc i) x (p, h) e = All-get P ys i x h e

pub All-set {ℓ κ} :
    {A : Type ℓ} (P : A → Type κ) (xs : List A) (i : ℕ) (x : A)
    → All P xs
    → P x
    → All P (set xs i x)
All-set P [] i x h p = tt
All-set P (y ∷ ys) zero x (q, h) p = (p, h)
All-set P (y ∷ ys) (suc i) x (q, h) p = (q, All-set P ys i x h p)

All-snoc {ℓ κ} :
    {A : Type ℓ} (P : A → Type κ) (xs : List A) (x : A) → All P xs → P x → All P (xs ++ x ∷ [])
All-snoc P [] x h p = (p, tt)
All-snoc P (y ∷ ys) x (q, h) p = (q, All-snoc P ys x h p)

get_elem?-snoc {ℓ} :
    {A : Type ℓ} (xs : List A) (x : A) → get_elem? (xs ++ x ∷ []) (length xs) ≡ some x
get_elem?-snoc [] x = refl
get_elem?-snoc (y ∷ ys) x = get_elem?-snoc ys x

module _ {D Die Line : Type 0} (lib : Libdwarf D Die Line) (fuel : ℕ) (sections : List PtImageInfo)
    (lines : Bytes → List Line) (slide_of : Bytes → ℕ) (Reads : Bytes → D → Type 0) where
  pub record IsReady (base : Os) (n : ℕ) (s : Dwarf D) : Type 0 where
    pub held : IsHeld base n s
    pub known : All (IsCacheOf lib fuel sections lines slide_of Reads) s.caches
    pub room : length s.caches + missing sections s.caches ≤ max_dwarf_caches

  -- dwarf_cache_open() of a path of a section gives a cache that reads it.
  pub record IsOpened (base : Os) (n : ℕ) (path : Bytes) (r : Option ℕ × Dwarf D) : Type 0 where
    pub index : ℕ
    pub cache : DwarfCache D
    pub is_index : r.0 ≡ some index
    pub is_there : get_elem? r.1.caches index ≡ some cache
    pub is_path : cache.path ≡ path
    pub is_ready : IsReady base n r.1

module _ {D Die Line : Type 0} (lib : Libdwarf D Die Line) (fuel : ℕ) (sections : List PtImageInfo)
    (lines : Bytes → List Line) (slide_of : Bytes → ℕ) (Reads : Bytes → D → Type 0) where
  pub dwarf_cache_open-IsOpened :
      (base : Os) (n : ℕ) (binary path : Bytes) (x : Opening D) (s : Dwarf D) (fd : ℕ) (d : D)
      → section_path binary sections ≡ some path
      → length path < maxpathlen
      → x.fd ≡ some fd
      → x.init ≡ some d
      → Reads path d
      → IsReady lib fuel sections lines slide_of Reads base n s
      → IsOpened lib fuel sections lines slide_of Reads base n path
          (dwarf_cache_open path (slide_of path) x s)
  unfolding dwarf_cache_open open_new open_debug
  dwarf_cache_open-IsOpened base n binary path x s fd d q short e f reads h =
      let held = dwarf_cache_open-IsHeld path (slide_of path) x s h.held in
      elim (Option-cases (find_cache path s.caches 0)) [
        | inr (i, g) ↦
            let (j, c, p, at_j, same) = find_cache-some path s.caches 0 i g in
            rw (dwarf_cache_open, g)
              (record {
                index = i;
                cache = c;
                is_index = refl;
                is_there = (let k : i ≡ j = omega arith in rw k at_j);
                is_path = same;
                is_ready = h;
              })
        | inl g ↦
            let new : DwarfCache D = record {
              path = path;
              dbg = d;
              fd = fd;
              slide = slide_of path;
            } in
            let less =
              missing-less binary path sections s.caches new q (find_cache-none path s.caches 0 g)
                refl in
            let t : leb max_dwarf_caches (length s.caches) ≡ false =
              let r = h.room in ground arith in
            let g_held =
              rw
                (
                  dwarf_cache_open,
                  g,
                  t,
                  open_new,
                  e,
                  open_debug,
                  f,
                  strlcpy_fits path maxpathlen short,
                )
                at held in
            rw
              (
                dwarf_cache_open,
                g,
                t,
                open_new,
                e,
                open_debug,
                f,
                strlcpy_fits path maxpathlen short,
              )
              (record {
                index = length s.caches;
                cache = new;
                is_index = refl;
                is_there = get_elem?-snoc s.caches new;
                is_path = refl;
                is_ready = record {
                  held = g_held;
                  known = All-snoc _ s.caches new h.known (reads, refl);
                  room = let r = h.room in omega (arith, length-append s.caches (new ∷ []));
                };
              })
      ]

-- ===== src/Sections.antt =====
-- section_should_use() of Sources/bsdtrace/elf.c: which of the recorded image sections a decode
-- uses. An array access `sections[i]` is `get_elem?`; each `for` loop is a function of its own.
pub mod Unique
pub mod Exists
use observable_bsd.Prelude.{
  ℕ, zero, suc, ◌+◌, Bool, true, false, not, ◌&&◌, ◌||◌, Option, none, some, List, [], ◌∷◌, Bytes,
  bytes_eq, is_empty, get_elem?, ltb, ◌==◌, if◌then◌else◌,
}
use observable_bsd.Types.{RecordType, executable, mmap, is_executable, is_mmap, PtImageInfo}

-- An EXEC section of that path.
abbrev pub is_exec_of : Bytes → PtImageInfo → Bool
is_exec_of path s = is_executable s.type && bytes_eq s.path path

-- An MMAP section of that path.
abbrev pub is_mmap_of : Bytes → PtImageInfo → Bool
is_mmap_of path s = is_mmap s.type && bytes_eq s.path path

-- for (i = 0; i < n; i++): is there an EXEC section of that path?
exec_before : Bytes → ℕ → List PtImageInfo → Bool
exec_before path zero xs = false
exec_before path (suc n) [] = false
exec_before path (suc n) (s ∷ xs) = is_exec_of path s || exec_before path n xs

-- The same loop over all of the sections.
pub has_exec : Bytes → List PtImageInfo → Bool
has_exec path [] = false
has_exec path (s ∷ xs) = is_exec_of path s || has_exec path xs

-- The body of the second MMAP loop at index `i`: does section `s` displace section `idx`?
displaces : PtImageInfo → ℕ → ℕ → PtImageInfo → Bool
displaces sec idx i s =
    not (i == idx)
    && is_mmap_of sec.path s
    && (ltb s.load_addr sec.load_addr || (s.load_addr == sec.load_addr && ltb i idx))

-- That loop, from index `i` on.
displaced : PtImageInfo → ℕ → ℕ → List PtImageInfo → Bool
displaced sec idx i [] = false
displaced sec idx i (s ∷ xs) = displaces sec idx i s || displaced sec idx (i + 1) xs

-- The switch on `sec->type`.
should_use_type : RecordType → PtImageInfo → List PtImageInfo → ℕ → Bool
should_use_type executable sec sections idx = not (exec_before sec.path idx sections)
should_use_type mmap sec sections idx =
    not (has_exec sec.path sections) && not (displaced sec idx 0 sections)
should_use_type _ sec sections idx = true

should_use : PtImageInfo → List PtImageInfo → ℕ → Bool
should_use sec sections idx =
    if is_empty sec.path then false else should_use_type sec.type sec sections idx

-- An index out of range is never asked for; the answer there is arbitrary.
unfoldable pub section_should_use : List PtImageInfo → ℕ → Bool
unfolding exec_before has_exec displaces displaced should_use_type should_use
section_should_use sections idx = elim (get_elem? sections idx) [
  | none ↦ false
  | some sec ↦ should_use sec sections idx
]

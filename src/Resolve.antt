-- ===== src/Resolve.antt =====
-- Sources/bsdtrace/resolve.c: the address ranges of `-r`, and the mappings of a running process.
pub mod Vmmap
pub mod Specs
pub mod Parse
pub mod Found
pub mod Filter
pub mod Slide
pub mod Mappings
use observable_bsd.Prelude.{
  ℕ, zero, suc, ◌+◌, ◌-◌, ◌*◌, ◌/◌, Bool, true, false, not, ◌&&◌, ◌||◌, Option, none, some, List,
  [], ◌∷◌, ◌++◌, Bytes, codes, is_empty, bytes_eq, strlcpy, ltb, leb, ◌==◌, if◌then◌else◌, length,
  take, drop, ℤ, pos,
}
use observable_bsd.Types.{PtImageInfo, mmap, add64, sub64, maxpathlen}
use observable_bsd.Stdio.{literal, scan_hex}
use observable_bsd.Elf.{Elf, Shdr, ElfData, ElfSym, sht_symtab, sht_dynsym, elf_base_vaddr}
use observable_bsd.Symbols.{is_function}
use observable_bsd.Hwt.Process.{IpRange}

-- enum range_spec_type
pub data RangeSpecType : Type 0 where
  range_addr range_symbol : RangeSpecType

-- struct range_spec
pub record RangeSpec : Type 0 where
  pub type : RangeSpecType
  pub start : ℕ
  pub end : ℕ
  pub symbol : Bytes
  pub mode : ℤ

abbrev pub range_filter : ℤ
range_filter = pos 1

abbrev pub range_tracestop : ℤ
range_tracestop = pos 2

abbrev pub range_spec_symlen : ℕ
range_spec_symlen = 256

-- What sscanf(inner, "0x%lx:0x%lx") stores: the first number, and the second.
scan_second : ℕ → Option Bytes → Option ℕ × Option ℕ
scan_second start none = (some start, none)
scan_second start (some s) = elim (scan_hex s) [
  | none ↦ (some start, none)
  | some (end, rest) ↦ (some start, some end)
]

scan_first : Option Bytes → Option ℕ × Option ℕ
unfolding scan_second
scan_first none = (none, none)
scan_first (some s) = elim (scan_hex s) [
  | none ↦ (none, none)
  | some (start, rest) ↦ scan_second start (literal (codes ":0x") rest)
]

stored : Option ℕ → ℕ
stored none = 0
stored (some n) = n

-- From the sscanf() on; none where parse_range_spec() returns -1.
parse_inner : ℤ → Bytes → Option ℕ × Option ℕ → Option RangeSpec
unfolding stored
parse_inner mode inner (start, some end) =
    some (record { type = range_addr; start = stored start; end = end; symbol = []; mode = mode })
parse_inner mode inner (start, none) =
    if is_empty inner
    then none
    else if leb range_spec_symlen (length inner)
    then none
    else some (record {
      type = range_symbol;
      start = stored start;
      end = 0;
      symbol = strlcpy inner range_spec_symlen;
      mode = mode;
    })

unfoldable pub parse_range_spec : Bytes → Option RangeSpec
unfolding scan_first parse_inner
parse_range_spec arg =
    if bytes_eq (take 5 arg) (codes "stop:")
    then parse_inner range_tracestop (drop 5 arg) (scan_first (literal (codes "0x") (drop 5 arg)))
    else parse_inner range_filter arg (scan_first (literal (codes "0x") arg))

-- The range of a function at run time.
pub record AddrRange : Type 0 where
  pub start : ℕ
  pub end : ℕ

abbrev pub unknown_size_fallback : ℕ
unknown_size_fallback = 4096

abbrev pub sym_range : ElfSym → ℕ → AddrRange
sym_range sym slide = record {
  start = add64 sym.st_value slide;
  end =
      add64 (add64 sym.st_value (if ltb 0 sym.st_size then sym.st_size else unknown_size_fallback))
        slide;
}

is_named : Option Bytes → Bytes → Bool
is_named none name = false
is_named (some sname) name = bytes_eq sname name

-- The body of the loop over the symbols: the range, or none where the loop goes on.
match_symbol : Bytes → ℕ → Option ElfSym → Option AddrRange
unfolding is_named
match_symbol name slide none = none
match_symbol name slide (some sym) =
    if is_function sym && is_named sym.st_name name then some (sym_range sym slide) else none

-- A loop that returns at its first success.
unfoldable pub or_else {ℓ} : {A : Type ℓ} → Option A → Option A → Option A
or_else (some a) rest = some a
or_else none rest = rest

-- for (i = 0; i < nsyms; i++): `n` rounds are left, from index `i` on.
find_in_block : Bytes → ℕ → ElfData → ℕ → ℕ → Option AddrRange
unfolding or_else match_symbol
find_in_block name slide block zero i = none
find_in_block name slide block (suc n) i =
    or_else (match_symbol name slide (block.sym_at i)) (find_in_block name slide block n (i + 1))

find_in_blocks : Bytes → ℕ → ℕ → List ElfData → Option AddrRange
unfolding or_else find_in_block
find_in_blocks name slide entsize [] = none
find_in_blocks name slide entsize (b ∷ bs) =
    or_else (find_in_block name slide b (b.d_size / entsize) 0)
      (find_in_blocks name slide entsize bs)

find_in_sections : Bytes → ℕ → ℕ → List (Option Shdr) → Option AddrRange
unfolding or_else find_in_blocks
find_in_sections name slide type [] = none
find_in_sections name slide type (none ∷ ss) = find_in_sections name slide type ss
find_in_sections name slide type (some s ∷ ss) =
    let rest = find_in_sections name slide type ss in
    or_else
      (if s.sh_type == type && not (s.sh_entsize == 0)
        then find_in_blocks name slide s.sh_entsize s.blocks
        else none)
      rest

-- What the system and libelf answer: elf_version(), open() with elf_begin(), and the entries of
-- the VM map of a process, none where the sysctl() fails.
pub record KinfoVmentry : Type 0 where
  pub structsize : ℕ
  pub is_vnode : Bool
  pub is_exec : Bool
  pub path : Bytes
  pub start : ℕ

pub record Host : Type 0 where
  pub elf_ready : Bool
  pub open_elf : Bytes → Option Elf
  pub vmmap : ℤ → Option (List KinfoVmentry)

-- elf_version(), open() and elf_begin() in a row.
unfoldable pub open_host : Host → Bytes → Option Elf
open_host host path = if host.elf_ready then host.open_elf path else none

find_in_elf : Bytes → ℕ → Elf → Option AddrRange
unfolding or_else find_in_sections
find_in_elf name slide elf =
    or_else (find_in_sections name slide sht_symtab elf.shdrs)
      (find_in_sections name slide sht_dynsym elf.shdrs)

unfoldable pub resolve_symbol_in_elf : Host → Bytes → ℕ → Bytes → Option AddrRange
unfolding open_host find_in_elf
resolve_symbol_in_elf host path slide name = elim (open_host host path) [
  | none ↦ none
  | some elf ↦ find_in_elf name slide elf
]

-- ET_DYN of <elf.h>.
abbrev pub et_dyn : ℕ
et_dyn = 3

-- 1, 0 or -1.
unfoldable pub elf_is_pie : Host → Bytes → Option Bool
unfolding open_host
elf_is_pie host path = elim (open_host host path) [
  | none ↦ none
  | some elf ↦ elim elf.e_type [ none ↦ none | some t ↦ some (t == et_dyn) ]
]

-- ===== src/Elf.antt =====
-- Sources/bsdtrace/elf.c: what bsdtrace reads off an ELF file. libelf is not part of the
-- repository: an open file is the record `Elf` of the answers that libelf gives about it, and a
-- failing call of libelf is `none`.
pub mod LoadAddr
pub mod MmapAddr
use Prim.Native.Nat.{bit_and}
use observable_bsd.Prelude.{
  ℕ, zero, suc, ◌+◌, ◌-◌, ◌%◌, Bool, true, false, not, ◌&&◌, ◌||◌, Option, none, some, List, [],
  ◌∷◌, Bytes, ltb, leb, ◌==◌, if◌then◌else◌, length,
}
use observable_bsd.Types.{RecordType, executable, mmap, add64, sub64, trunc_page}

-- GElf_Phdr
pub record Phdr : Type 0 where
  pub p_type : ℕ
  pub p_flags : ℕ
  pub p_offset : ℕ
  pub p_vaddr : ℕ
  pub p_filesz : ℕ

-- GElf_Sym, with GELF_ST_TYPE(st_info) and the name that elf_strptr() finds.
pub record ElfSym : Type 0 where
  pub st_type : ℕ
  pub st_value : ℕ
  pub st_size : ℕ
  pub st_name : Option Bytes

-- Elf_Data, with the answers of gelf_getsym() about it.
pub record ElfData : Type 0 where
  pub d_size : ℕ
  pub sym_at : ℕ → Option ElfSym

-- GElf_Shdr, with the data blocks of its section.
pub record Shdr : Type 0 where
  pub sh_type : ℕ
  pub sh_entsize : ℕ
  pub blocks : List ElfData

-- An open ELF file: program headers, section headers, e_type, and the bytes at an offset.
pub record Elf : Type 0 where
  pub phdrs : Option (List (Option Phdr))
  pub shdrs : List (Option Shdr)
  pub e_type : Option ℕ
  pub read_at : ℕ → ℕ → Option Bytes

abbrev pub pt_load : ℕ
pt_load = 1

abbrev pub pt_interp : ℕ
pt_interp = 3

abbrev pub pf_x : ℕ
pf_x = 1

abbrev pub sht_null : ℕ
sht_null = 0

abbrev pub sht_symtab : ℕ
sht_symtab = 2

abbrev pub sht_dynsym : ℕ
sht_dynsym = 11

unfoldable pub is_user_addr : ℕ → Bool
is_user_addr addr =
    if addr == 0 then false else if leb 0x0000_8000_0000_0000 addr then false else true

first_load : List (Option Phdr) → Option ℕ
first_load [] = none
first_load (none ∷ ps) = first_load ps
first_load (some p ∷ ps) = if p.p_type == pt_load then some p.p_vaddr else first_load ps

unfoldable pub elf_base_vaddr : Elf → Option ℕ
unfolding first_load
elf_base_vaddr elf = elim elf.phdrs [ none ↦ none | some ps ↦ first_load ps ]

-- The three tests by which the loops over the program headers skip a segment.
abbrev pub is_text : Phdr → Bool
is_text p = p.p_type == pt_load && not (bit_and p.p_flags pf_x == 0) && not (p.p_filesz == 0)

-- `best` is none where the source's `found` is false.
lower : Option ℕ → ℕ → Option ℕ
lower none v = some v
lower (some best) v = if ltb v best then some v else some best

lowest_text : List (Option Phdr) → Option ℕ → Option ℕ
lowest_text [] best = best
lowest_text (none ∷ ps) best = lowest_text ps best
lowest_text (some p ∷ ps) best =
    lowest_text ps (if is_text p then lower best (trunc_page p.p_vaddr) else best)

unfoldable pub elf_exec_map_vaddr : Elf → Option ℕ
unfolding lower lowest_text
elf_exec_map_vaddr elf = elim elf.phdrs [ none ↦ none | some ps ↦ lowest_text ps none ]

preferred_from : List (Option Shdr) → ℕ → ℕ
preferred_from [] have_dynsym = have_dynsym
preferred_from (none ∷ ss) have_dynsym = preferred_from ss have_dynsym
preferred_from (some s ∷ ss) have_dynsym =
    let rest = preferred_from ss (if s.sh_type == sht_dynsym then sht_dynsym else have_dynsym) in
    if s.sh_type == sht_symtab then sht_symtab else rest

unfoldable pub elf_preferred_symtab_type : Elf → ℕ
unfolding preferred_from
elf_preferred_symtab_type elf = preferred_from elf.shdrs sht_null

-- The switch of elf_effective_load_addr() on the record's type.
load_addr_by_type : RecordType → Elf → ℕ → ℕ → Option ℕ
load_addr_by_type executable elf base_vaddr record_addr =
    if record_addr == 0 then some base_vaddr else some (add64 base_vaddr record_addr)
load_addr_by_type mmap elf base_vaddr record_addr = elim (elf_exec_map_vaddr elf) [
  | none ↦ none
  | some exec_map_vaddr ↦
      if ltb record_addr exec_map_vaddr
      then none
      else some (add64 base_vaddr (record_addr - exec_map_vaddr))
]
load_addr_by_type _ elf base_vaddr record_addr = some record_addr

unfoldable pub elf_effective_load_addr : Elf → RecordType → ℕ → Option ℕ
unfolding load_addr_by_type
elf_effective_load_addr elf type record_addr = elim (elf_base_vaddr elf) [
  | none ↦ none
  | some base_vaddr ↦ load_addr_by_type type elf base_vaddr record_addr
]

-- ===== src/Resolve/Found.antt =====
-- The symbol that a range is resolved to.
use observable_bsd.Prelude.{
  ℕ, zero, suc, ◌+◌, ◌/◌, ◌≡◌, refl, inl, inr, not, ◌&&◌, Option, none, some, List, [], ◌∷◌, ◌++◌,
  Bytes, ◌==◌, if◌then◌else◌, Bool-cases,
}
use observable_bsd.Elf.{Elf, Shdr, ElfData, ElfSym, sht_symtab, sht_dynsym}
use observable_bsd.Symbols.{is_function}
use observable_bsd.Symbols.Load.{
  read, symbols_of_block, symbols_of_blocks, symbols_of_section, symbols_of_sections,
}
use observable_bsd.Resolve.{
  Host, AddrRange, sym_range, is_named, match_symbol, or_else, find_in_block, find_in_blocks,
  find_in_sections, find_in_elf, open_host, resolve_symbol_in_elf,
}

-- The symbols that a range may name, in the order of preference: those of the SYMTAB sections
-- before those of the DYNSYM sections, each in the order of the file.
abbrev pub candidates : Elf → List ElfSym
candidates elf =
    symbols_of_sections sht_symtab elf.shdrs ++ symbols_of_sections sht_dynsym elf.shdrs

-- The range of the first function of a list that has the name.
unfoldable pub first_named : Bytes → ℕ → List ElfSym → Option AddrRange
unfolding is_named
first_named name slide [] = none
first_named name slide (s ∷ ss) =
    if is_function s && is_named s.st_name name
    then some (sym_range s slide)
    else first_named name slide ss

module _ (name : Bytes) (slide : ℕ) where
  first_named-append :
      (xs ys : List ElfSym)
      → first_named name slide (xs ++ ys)
        ≡ or_else (first_named name slide xs) (first_named name slide ys)
  unfolding first_named or_else
  first_named-append [] ys = refl
  first_named-append (x ∷ xs) ys = elim (Bool-cases (is_function x && is_named x.st_name name)) [
    | inl e ↦ rw e refl
    | inr e ↦ rw e (first_named-append xs ys)
  ]

  match_symbol-first_named :
      (o : Option ElfSym) → match_symbol name slide o ≡ first_named name slide (read o)
  unfolding match_symbol first_named read
  match_symbol-first_named none = refl
  match_symbol-first_named (some s) = refl

  find_in_block-first_named :
      (b : ElfData) (n i : ℕ)
      → find_in_block name slide b n i ≡ first_named name slide (symbols_of_block b n i)
  unfolding find_in_block symbols_of_block first_named
  find_in_block-first_named b zero i = refl
  find_in_block-first_named b (suc n) i =
      rw
        (
          first_named-append (read (b.sym_at i)) (symbols_of_block b n (i + 1)),
          match_symbol-first_named (b.sym_at i),
          find_in_block-first_named b n (i + 1),
        )
        refl

  find_in_blocks-first_named :
      (entsize : ℕ) (bs : List ElfData)
      → find_in_blocks name slide entsize bs ≡ first_named name slide (symbols_of_blocks entsize bs)
  unfolding find_in_blocks symbols_of_blocks first_named
  find_in_blocks-first_named entsize [] = refl
  find_in_blocks-first_named entsize (b ∷ bs) =
      rw
        (
          first_named-append (symbols_of_block b (b.d_size / entsize) 0)
              (symbols_of_blocks entsize bs),
          find_in_block-first_named b (b.d_size / entsize) 0,
          find_in_blocks-first_named entsize bs,
        )
        refl

  find_in_sections-first_named :
      (type : ℕ) (ss : List (Option Shdr))
      → find_in_sections name slide type ss ≡ first_named name slide (symbols_of_sections type ss)
  unfolding find_in_sections symbols_of_sections symbols_of_section first_named
  find_in_sections-first_named type [] = refl
  find_in_sections-first_named type (none ∷ ss) = find_in_sections-first_named type ss
  find_in_sections-first_named type (some s ∷ ss) =
      elim (Bool-cases (s.sh_type == type && not (s.sh_entsize == 0))) [
        | inl e ↦
            rw
              (
                e,
                first_named-append (symbols_of_blocks s.sh_entsize s.blocks)
                    (symbols_of_sections type ss),
                find_in_blocks-first_named s.sh_entsize s.blocks,
                find_in_sections-first_named type ss,
              )
              refl
        | inr e ↦ rw e (unfold or_else in find_in_sections-first_named type ss)
      ]

-- The nested loops over section types, sections, blocks and symbols of a file that can be opened
-- find the range of the first function of that name and with a value, where all symbols of SYMTAB
-- sections come before those of DYNSYM sections; and nothing exactly where there is none.
pub resolve_symbol_in_elf-first_named :
    (host : Host) (path : Bytes) (slide : ℕ) (name : Bytes) (elf : Elf)
    → open_host host path ≡ some elf
    → resolve_symbol_in_elf host path slide name ≡ first_named name slide (candidates elf)
unfolding resolve_symbol_in_elf find_in_elf
resolve_symbol_in_elf-first_named host path slide name elf e =
    rw
      (
        e,
        resolve_symbol_in_elf,
        first_named-append name slide (symbols_of_sections sht_symtab elf.shdrs)
            (symbols_of_sections sht_dynsym elf.shdrs),
        find_in_sections-first_named name slide sht_symtab elf.shdrs,
        find_in_sections-first_named name slide sht_dynsym elf.shdrs,
      )
      refl

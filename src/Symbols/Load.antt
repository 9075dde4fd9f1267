-- ===== src/Symbols/Load.antt =====
-- What sym_table_add_elf() puts into the table, and the order that sym_table_sort() leaves.
use mathlib.Core.List.Perm
use mathlib.Core.List.{filter_map, filter_map-append, Perm, map-append}
use observable_bsd.Prelude.{
  ℕ, zero, suc, ◌+◌, ◌/◌, ◌≤◌, ◌≡◌, ◌≢◌, refl, sym, inl, inr, true, false, not, ◌&&◌, Option, none,
  some, List, [], ◌∷◌, ◌++◌, map, append-nil, append_assoc, Bytes, is_empty, ltb, ◌==◌,
  if◌then◌else◌, length, get_elem?, arith, Bool-cases, Option-cases,
}
use observable_bsd.Types.{add64}
use observable_bsd.Elf.{Elf, Shdr, ElfData, ElfSym, elf_preferred_symtab_type}
use observable_bsd.Ranges.{System}
use observable_bsd.Symbols.{
  SymEntry, SymTable, Memory, Sign, positive, grow, store_entry, sym_table_add, is_function,
  add_symbol, add_symbols, add_blocks, add_sections, sym_table_add_elf, sym_entry_cmp,
  sym_table_sort,
}
use observable_bsd.Symbols.Search.{IsSorted}

-- An entry without the places where its two strings lie.
pub record SymInfo : Type 0 where
  pub addr : ℕ
  pub size : ℕ
  pub slide : ℕ
  pub name : Bytes
  pub binary : Bytes

abbrev pub info : SymEntry → SymInfo
info e = record {
  addr = e.addr;
  size = e.size;
  slide = e.slide;
  name = e.name.text;
  binary = e.binary.text;
}

abbrev pub view : SymTable → List SymInfo
view st = map info st.entries

-- The specification: the symbols of the preferred symbol sections, in file order.
unfoldable pub read : Option ElfSym → List ElfSym
read none = []
read (some sym) = sym ∷ []

unfoldable pub symbols_of_block : ElfData → ℕ → ℕ → List ElfSym
symbols_of_block block zero i = []
symbols_of_block block (suc n) i = read (block.sym_at i) ++ symbols_of_block block n (i + 1)

unfoldable pub symbols_of_blocks : ℕ → List ElfData → List ElfSym
symbols_of_blocks entsize [] = []
symbols_of_blocks entsize (b ∷ bs) =
    symbols_of_block b (b.d_size / entsize) 0 ++ symbols_of_blocks entsize bs

unfoldable pub symbols_of_section : ℕ → Shdr → List ElfSym
symbols_of_section type s =
    if s.sh_type == type && not (s.sh_entsize == 0)
    then symbols_of_blocks s.sh_entsize s.blocks
    else []

unfoldable pub symbols_of_sections : ℕ → List (Option Shdr) → List ElfSym
symbols_of_sections type [] = []
symbols_of_sections type (none ∷ ss) = symbols_of_sections type ss
symbols_of_sections type (some s ∷ ss) = symbols_of_section type s ++ symbols_of_sections type ss

pub symbols_of : Elf → List ElfSym
unfolding read symbols_of_block symbols_of_blocks symbols_of_section symbols_of_sections
symbols_of elf = symbols_of_sections (elf_preferred_symtab_type elf) elf.shdrs

-- What one symbol becomes: a function with a value and a name gives an entry, moved by the slide.
abbrev pub entry_of : Bytes → ℕ → ElfSym → Option SymInfo
entry_of binary slide sym = elim sym.st_name [
  | none ↦ none
  | some name ↦
      if is_function sym && not (is_empty name)
      then some (record {
        addr = add64 sym.st_value slide;
        size = sym.st_size;
        slide = slide;
        name = name;
        binary = binary;
      })
      else none
]

-- The allocator has memory.
abbrev pub HasMemory : Memory → Type 0
HasMemory m =
    (m.grown ≡ true) × ((n : ℕ) × (m.name_copy ≡ some n)) × ((b : ℕ) × (m.binary_copy ≡ some b))

view-add_function :
    (st : SymTable) (m : Memory) (sym : ElfSym) (binary : Bytes) (slide : ℕ)
    → HasMemory m
    → view (add_symbol st m (some sym) binary slide)
      ≡ view st ++ filter_map (entry_of binary slide) (sym ∷ [])
unfolding add_symbol sym_table_add grow store_entry filter_map
view-add_function st m sym binary slide (g, (n, p), (b, q)) = elim (Option-cases sym.st_name) [
  | inl none_ ↦ ground (arith, append-nil (view st))
  | inr (name, e) ↦ ground (
    arith,
    append-nil (view st),
    map-append info st.entries (
        record {
          addr = add64 sym.st_value slide;
          size = sym.st_size;
          slide = slide;
          name = record { loc = n; text = name };
          binary = record { loc = b; text = binary };
        }
        ∷ []),
  )
]

module _ (binary : Bytes) (slide : ℕ) where
  append_step :
      (v v' w : List SymInfo) (xs ys : List ElfSym)
      → v' ≡ v ++ filter_map (entry_of binary slide) xs
      → w ≡ v' ++ filter_map (entry_of binary slide) ys
      → w ≡ v ++ filter_map (entry_of binary slide) (xs ++ ys)
  append_step v v' w xs ys p q =
      rw (q, p, append_assoc, ← filter_map-append (entry_of binary slide) xs ys) refl

  view-add_symbol :
      (o : Option ElfSym) (st : SymTable) (m : Memory)
      → HasMemory m
      → view (add_symbol st m o binary slide)
        ≡ view st ++ filter_map (entry_of binary slide) (read o)
  unfolding read
  view-add_symbol none st m h = unfold filter_map add_symbol in sym (append-nil (view st))
  view-add_symbol (some x) st m h = view-add_function st m x binary slide h

  view-add_symbols :
      (mem : ℕ → Memory) (block : ElfData) (n i : ℕ) (st : SymTable)
      → ((k : ℕ) → HasMemory (mem k))
      → view (add_symbols mem binary slide block n i st)
        ≡ view st ++ filter_map (entry_of binary slide) (symbols_of_block block n i)
  unfolding add_symbols symbols_of_block
  view-add_symbols mem block zero i st h = unfold filter_map in sym (append-nil (view st))
  view-add_symbols mem block (suc n) i st h =
      append_step (view st) _ _ (read (block.sym_at i)) (symbols_of_block block n (i + 1))
        (view-add_symbol (block.sym_at i) st (mem i) (h i))
        (view-add_symbols mem block n (i + 1) _ h)

  view-add_blocks :
      (mem : ℕ → ℕ → Memory) (entsize : ℕ) (bs : List ElfData) (st : SymTable)
      → ((j k : ℕ) → HasMemory (mem j k))
      → view (add_blocks mem binary slide entsize bs st)
        ≡ view st ++ filter_map (entry_of binary slide) (symbols_of_blocks entsize bs)
  unfolding add_blocks symbols_of_blocks
  view-add_blocks mem entsize [] st h = unfold filter_map in sym (append-nil (view st))
  view-add_blocks mem entsize (b ∷ bs) st h =
      append_step (view st) _ _ (symbols_of_block b (b.d_size / entsize) 0)
        (symbols_of_blocks entsize bs) (view-add_symbols (mem 0) b (b.d_size / entsize) 0 st (h 0))
        (view-add_blocks (λ k. mem (k + 1)) entsize bs _ (λ k. h (k + 1)))

  view-add_section :
      (mem : ℕ → ℕ → Memory) (type : ℕ) (s : Shdr) (st : SymTable)
      → ((j k : ℕ) → HasMemory (mem j k))
      → view (
          if s.sh_type == type && not (s.sh_entsize == 0)
          then add_blocks mem binary slide s.sh_entsize s.blocks st
          else st)
        ≡ view st ++ filter_map (entry_of binary slide) (symbols_of_section type s)
  unfolding symbols_of_section
  view-add_section mem type s st h =
      elim (Bool-cases (s.sh_type == type && not (s.sh_entsize == 0))) [
        | inl used ↦ rw used (view-add_blocks mem s.sh_entsize s.blocks st h)
        | inr unused ↦ rw unused (unfold filter_map in sym (append-nil (view st)))
      ]

  view-add_sections :
      (mem : ℕ → ℕ → ℕ → Memory) (type : ℕ) (ss : List (Option Shdr)) (st : SymTable)
      → ((i j k : ℕ) → HasMemory (mem i j k))
      → view (add_sections mem type binary slide ss st)
        ≡ view st ++ filter_map (entry_of binary slide) (symbols_of_sections type ss)
  unfolding add_sections symbols_of_sections
  view-add_sections mem type [] st h = unfold filter_map in sym (append-nil (view st))
  view-add_sections mem type (none ∷ ss) st h =
      view-add_sections (λ k. mem (k + 1)) type ss st (λ k. h (k + 1))
  view-add_sections mem type (some s ∷ ss) st h =
      append_step (view st) _ _ (symbols_of_section type s) (symbols_of_sections type ss)
        (view-add_section (mem 0) type s st (h 0))
        (view-add_sections (λ k. mem (k + 1)) type ss _ (λ k. h (k + 1)))

-- While there is memory, loading a binary appends to the table exactly its function symbols that
-- have a value and a name, in file order and from the preferred kind of symbol section, each moved
-- by the slide.
pub view-sym_table_add_elf :
    (sys : System) (mem : ℕ → ℕ → ℕ → Memory) (st : SymTable) (path : Bytes) (slide : ℕ) (elf : Elf)
    → sys.elf_ready ≡ true
    → sys.open_elf path ≡ some elf
    → sys.can_copy path ≡ true
    → ((i j k : ℕ) → HasMemory (mem i j k))
    → view (sym_table_add_elf sys mem st path slide)
      ≡ view st ++ filter_map (entry_of (sys.basename path) slide) (symbols_of elf)
unfolding sym_table_add_elf symbols_of
view-sym_table_add_elf sys mem st path slide elf ready opened copied h =
    rw (ready, opened, copied)
      (view-add_sections (sys.basename path) slide mem (elf_preferred_symtab_type elf) elf.shdrs st
        h)

-- What qsort() promises of a comparison: a permutation in which no element that compares as greater
-- stands before another.
abbrev pub IsQsorted : (SymEntry → SymEntry → Sign) → List SymEntry → List SymEntry → Type 0
IsQsorted cmp before after =
    Perm after before
    × ((i j : ℕ) (e f : SymEntry)
        → get_elem? after i ≡ some e
        → get_elem? after j ≡ some f
        → i ≤ j
        → cmp e f ≢ positive)

-- With a qsort() that keeps its promise for this table, the sorted table has the same entries, in
-- ascending order of address.
pub sym_table_sort_lem :
    (qsort : List SymEntry → List SymEntry) (st : SymTable)
    → IsQsorted sym_entry_cmp st.entries (qsort st.entries)
    → IsSorted (sym_table_sort qsort st).entries × Perm (sym_table_sort qsort st).entries st.entries
unfolding sym_table_sort
sym_table_sort_lem qsort st (perm, ordered) = elim (Bool-cases (ltb 1 (length st.entries))) [
  | inl many ↦ rw many ((λ i j e f g g' l. ascending e f (ordered i j e f g g' l)), perm)
  | inr few ↦ rw few ((λ i j e f g g' l. short st.entries few i j e f g g'), Perm.refl st.entries)
]
  where
    ascending : (e f : SymEntry) → sym_entry_cmp e f ≢ positive → e.addr ≤ f.addr
    ascending e f n = unfold sym_entry_cmp in ground arith

    short :
        (es : List SymEntry)
        → ltb 1 (length es) ≡ false
        → (i j : ℕ) (e f : SymEntry) → get_elem? es i ≡ some e
        → get_elem? es j ≡ some f
        → e.addr ≤ f.addr
    short [] l i j e f g g' = absurd (ground arith)
    short (x ∷ []) l zero zero e f g g' = ground arith
    short (x ∷ []) l zero (suc j) e f g g' = ground arith
    short (x ∷ []) l (suc i) j e f g g' = ground arith
    short (x ∷ y ∷ es) l i j e f g g' = absurd (ground arith)

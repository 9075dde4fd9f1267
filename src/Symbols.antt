-- ===== src/Symbols.antt =====
-- Sources/bsdtrace/symbols.c: the symbol table, from ELF function symbols to the lookup of an
-- instruction address. What realloc() and strdup() answer is an argument of the operations.
pub mod Search
pub mod Load
use observable_bsd.Prelude.{
  ℕ, zero, suc, ◌+◌, ◌-◌, ◌*◌, ◌/◌, ◌%◌, Bool, true, false, not, ◌&&◌, ◌||◌, Option, none, some,
  List, [], ◌∷◌, ◌++◌, Bytes, is_empty, ltb, leb, ◌==◌, if◌then◌else◌, length, get_elem?,
}
use observable_bsd.Types.{CStr, add64, sub64}
use observable_bsd.Elf.{Elf, Shdr, ElfData, ElfSym, elf_preferred_symtab_type}
use observable_bsd.Ranges.{System}

-- struct sym_entry
pub record SymEntry : Type 0 where
  pub addr : ℕ
  pub size : ℕ
  pub slide : ℕ
  pub name : CStr
  pub binary : CStr

-- struct sym_table; `count` is the length of `entries`.
pub record SymTable : Type 0 where
  pub entries : List SymEntry
  pub capacity : ℕ

abbrev pub sym_init_cap : ℕ
sym_init_cap = 256

abbrev pub sym_table_init : SymTable
sym_table_init = record { entries = []; capacity = 0 }

-- What the allocator answers to one sym_table_add(): whether realloc() succeeds if it is called,
-- and where the two copies of strdup() are, or that there is no memory for one.
pub record Memory : Type 0 where
  pub grown : Bool
  pub name_copy : Option ℕ
  pub binary_copy : Option ℕ

-- The array after the growth step at the top of sym_table_add(), or none when realloc() fails.
grow : SymTable → Bool → Option SymTable
grow st grown =
    if not (leb st.capacity (length st.entries))
    then some st
    else if grown
    then some (record st { capacity = if st.capacity == 0 then sym_init_cap else st.capacity * 2 })
    else none

store_entry : SymTable → Memory → ℕ → ℕ → Bytes → Bytes → ℕ → SymTable
store_entry st mem addr size name binary slide = elim mem.name_copy [
  | none ↦ st
  | some n ↦ elim mem.binary_copy [
    | none ↦ st
    | some b ↦ record st {
      entries =
          st.entries
          ++ record {
            addr = addr;
            size = size;
            slide = slide;
            name = record { loc = n; text = name };
            binary = record { loc = b; text = binary };
          }
            ∷ [];
    }
  ]
]

-- A NULL name is none.
unfoldable pub sym_table_add : SymTable → Memory → ℕ → ℕ → Option Bytes → Bytes → ℕ → SymTable
unfolding grow store_entry
sym_table_add st mem addr size none binary slide = st
sym_table_add st mem addr size (some name) binary slide =
    if is_empty name then st else elim (grow st mem.grown) [
      | none ↦ st
      | some grown ↦ store_entry grown mem addr size name binary slide
    ]

abbrev pub stt_func : ℕ
stt_func = 2

-- The tests on a symbol in the innermost loop of sym_table_add_elf().
abbrev pub is_function : ElfSym → Bool
is_function sym = sym.st_type == stt_func && not (sym.st_value == 0)

-- One round of the innermost loop; `none` is a gelf_getsym() that fails.
add_symbol : SymTable → Memory → Option ElfSym → Bytes → ℕ → SymTable
add_symbol st mem none binary slide = st
add_symbol st mem (some sym) binary slide =
    if is_function sym
    then sym_table_add st mem (add64 sym.st_value slide) sym.st_size sym.st_name binary slide
    else st

-- for (i = 0; i < nsyms; i++): `n` rounds are left, from index `i` on.
add_symbols : (ℕ → Memory) → Bytes → ℕ → ElfData → ℕ → ℕ → SymTable → SymTable
add_symbols mem binary slide block zero i st = st
add_symbols mem binary slide block (suc n) i st =
    add_symbols mem binary slide block n (i + 1)
      (add_symbol st (mem i) (block.sym_at i) binary slide)

add_blocks : (ℕ → ℕ → Memory) → Bytes → ℕ → ℕ → List ElfData → SymTable → SymTable
add_blocks mem binary slide entsize [] st = st
add_blocks mem binary slide entsize (b ∷ bs) st =
    add_blocks (λ k. mem (k + 1)) binary slide entsize bs
      (add_symbols (mem 0) binary slide b (b.d_size / entsize) 0 st)

-- The loop over the sections; `mem s b i` answers for symbol `i` of block `b` of section `s`.
add_sections : (ℕ → ℕ → ℕ → Memory) → ℕ → Bytes → ℕ → List (Option Shdr) → SymTable → SymTable
add_sections mem symtab_type binary slide [] st = st
add_sections mem symtab_type binary slide (none ∷ ss) st =
    add_sections (λ k. mem (k + 1)) symtab_type binary slide ss st
add_sections mem symtab_type binary slide (some s ∷ ss) st =
    add_sections (λ k. mem (k + 1)) symtab_type binary slide ss
      (if s.sh_type == symtab_type && not (s.sh_entsize == 0)
        then add_blocks (mem 0) binary slide s.sh_entsize s.blocks st
        else st)

-- sym_table_add_elf(): strdup(path) is `can_copy`.
unfoldable pub sym_table_add_elf : System → (ℕ → ℕ → ℕ → Memory) → SymTable → Bytes → ℕ → SymTable
unfolding sym_table_add add_symbol add_symbols add_blocks add_sections
sym_table_add_elf sys mem st path slide =
    if not sys.elf_ready then st else elim (sys.open_elf path) [
      | none ↦ st
      | some elf ↦
          if sys.can_copy path
          then add_sections mem (elf_preferred_symtab_type elf) (sys.basename path) slide elf.shdrs
              st
          else st
    ]

-- The values that a comparison function for qsort() returns, by their sign.
pub data Sign : Type 0 where
  negative equal positive : Sign

unfoldable pub sym_entry_cmp : SymEntry → SymEntry → Sign
sym_entry_cmp a b =
    if ltb a.addr b.addr then negative else if ltb b.addr a.addr then positive else equal

-- qsort() of libc is an argument.
unfoldable pub sym_table_sort : (List SymEntry → List SymEntry) → SymTable → SymTable
sym_table_sort qsort st =
    if ltb 1 (length st.entries) then record st { entries = qsort st.entries } else st

-- The search loop of sym_table_lookup(). `top` is the source's `hi + 1`, since `hi` can be -1; so
-- the test `lo <= hi` is `lo < top`. `best` is none where the source has -1. A read outside of the
-- table is a fault, the outer none.
search_loop : List SymEntry → ℕ → ℕ → ℕ → ℕ → Option ℕ → Option (Option ℕ)
search_loop entries ip zero lo top best = some best
search_loop entries ip (suc fuel) lo top best =
    let mid = lo + (top - 1 - lo) / 2 in
    let round : Option (Option ℕ) = elim (get_elem? entries mid) [
      | none ↦ none
      | some e ↦ elim (leb e.addr ip) [
        | true ↦ search_loop entries ip fuel (mid + 1) top (some mid)
        | false ↦ search_loop entries ip fuel lo mid best
      ]
    ] in
    if ltb lo top then round else some best

-- The tests on the entry that the search ends with.
covers : SymEntry → ℕ → Bool
covers e ip = if ltb 0 e.size then ltb ip (add64 e.addr e.size) else leb (sub64 ip e.addr) 4096

best_entry : List SymEntry → ℕ → Option (Option ℕ) → Option SymEntry
best_entry entries ip none = none
best_entry entries ip (some none) = none
best_entry entries ip (some (some best)) = elim (get_elem? entries best) [
  | none ↦ none
  | some e ↦ if covers e ip then some e else none
]

-- Each round of the search shrinks the interval, so as many rounds as entries are enough.
unfoldable pub sym_table_lookup : SymTable → ℕ → Option SymEntry
unfolding search_loop covers best_entry
sym_table_lookup st ip =
    best_entry st.entries ip
      (search_loop st.entries ip (length st.entries) 0 (length st.entries) none)

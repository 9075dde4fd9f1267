-- ===== src/Tests/Tables.antt =====
-- Examples for the tables of symbols and address ranges.
use mathlib.Core.List.Perm
use mathlib.Core.List.{filter_map}
use observable_bsd.Prelude.{
  ℕ, zero, suc, ◌≡◌, ◌≢◌, refl, true, Option, none, some, List, [], ◌∷◌, ◌++◌, codes, get_elem?,
  arith, length, ◌≤◌,
}
use observable_bsd.Types.{PtImageInfo, executable}
use observable_bsd.Elf.{Phdr, Elf}
use observable_bsd.Ranges.{build_bin_ranges, BinRange, Segment, System, find_binary_for_ip}
use observable_bsd.Ranges.Limit.{length-build_bin_ranges}
use observable_bsd.Ranges.Lookup
use observable_bsd.Ranges.Lookup.{find_binary_for_ip-Answers}
use observable_bsd.Symbols.{
  SymEntry, SymTable, sym_table_init, Memory, sym_table_add_elf, sym_table_lookup, sym_entry_cmp,
  positive,
}
use observable_bsd.Symbols.Search.{Answers, IsSorted, NoWrap, sym_table_lookup-Answers}
use observable_bsd.Symbols.Load.{view, entry_of, symbols_of, IsQsorted, view-sym_table_add_elf}

abbrev entry : SymEntry
entry = record {
  addr = 16;
  size = 8;
  slide = 0;
  name = record { loc = 1; text = codes "main" };
  binary = record { loc = 2; text = codes "a" };
}

abbrev table : SymTable
table = record { entries = entry ∷ []; capacity = 256 }

table_IsSorted : IsSorted table.entries
table_IsSorted zero zero e f g h l = ground arith
table_IsSorted zero (suc j) e f g h l = ground arith
table_IsSorted (suc i) j e f g h l = ground arith

table_NoWrap : NoWrap table.entries
table_NoWrap zero e g = ground arith
table_NoWrap (suc i) e g = ground arith

sym_table_lookup-Answers_example : Answers table.entries 20 (sym_table_lookup table 20)
sym_table_lookup-Answers_example =
    sym_table_lookup-Answers table 20 table_IsSorted table_NoWrap (omega arith)

table_IsQsorted : IsQsorted sym_entry_cmp table.entries table.entries
table_IsQsorted = (Perm.refl table.entries, λ i j e f g h l. never i j e f g h)
  where
    never :
        (i j : ℕ) (e f : SymEntry)
        → get_elem? table.entries i ≡ some e
        → get_elem? table.entries j ≡ some f
        → sym_entry_cmp e f ≢ positive
    never zero zero e f g h = unfold sym_entry_cmp in ground arith
    never zero (suc j) e f g h = ground arith
    never (suc i) j e f g h = ground arith

abbrev main_file : Elf
main_file = record {
  phdrs = some (
      some (record { p_type = 1; p_flags = 5; p_offset = 0; p_vaddr = 4096; p_filesz = 4096 })
      ∷ []);
  shdrs =
      some (record {
        sh_type = 2;
        sh_entsize = 24;
        blocks =
            record {
              d_size = 24;
              sym_at = λ i. some (record {
                st_type = 2;
                st_value = 4112;
                st_size = 8;
                st_name = some (codes "main");
              });
            }
            ∷ [];
      })
      ∷ [];
  e_type = some 2;
  read_at = λ o n. none;
}

abbrev main_phdrs : List (Option Phdr)
main_phdrs =
    some (record { p_type = 1; p_flags = 5; p_offset = 0; p_vaddr = 4096; p_filesz = 4096 }) ∷ []

abbrev system : System
system = record {
  elf_ready = true;
  open_elf = λ path. some main_file;
  can_copy = λ path. true;
  basename = λ path. path;
  accepts = λ seg. true;
}

abbrev memory : Memory
memory = record { grown = true; name_copy = some 1; binary_copy = some 2 }

view-sym_table_add_elf_example :
    view (sym_table_add_elf system (λ i j k. memory) sym_table_init (codes "/a") 0)
    ≡ view sym_table_init ++ filter_map (entry_of (codes "/a") 0) (symbols_of main_file)
view-sym_table_add_elf_example =
    view-sym_table_add_elf system (λ i j k. memory) sym_table_init (codes "/a") 0 main_file refl
      refl refl (λ i j k. (refl, (1, refl), (2, refl)))

abbrev main_section : PtImageInfo
main_section = record { path = codes "/a"; load_addr = 0; base_addr = 0; type = executable }

length-build_bin_ranges_example : length (build_bin_ranges system (main_section ∷ []) 1) ≤ 1
length-build_bin_ranges_example = length-build_bin_ranges system (main_section ∷ []) 1

abbrev ranges : List BinRange
ranges = record { name = codes "a"; lo = 4096; hi = 8192; base = 0 } ∷ []

find_binary_for_ip-Answers_example : Lookup.Answers ranges 5000 (find_binary_for_ip ranges 5000)
find_binary_for_ip-Answers_example = find_binary_for_ip-Answers ranges 5000 (omega arith)

abbrev image : List Segment
image = record { file = codes "/a"; offset = 0; size = 4096; vaddr = 4096 } ∷ []

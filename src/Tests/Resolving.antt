-- ===== src/Tests/Resolving.antt =====
-- Examples for the address ranges of `-r` and the mappings of a process.
use observable_bsd.Prelude.{
  ◌≡◌, ◌++◌, refl, true, false, none, some, List, [], ◌∷◌, codes, bytes_eq, pos, arith,
}
use observable_bsd.Types.{add64, sub64}
use observable_bsd.Elf.{Elf, elf_base_vaddr, elf_exec_map_vaddr, elf_effective_load_addr}
use observable_bsd.Hwt.Process.{IpRange}
use observable_bsd.Meta.{meta_read_sections}
use observable_bsd.Meta.Session.{sidecar}
use observable_bsd.Meta.Seeded.{attached}
use observable_bsd.Resolve.{
  KinfoVmentry, Host, RangeSpec, range_addr, range_symbol, range_filter, range_tracestop, open_host,
  resolve_symbol_in_elf, parse_range_spec,
}
use observable_bsd.Resolve.Vmmap.{process_load_addr, process_exec_mmaps}
use observable_bsd.Resolve.Specs.{
  is_symbol, resolve_typed, resolve_from, compute_slide, resolve_range_specs,
}
use observable_bsd.Resolve.Parse.{range_text, addr_spec, parse_range_spec-range_text}
use observable_bsd.Resolve.Found.{candidates, first_named, resolve_symbol_in_elf-first_named}
use observable_bsd.Resolve.Filter.{IsFilter, resolve_range_specs-IsFilter}
use observable_bsd.Resolve.Slide.{compute_slide-offset}
use observable_bsd.Resolve.Mappings.{exec_mappings, walked, process_exec_mmaps-attached}
use observable_bsd.Tests.{records, records_IsPlain, lib_c_IsPlain}

-- A file whose text lies a page behind its base, with one function.
abbrev shifted_file : Elf
shifted_file = record {
  phdrs = some (
      some (record { p_type = 1; p_flags = 4; p_offset = 0; p_vaddr = 0; p_filesz = 4096 })
      ∷ some (record { p_type = 1; p_flags = 5; p_offset = 4096; p_vaddr = 4096; p_filesz = 100 })
      ∷ []);
  shdrs =
      some (record {
        sh_type = 2;
        sh_entsize = 24;
        blocks =
            record {
              d_size = 24;
              sym_at = λ i. some (record {
                st_type = 2;
                st_value = 4112;
                st_size = 8;
                st_name = some (codes "main");
              });
            }
            ∷ [];
      })
      ∷ [];
  e_type = some 2;
  read_at = λ o n. none;
}

abbrev text_entry : KinfoVmentry
text_entry = record {
  structsize = 1160;
  is_vnode = true;
  is_exec = true;
  path = codes "/lib/c";
  start = 69632;
}

abbrev host : Host
host = record {
  elf_ready = true;
  open_elf = λ path. some shifted_file;
  vmmap = λ pid. some (text_entry ∷ []);
}

parse_range_spec-range_text_example :
    (parse_range_spec (range_text 16 255) ≡ some (addr_spec range_filter 16 255))
    × (parse_range_spec (codes "stop:" ++ range_text 16 255)
        ≡ some (addr_spec range_tracestop 16 255))
parse_range_spec-range_text_example = parse_range_spec-range_text 16 255 (omega arith) (omega arith)

resolve_symbol_in_elf-first_named_example :
    resolve_symbol_in_elf host (codes "/lib/c") 65536 (codes "main")
    ≡ first_named (codes "main") 65536 (candidates shifted_file)
unfolding open_host
resolve_symbol_in_elf-first_named_example =
    resolve_symbol_in_elf-first_named host (codes "/lib/c") 65536 (codes "main") shifted_file refl

abbrev specs : List RangeSpec
specs =
    record { type = range_symbol; start = 0; end = 0; symbol = codes "main"; mode = pos 1 }
    ∷ record { type = range_addr; start = 16; end = 32; symbol = []; mode = pos 2 }
    ∷ []

abbrev ranges : List IpRange
ranges =
    record { start = 4112; end = 4120; mode = pos 1 }
    ∷ record { start = 16; end = 32; mode = pos 2 }
    ∷ []

resolve_range_specs-IsFilter_example : IsFilter host (codes "/lib/c") true specs ranges true
unfolding resolve_range_specs compute_slide resolve_from resolve_symbol_in_elf bytes_eq is_symbol
    resolve_typed
resolve_range_specs-IsFilter_example =
    resolve_range_specs-IsFilter host specs (pos 1) (codes "/lib/c") true ranges true refl

compute_slide-offset_example : 69632 ≡ add64 (sub64 65536 0) (sub64 4096 0)
unfolding open_host elf_base_vaddr elf_exec_map_vaddr process_load_addr elf_effective_load_addr
    compute_slide bytes_eq
compute_slide-offset_example =
    compute_slide-offset host (codes "/lib/c") (pos 1) shifted_file 0 4096 69632 65536 69632 false
      refl refl refl refl refl (omega arith) (omega arith) (omega arith) refl

process_exec_mmaps-attached_example :
    (process_exec_mmaps host (λ k. true) (pos 1) ≡ some (exec_mappings (walked (text_entry ∷ []))))
    × (meta_read_sections
          (λ k. true)
          (sidecar
            (attached
              (pos 1)
              (pos 2)
              3
              0
              (λ k. true)
              (λ k. true)
              (exec_mappings (walked (text_entry ∷ [])))
              records).meta)
        ≡ some
            (attached
              (pos 1)
              (pos 2)
              3
              0
              (λ k. true)
              (λ k. true)
              (exec_mappings (walked (text_entry ∷ [])))
              records).sections)
process_exec_mmaps-attached_example =
    process_exec_mmaps-attached host (λ k. true) (λ k. true) (λ k. true) (λ k. true) (pos 1) (pos 2)
      3 0 (text_entry ∷ []) records refl (λ k. refl) (λ k. refl) (λ k. refl) (λ k. refl)
      ((lib_c_IsPlain, omega arith), tt) records_IsPlain

-- ===== src/Tests.antt =====
-- Examples: each theorem of the library that has conditions, applied at concrete data.
mod Decoding
mod Tables
mod Device
mod Calling
mod Sources
mod Finishing
mod Resolving
use mathlib.Core.List.Perm
use mathlib.Core.List.{Perm}
use observable_bsd.Prelude.{
  ℕ, zero, suc, ◌+◌, ◌≡◌, ◌≤◌, ◌<◌, ◌≢◌, refl, Bool, true, false, Option, none, some, List, [], ◌∷◌,
  ◌++◌, map, Bytes, codes, bytes_eq, get_elem?, length, ℤ, pos, negsuc, arith,
}
use observable_bsd.Types.{
  executable, mmap, buffer, thread_create, PtImageInfo, BsdtraceRecord, CStr, u64, add64, sub64,
}
use observable_bsd.Sections.{section_should_use}
use observable_bsd.Sections.Unique.{section_should_use_unique}
use observable_bsd.Sections.Exists.{Chosen, section_should_use_exists}
use observable_bsd.Elf.{Phdr, Elf, elf_base_vaddr, elf_exec_map_vaddr, elf_effective_load_addr}
use observable_bsd.Elf.MmapAddr.{
  FirstLoad, first, later, MmapAnswer, elf_effective_load_addr-MmapAnswer,
}
use observable_bsd.Json.{json_escape, json_string}
use observable_bsd.Meta.Offline.{IsPlainPath, IsPlainRecord}
use observable_bsd.Json.Reader.{read_string}
use observable_bsd.Json.Escape.{All, json_escape_roundtrip, length-json_escape}
use observable_bsd.Meta.{meta_read_sections}
use observable_bsd.Meta.Seeded.{as_records, attached, meta_read_sections-attached}
use observable_bsd.Meta.Session.{sidecar, opened, meta_read_sections-process_all}
use observable_bsd.Meta.Readers.{meta_read_tid, meta_read_mtc_freq, meta_read_cyc_thresh}
use observable_bsd.Meta.ReadBack.{meta_read-process_all}
use observable_bsd.Trace.{trace_state_init, process_all}
use observable_bsd.Trace.Pages.{pages, drops, max_page, process_all-buf_wrapped}
use observable_bsd.Trace.Sections.{sections_after, process_all-sections}

-- Two mappings of one library, and the executable that uses it.
abbrev lib_high : PtImageInfo
lib_high = record { path = codes "/lib/c"; load_addr = 8192; base_addr = 0; type = mmap }

abbrev lib_low : PtImageInfo
lib_low = record { path = codes "/lib/c"; load_addr = 4096; base_addr = 0; type = mmap }

abbrev two_maps : List PtImageInfo
two_maps = lib_high ∷ lib_low ∷ []

abbrev low : ℕ
low = 1

section_should_use_unique_example : low ≡ low
unfolding section_should_use bytes_eq
section_should_use_unique_example =
    section_should_use_unique two_maps low low lib_low lib_low refl refl refl refl refl refl refl

section_should_use_exists_example : Chosen two_maps (codes "/lib/c")
section_should_use_exists_example =
    section_should_use_exists two_maps (codes "/lib/c") refl 0 lib_high refl refl refl

-- A file with its executable segment one page behind its first.
abbrev elf_file : Elf
elf_file = record {
  phdrs = some (
      some (record { p_type = 1; p_flags = 4; p_offset = 0; p_vaddr = 0; p_filesz = 4096 })
      ∷ some (record { p_type = 1; p_flags = 5; p_offset = 4096; p_vaddr = 4112; p_filesz = 100 })
      ∷ []);
  shdrs = [];
  e_type = some 3;
  read_at = λ o n. none;
}

abbrev elf_file_phdrs : List (Option Phdr)
elf_file_phdrs =
    some (record { p_type = 1; p_flags = 4; p_offset = 0; p_vaddr = 0; p_filesz = 4096 })
    ∷ some (record { p_type = 1; p_flags = 5; p_offset = 4096; p_vaddr = 4112; p_filesz = 100 })
    ∷ []

elf_file-small : (p : Phdr) → FirstLoad p elf_file_phdrs → p.p_vaddr < u64
elf_file-small p (first t) = omega arith
elf_file-small p (later n (first t)) = omega arith
elf_file-small p (later n (later m f)) = elim f [ ]

elf_effective_load_addr-MmapAnswer_example :
    MmapAnswer elf_file_phdrs 12288 (elf_effective_load_addr elf_file mmap 12288)
elf_effective_load_addr-MmapAnswer_example =
    elf_effective_load_addr-MmapAnswer elf_file elf_file_phdrs 12288 refl elf_file-small
      (omega arith)

json_escape_roundtrip_example :
    (codes "\"" ++ json_escape 64 (codes "a\"b") ++ codes "\"" ≡ json_string (codes "a\"b"))
    × (read_string 4 (json_escape 64 (codes "a\"b") ++ b'"' ∷ []) ≡ some (codes "a\"b", []))
unfolding json_string
json_escape_roundtrip_example = json_escape_roundtrip 64 (codes "a\"b") [] (omega arith)

abbrev a_record : BsdtraceRecord
a_record = record {
  type = mmap;
  fullpath = codes "/l";
  addr = 8192;
  baseaddr = 4096;
  buf_id = pos 0;
  curpage = pos 3;
  offset = 0;
  thread_id = pos 7;
}

abbrev records : List BsdtraceRecord
records =
    a_record
    ∷ record a_record { type = executable }
    ∷ record a_record { type = thread_create; fullpath = [] }
    ∷ record a_record { type = buffer; fullpath = [] }
    ∷ record a_record { type = buffer; fullpath = []; curpage = pos 1 }
    ∷ []

slash_l_IsPlain : IsPlainPath (codes "/l")
slash_l_IsPlain = (
  ((omega arith, omega arith, omega arith), ((omega arith, omega arith, omega arith), tt)),
  omega arith,
)

no_path_IsPlain : IsPlainPath []
no_path_IsPlain = (tt, omega arith)

records_IsPlain : All IsPlainRecord records
records_IsPlain = (
  record { path = slash_l_IsPlain; addr = omega arith; baseaddr = omega arith },
  (
    record { path = slash_l_IsPlain; addr = omega arith; baseaddr = omega arith },
    (
      record { path = no_path_IsPlain; addr = omega arith; baseaddr = omega arith },
      (
        record { path = no_path_IsPlain; addr = omega arith; baseaddr = omega arith },
        (record { path = no_path_IsPlain; addr = omega arith; baseaddr = omega arith }, tt),
      ),
    ),
  ),
)

meta_read_sections-process_all_example :
    meta_read_sections
      (λ k. true)
      (sidecar
        (process_all (trace_state_init (opened (pos 1) (pos 2) 3 0)) (λ k. true) records).meta)
    ≡ some
        (process_all (trace_state_init (opened (pos 1) (pos 2) 3 0)) (λ k. true) records).sections
meta_read_sections-process_all_example =
    meta_read_sections-process_all (λ k. true) (λ k. true) (pos 1) (pos 2) 3 0 records (λ k. refl)
      (λ k. refl) records_IsPlain

process_all-buf_wrapped_example :
    ((process_all (trace_state_init none) (λ k. false) records).buf_wrapped ≡ drops (pages records))
    × ((process_all (trace_state_init none) (λ k. false) records).max_buf_page
        ≡ max_page (negsuc 0) (pages records))
process_all-buf_wrapped_example = process_all-buf_wrapped none (λ k. false) records

lib_c_IsPlain : IsPlainPath (codes "/lib/c")
lib_c_IsPlain = (
  (
    (omega arith, omega arith, omega arith),
    (
      (omega arith, omega arith, omega arith),
      (
        (omega arith, omega arith, omega arith),
        (
          (omega arith, omega arith, omega arith),
          ((omega arith, omega arith, omega arith), ((omega arith, omega arith, omega arith), tt)),
        ),
      ),
    ),
  ),
  omega arith,
)

meta_read-process_all_example :
    (meta_read_tid (
        sidecar
          (process_all (trace_state_init (opened (pos 1) (negsuc 1) 3 0)) (λ k. true) records).meta)
      ≡ negsuc 1)
    × (meta_read_mtc_freq (
          sidecar
            (process_all
              (trace_state_init (opened (pos 1) (negsuc 1) 3 0))
              (λ k. true)
              records).meta)
        ≡ 3)
    × (meta_read_cyc_thresh (
          sidecar
            (process_all
              (trace_state_init (opened (pos 1) (negsuc 1) 3 0))
              (λ k. true)
              records).meta)
        ≡ 0)
meta_read-process_all_example =
    meta_read-process_all (pos 1) (negsuc 1) 3 0 (λ k. true) records (omega arith) (omega arith)
      (omega arith) (omega arith) refl

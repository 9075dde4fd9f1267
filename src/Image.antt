-- ===== src/Image.antt =====
-- Sources/bsdtrace/decode.c: build_pt_image(), which gives libipt the executable segments of the
-- traced binaries and loads their symbols, and decode_pt_probe(), which decodes with that image.
pub mod Segments
use observable_bsd.Prelude.{
  ℕ, zero, suc, ◌+◌, Bool, true, false, not, ◌&&◌, ◌||◌, Option, none, some, List, [], ◌∷◌, ◌++◌,
  Bytes, is_empty, ltb, ◌==◌, if◌then◌else◌, length,
}
use observable_bsd.Types.{is_executable, PtImageInfo, sub64, maxpathlen}
use observable_bsd.Sections.{section_should_use}
use observable_bsd.Elf.{is_user_addr, elf_base_vaddr, elf_effective_load_addr}
use observable_bsd.Ranges.{
  Segment, System, elf_get_interp, add_elf_to_image, have_mmap, build_bin_ranges,
}
use observable_bsd.Symbols.{
  SymEntry, SymTable, sym_table_init, Memory, sym_table_add_elf, sym_table_sort,
}
use observable_bsd.Decode.{
  Decoder, DecodeProbeResult, decode_trace, probe_sink, in_exec, collect_exec_binaries,
}

abbrev pub max_bin_ranges : ℕ
max_bin_ranges = 256

-- The image, `total`, and the symbol table.
pub record Build : Type 0 where
  pub image : List Segment
  pub total : ℕ
  pub symbols : SymTable

-- What the allocator answers to the symbols of one ELF file.
abbrev pub FileMemory : Type 0
FileMemory = ℕ → ℕ → ℕ → Memory

module _ (sys : System) where
  -- total += add_elf_to_image(image, path, load_addr)
  add_image : Build → Bytes → ℕ → Build
  add_image b path load_addr =
      let (image, segs) = add_elf_to_image sys b.image path load_addr in
      record b { image = image; total = b.total + segs }

  -- The file is opened again, and its symbols get the slide of the load address.
  add_symbols_of : FileMemory → Build → Bytes → ℕ → Build
  add_symbols_of mem b path load_addr = elim (sys.open_elf path) [
    | none ↦ b
    | some elf ↦ elim (elf_base_vaddr elf) [
      | none ↦ b
      | some base_vaddr ↦ record b {
        symbols = sym_table_add_elf sys mem b.symbols path (sub64 load_addr base_vaddr);
      }
    ]
  ]

  -- The interpreter of an EXECUTABLE section.
  add_interp_image : FileMemory → List PtImageInfo → PtImageInfo → ℕ → Build → Build
  add_interp_image mem sections s load_addr b =
      if is_executable s.type && is_user_addr s.base_addr && not (s.base_addr == load_addr)
      then elim (elf_get_interp sys s.path maxpathlen) [
        | none ↦ b
        | some interp ↦
            if have_mmap sys interp sections
            then b
            else add_symbols_of mem (add_image b interp s.base_addr) interp s.base_addr
      ]
      else b

  -- The body of the loop, for a section to use; `mem` answers for its file, then its interpreter's.
  add_section_image : (ℕ → FileMemory) → List PtImageInfo → PtImageInfo → Build → Build
  unfolding add_image add_symbols_of add_interp_image
  add_section_image mem sections s b = elim (sys.open_elf s.path) [
    | none ↦ b
    | some elf ↦ elim (elf_effective_load_addr elf s.type s.load_addr) [
      | none ↦ b
      | some load_addr ↦
          add_interp_image (mem 1) sections s load_addr
            (add_symbols_of (mem 0) (add_image b s.path load_addr) s.path load_addr)
    ]
  ]

  -- for (i = 0; i < nsections; i++), from index `i` on.
  build_sections : (ℕ → ℕ → FileMemory) → List PtImageInfo → ℕ → List PtImageInfo → Build → Build
  build_sections mem sections i [] b = b
  build_sections mem sections i (s ∷ ss) b =
      build_sections mem sections (i + 1) ss
        (if section_should_use sections i then add_section_image (mem i) sections s b else b)

  -- The image, none where the source returns NULL, and the symbol table. `allocated` is whether
  -- pt_image_alloc() succeeds, and `qsort` is libc's, called by sym_table_sort().
  unfoldable pub build_pt_image :
      (List SymEntry → List SymEntry)
      → Bool
      → (ℕ → ℕ → FileMemory)
      → List PtImageInfo
      → SymTable
      → Option (List Segment) × SymTable
  unfolding add_section_image build_sections
  build_pt_image qsort allocated mem sections st =
      if not sys.elf_ready
      then (none, st)
      else if not allocated
      then (none, st)
      else let b =
          build_sections mem sections 0 sections (record { image = []; total = 0; symbols = st }) in
        (if b.total == 0 then none else some b.image, sym_table_sort qsort b.symbols)

  -- decode_pt_probe(). `start` makes a decoder for an image and a buffer; it is none where
  -- pt_insn_alloc_decoder() or pt_insn_set_image() fails. The inner none is the result code -1; the
  -- outer one says that the fuel of the decode loop did not suffice.
  unfoldable pub decode_pt_probe :
      {D : Type 0}
      → (List SymEntry → List SymEntry)
      → Bool
      → (ℕ → ℕ → FileMemory)
      → Decoder D
      → (List Segment → Bytes → Option D)
      → ℕ
      → Bytes
      → List PtImageInfo
      → Option (Option DecodeProbeResult)
  decode_pt_probe qsort allocated mem dec start fuel buf sections =
      if is_empty buf || is_empty sections
      then some none
      else let (image?, st) = build_pt_image qsort allocated mem sections sym_table_init in
        elim image? [
          | none ↦ some none
          | some image ↦ elim (start image buf) [
            | none ↦ some none
            | some d ↦
                let bins = collect_exec_binaries sections 16 in
                let ranges = build_bin_ranges sys sections max_bin_ranges in
                elim (decode_trace dec (probe_sink (in_exec st ranges bins)) fuel d
                  (record { total = 0; exec_hits = 0 })) [
                    | none ↦ none
                    | some probe ↦ some (if ltb 0 probe.total then some probe else none)
                  ]
          ]
        ]

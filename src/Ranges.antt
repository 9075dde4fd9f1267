-- ===== src/Ranges.antt =====
-- Sources/bsdtrace/elf.c: the executable segments of the recorded binaries, as a pt_image
-- (add_elf_to_image), as address ranges (build_bin_ranges), and the lookup in those ranges.
-- What the system and libipt answer is the record `System`.
pub mod Lookup
pub mod Limit
pub mod Added
use observable_bsd.Prelude.{
  ℕ, zero, suc, ◌+◌, ◌-◌, ◌%◌, Bool, true, false, not, ◌&&◌, ◌||◌, Option, none, some, List, [],
  ◌∷◌, ◌++◌, Bytes, codes, bytes_eq, strlcpy, is_empty, ltb, leb, ◌==◌, if◌then◌else◌, length,
}
use observable_bsd.Types.{RecordType, is_executable, is_mmap, PtImageInfo, add64, sub64, maxpathlen}
use observable_bsd.Sections.{section_should_use}
use observable_bsd.Elf.{
  Phdr, Elf, is_text, is_user_addr, pt_interp, elf_base_vaddr, elf_effective_load_addr,
}

-- struct bin_range
pub record BinRange : Type 0 where
  pub name : Bytes
  pub lo : ℕ
  pub hi : ℕ
  pub base : ℕ

-- The arguments of one pt_image_add_file() call.
pub record Segment : Type 0 where
  pub file : Bytes
  pub offset : ℕ
  pub size : ℕ
  pub vaddr : ℕ

-- What the program calls and the repository does not hold: elf_version(), open() with elf_begin(),
-- strdup() by whether it has memory, basename(), and whether libipt accepts a segment.
pub record System : Type 0 where
  pub elf_ready : Bool
  pub open_elf : Bytes → Option Elf
  pub can_copy : Bytes → Bool
  pub basename : Bytes → Bytes
  pub accepts : Segment → Bool

-- The bytes of a buffer up to its first NUL.
until_nul : Bytes → Bytes
until_nul [] = []
until_nul (c ∷ cs) = let rest = until_nul cs in if c == 0 then [] else c ∷ rest

-- The loop of elf_get_interp(), which ends at the first PT_INTERP header, with or without success.
interp_in : Elf → ℕ → List (Option Phdr) → Option Bytes
interp_in elf interpsz [] = none
interp_in elf interpsz (none ∷ ps) = interp_in elf interpsz ps
interp_in elf interpsz (some p ∷ ps) =
    let rest = interp_in elf interpsz ps in
    if not (p.p_type == pt_interp)
    then rest
    else if p.p_filesz == 0 || leb interpsz p.p_filesz
    then none
    else elim (elf.read_at p.p_offset p.p_filesz) [ none ↦ none | some b ↦ some (until_nul b) ]

module _ (sys : System) where
  unfoldable pub elf_get_interp : Bytes → ℕ → Option Bytes
  unfolding interp_in until_nul
  elf_get_interp path interpsz = if not sys.elf_ready then none else elim (sys.open_elf path) [
    | none ↦ none
    | some elf ↦ elim elf.phdrs [ none ↦ none | some ps ↦ interp_in elf interpsz ps ]
  ]

  -- The loop of add_elf_to_image(): the image's segments, and how many were added.
  add_segments : Bytes → ℕ → List (Option Phdr) → List Segment → ℕ → List Segment × ℕ
  add_segments path slide [] image added = (image, added)
  add_segments path slide (none ∷ ps) image added = add_segments path slide ps image added
  add_segments path slide (some p ∷ ps) image added =
      let seg : Segment = record {
        file = path;
        offset = p.p_offset;
        size = p.p_filesz;
        vaddr = add64 p.p_vaddr slide;
      } in
      let taken = is_text p && sys.accepts seg in
      add_segments path slide ps (if taken then image ++ seg ∷ [] else image)
        (if taken then added + 1 else added)

  unfoldable pub add_elf_to_image : List Segment → Bytes → ℕ → List Segment × ℕ
  unfolding add_segments
  add_elf_to_image image path load_addr =
      if not sys.elf_ready then (image, 0) else elim (sys.open_elf path) [
        | none ↦ (image, 0)
        | some elf ↦ elim (elf_base_vaddr elf) [
          | none ↦ (image, 0)
          | some base_vaddr ↦ elim elf.phdrs [
            | none ↦ (image, 0)
            | some ps ↦ add_segments path (sub64 load_addr base_vaddr) ps image 0
          ]
        ]
      ]

  -- for (k = 0; k < nsections; k++): does the interpreter have an MMAP section?
  unfoldable pub have_mmap : Bytes → List PtImageInfo → Bool
  have_mmap interp [] = false
  have_mmap interp (s ∷ ss) = is_mmap s.type && bytes_eq s.path interp || have_mmap interp ss

  -- The source's loop `for (j = 0; j < phdrnum && nranges < maxranges; j++)`. `copied` is whether
  -- the strdup() of the path in its body succeeds; the loop over an interpreter makes no copy.
  add_ranges : Bytes → Bool → ℕ → ℕ → ℕ → List (Option Phdr) → List BinRange → List BinRange
  add_ranges name copied slide base maxranges [] ranges = ranges
  add_ranges name copied slide base maxranges (none ∷ ps) ranges =
      let rest = add_ranges name copied slide base maxranges ps ranges in
      if ltb (length ranges) maxranges then rest else ranges
  add_ranges name copied slide base maxranges (some p ∷ ps) ranges =
      let r : BinRange = record {
        name = strlcpy name 64;
        lo = add64 p.p_vaddr slide;
        hi = add64 (add64 p.p_vaddr slide) p.p_filesz;
        base = base;
      } in
      let rest =
        add_ranges name copied slide base maxranges ps
          (if is_text p && copied then ranges ++ r ∷ [] else ranges) in
      if ltb (length ranges) maxranges then rest else ranges

  -- The interpreter's segments, mapped at the section's base address.
  add_interp_file : PtImageInfo → Bytes → ℕ → List BinRange → List BinRange
  add_interp_file s interp maxranges ranges = elim (sys.open_elf interp) [
    | none ↦ ranges
    | some elf ↦ elim (elf_base_vaddr elf) [
      | none ↦ ranges
      | some interp_base ↦ elim elf.phdrs [
        | none ↦ ranges
        | some ps ↦
            add_ranges (codes "ld-elf.so.1") true (sub64 s.base_addr interp_base) s.base_addr
              maxranges ps ranges
      ]
    ]
  ]

  add_interp : List PtImageInfo → PtImageInfo → ℕ → ℕ → List BinRange → List BinRange
  add_interp sections s load_addr maxranges ranges =
      if is_executable s.type && is_user_addr s.base_addr && not (s.base_addr == load_addr)
      then elim (elf_get_interp s.path maxpathlen) [
        | none ↦ ranges
        | some interp ↦
            if have_mmap interp sections then ranges else add_interp_file s interp maxranges ranges
      ]
      else ranges

  -- The body of the loop over the sections, once the ELF file is open and its base is known.
  add_section_at : List PtImageInfo → PtImageInfo → Elf → ℕ → ℕ → ℕ → List BinRange → List BinRange
  add_section_at sections s elf base_vaddr load_addr maxranges ranges =
      add_interp sections s load_addr maxranges (elim elf.phdrs [
        | none ↦ ranges
        | some ps ↦
            add_ranges (sys.basename s.path) (sys.can_copy s.path) (sub64 load_addr base_vaddr)
              load_addr maxranges ps ranges
      ])

  add_section : List PtImageInfo → PtImageInfo → ℕ → List BinRange → List BinRange
  add_section sections s maxranges ranges = elim (sys.open_elf s.path) [
    | none ↦ ranges
    | some elf ↦ elim (elf_base_vaddr elf) [
      | none ↦ ranges
      | some base_vaddr ↦ elim (elf_effective_load_addr elf s.type s.load_addr) [
        | none ↦ ranges
        | some load_addr ↦ add_section_at sections s elf base_vaddr load_addr maxranges ranges
      ]
    ]
  ]

  -- for (i = 0; i < nsections && nranges < maxranges; i++), from index `i` on.
  build_from : List PtImageInfo → ℕ → List PtImageInfo → ℕ → List BinRange → List BinRange
  build_from sections i [] maxranges ranges = ranges
  build_from sections i (s ∷ ss) maxranges ranges =
      let rest = build_from sections (i + 1) ss maxranges (
        if section_should_use sections i
        then add_section sections s maxranges ranges
        else ranges) in
      if ltb (length ranges) maxranges then rest else ranges

  unfoldable pub build_bin_ranges : List PtImageInfo → ℕ → List BinRange
  unfolding elf_get_interp have_mmap add_ranges add_interp_file add_interp add_section_at
      add_section build_from
  build_bin_ranges sections maxranges =
      if not sys.elf_ready then [] else build_from sections 0 sections maxranges []

-- The binary's name, and the offset into the range.
unfoldable pub find_binary_for_ip : List BinRange → ℕ → Option (Bytes × ℕ)
find_binary_for_ip [] ip = none
find_binary_for_ip (r ∷ rs) ip =
    if leb r.lo ip && ltb ip r.hi then some (r.name, sub64 ip r.lo) else find_binary_for_ip rs ip

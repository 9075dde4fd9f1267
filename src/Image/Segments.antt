-- ===== src/Image/Segments.antt =====
-- The image that build_pt_image() returns is never empty.
use observable_bsd.Prelude.{
  ℕ, ◌+◌, ◌≡◌, ◌≤◌, refl, inl, inr, Bool, not, ◌&&◌, some, List, [], ◌∷◌, Bytes, ◌==◌, length,
  arith, Bool-cases, Option-cases,
}
use observable_bsd.Types.{PtImageInfo, is_executable, maxpathlen}
use observable_bsd.Sections.{section_should_use}
use observable_bsd.Elf.{is_user_addr, elf_effective_load_addr}
use observable_bsd.Ranges.{Segment, System, elf_get_interp, have_mmap}
use observable_bsd.Ranges.Added.{add_elf_to_image-length}
use observable_bsd.Symbols.{SymEntry, SymTable}
use observable_bsd.Image.{
  Build, FileMemory, add_image, add_symbols_of, add_interp_image, add_section_image, build_sections,
  build_pt_image,
}

-- `total` is the number of segments of the image.
abbrev IsCounted : Build → Type 0
IsCounted b = b.total ≡ length b.image

module _ (sys : System) where
  add_image-IsCounted :
      (b : Build) (path : Bytes) (load_addr : ℕ)
      → IsCounted b
      → IsCounted (add_image sys b path load_addr)
  unfolding add_image
  add_image-IsCounted b path load_addr h =
      let l = add_elf_to_image-length sys b.image path load_addr in omega arith

  add_symbols_of-IsCounted :
      (mem : FileMemory) (b : Build) (path : Bytes) (load_addr : ℕ)
      → IsCounted b
      → IsCounted (add_symbols_of sys mem b path load_addr)
  unfolding add_symbols_of
  add_symbols_of-IsCounted mem b path load_addr h = ground arith

  add_interp_image-IsCounted :
      (mem : FileMemory) (sections : List PtImageInfo) (s : PtImageInfo) (load_addr : ℕ) (b : Build)
      → IsCounted b
      → IsCounted (add_interp_image sys mem sections s load_addr b)
  unfolding add_interp_image
  add_interp_image-IsCounted mem sections s load_addr b h =
      elim (Bool-cases
        (is_executable s.type && is_user_addr s.base_addr && not (s.base_addr == load_addr))) [
          | inr unused ↦ rw unused h
          | inl used ↦ elim (Option-cases (elf_get_interp sys s.path maxpathlen)) [
            | inl none_at ↦ rw (used, none_at) h
            | inr (interp, at) ↦ elim (Bool-cases (have_mmap sys interp sections)) [
              | inl m ↦ rw (used, at, m) h
              | inr m ↦
                  rw (used, at, m)
                    (add_symbols_of-IsCounted mem _ interp s.base_addr
                      (add_image-IsCounted b interp s.base_addr h))
            ]
          ]
        ]

  add_section_image-IsCounted :
      (mem : ℕ → FileMemory) (sections : List PtImageInfo) (s : PtImageInfo) (b : Build)
      → IsCounted b
      → IsCounted (add_section_image sys mem sections s b)
  unfolding add_section_image
  add_section_image-IsCounted mem sections s b h = elim (Option-cases (sys.open_elf s.path)) [
    | inl e ↦ rw (add_section_image, e) h
    | inr (elf, e) ↦ elim (Option-cases (elf_effective_load_addr elf s.type s.load_addr)) [
      | inl l ↦ rw (add_section_image, e, l) h
      | inr (load_addr, l) ↦
          rw (add_section_image, e, l)
            (add_interp_image-IsCounted (mem 1) sections s load_addr _ (
              add_symbols_of-IsCounted (mem 0) _ s.path load_addr
                (add_image-IsCounted b s.path load_addr h)))
    ]
  ]

  build_sections-IsCounted :
      (mem : ℕ → ℕ → FileMemory) (sections : List PtImageInfo) (i : ℕ) (ss : List PtImageInfo)
      (b : Build)
      → IsCounted b
      → IsCounted (build_sections sys mem sections i ss b)
  unfolding build_sections
  build_sections-IsCounted mem sections i [] b h = h
  build_sections-IsCounted mem sections i (s ∷ ss) b h =
      build_sections-IsCounted mem sections (i + 1) ss _
        (elim (Bool-cases (section_should_use sections i)) [
          | inl e ↦ rw e (add_section_image-IsCounted (mem i) sections s b h)
          | inr e ↦ rw e h
        ])

  -- Whatever the files hold and the allocators answer: an image that build_pt_image() returns has
  -- at least one segment.
  pub build_pt_image-image :
      (qsort : List SymEntry → List SymEntry) (allocated : Bool) (mem : ℕ → ℕ → FileMemory)
      (sections : List PtImageInfo) (st : SymTable) (image : List Segment)
      → (build_pt_image sys qsort allocated mem sections st).0 ≡ some image
      → 1 ≤ length image
  unfolding build_pt_image
  build_pt_image-image qsort allocated mem sections st image h =
      let c =
        build_sections-IsCounted mem sections 0 sections
          (record { image = []; total = 0; symbols = st }) refl in
      ground arith

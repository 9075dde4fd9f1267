-- ===== src/Ranges/Added.antt =====
-- What add_elf_to_image() returns is the number of segments that it adds.
use observable_bsd.Prelude.{
  ℕ, ◌+◌, ◌≡◌, inl, inr, ◌&&◌, Option, none, some, List, [], ◌∷◌, ◌++◌, Bytes, length,
  length-append, arith, Bool-cases, Option-cases,
}
use observable_bsd.Types.{sub64, add64}
use observable_bsd.Elf.{Phdr, is_text, elf_base_vaddr}
use observable_bsd.Ranges.{Segment, System, add_segments, add_elf_to_image}

module _ (sys : System) where
  add_segments-length :
      (path : Bytes) (slide : ℕ) (ps : List (Option Phdr)) (image : List Segment) (added : ℕ)
      → length (add_segments sys path slide ps image added).0 + added
        ≡ length image + (add_segments sys path slide ps image added).1
  unfolding add_segments
  add_segments-length path slide [] image added = omega arith
  add_segments-length path slide (none ∷ ps) image added =
      add_segments-length path slide ps image added
  add_segments-length path slide (some p ∷ ps) image added =
      let seg : Segment = record {
        file = path;
        offset = p.p_offset;
        size = p.p_filesz;
        vaddr = add64 p.p_vaddr slide;
      } in
      elim (Bool-cases (is_text p && sys.accepts seg)) [
        | inl e ↦
            let h = add_segments-length path slide ps (image ++ seg ∷ []) (added + 1) in
            let l = length-append image (seg ∷ []) in rw (add_segments, e) (omega arith)
        | inr e ↦ rw (add_segments, e) (add_segments-length path slide ps image added)
      ]

  pub add_elf_to_image-length :
      (image : List Segment) (path : Bytes) (load_addr : ℕ)
      → length (add_elf_to_image sys image path load_addr).0
        ≡ length image + (add_elf_to_image sys image path load_addr).1
  unfolding add_elf_to_image
  add_elf_to_image-length image path load_addr = elim (Bool-cases sys.elf_ready) [
    | inr r ↦ rw r (omega arith)
    | inl r ↦ elim (Option-cases (sys.open_elf path)) [
      | inl e ↦ rw (r, e) (omega arith)
      | inr (elf, e) ↦ elim (Option-cases (elf_base_vaddr elf)) [
        | inl b ↦ rw (r, e, b) (omega arith)
        | inr (base, b) ↦ elim (Option-cases elf.phdrs) [
          | inl p ↦ rw (r, e, b, p) (omega arith)
          | inr (ps, p) ↦
              let h = add_segments-length path (sub64 load_addr base) ps image 0 in
              rw (r, e, b, p) (omega arith)
        ]
      ]
    ]
  ]

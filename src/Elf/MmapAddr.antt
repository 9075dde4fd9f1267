-- ===== src/Elf/MmapAddr.antt =====
-- Where an MMAP record puts an executable: elf_effective_load_addr(), every branch.
use mathlib.Core.Option.{some-injective}
use observable_bsd.Prelude.{
  ◌≢◌, ◌-◌, ltb, Option-cases, ℕ, ◌<◌, ◌≤◌, ◌≡◌, inl, inr, false, Option, none, some, List, [], ◌∷◌,
  ◌==◌, arith, Bool-cases,
}
use observable_bsd.Types.{mmap, add64, sub64, trunc_page, u64}
use observable_bsd.Elf.{
  Phdr, Elf, elf_base_vaddr, elf_exec_map_vaddr, elf_effective_load_addr, first_load,
  load_addr_by_type,
}
use observable_bsd.Elf.LoadAddr.{TextIn, elf_exec_map_vaddr-none, elf_exec_map_vaddr_lowest}

-- The first segment of type PT_LOAD.
pub data FirstLoad (p : Phdr) : List (Option Phdr) → Type 0 where
  first : {ps : List (Option Phdr)} → p.p_type ≡ 1 → FirstLoad p (some p ∷ ps)
  unread : {ps : List (Option Phdr)} → FirstLoad p ps → FirstLoad p (none ∷ ps)
  later :
      {q : Phdr} {ps : List (Option Phdr)}
      → q.p_type ≢ 1
      → FirstLoad p ps
      → FirstLoad p (some q ∷ ps)

first_load-FirstLoad :
    (ps : List (Option Phdr)) (base : ℕ)
    → first_load ps ≡ some base
    → (p : Phdr) × FirstLoad p ps × (p.p_vaddr ≡ base)
unfolding first_load
first_load-FirstLoad [] base e = absurd (ground arith)
first_load-FirstLoad (none ∷ ps) base e =
    let (p, f, q) = first_load-FirstLoad ps base e in (p, unread f, q)
first_load-FirstLoad (some q ∷ ps) base e = elim (Bool-cases (q.p_type == 1)) [
  | inl t ↦ (q, first (ground arith), some-injective q.p_vaddr base (rw t at e))
  | inr t ↦
      let (p, f, v) = first_load-FirstLoad ps base (rw t at e) in (p, later (ground arith) f, v)
]

no_first : (p : Phdr) (ps : List (Option Phdr)) → first_load ps ≡ none → FirstLoad p ps → ⊥
unfolding first_load
no_first p _ e (first {ps = ps} t) = ground (arith, e, t)
no_first p _ e (unread {ps = ps} f) = no_first p ps e f
no_first p _ e (later {q = q} {ps = ps} n f) =
    let t : (q.p_type == 1) ≡ false = ground (arith, n) in no_first p ps (rw t at e) f

-- The lowest page on which a segment with executable contents begins, and such a segment.
pub record IsLowest (ps : List (Option Phdr)) (text : Phdr) : Type 0 where
  pub is_in : TextIn text ps
  pub is_lowest : (q : Phdr) → TextIn q ps → trunc_page text.p_vaddr ≤ trunc_page q.p_vaddr

-- The load address for an MMAP record at `addr`: none where the file has no PT_LOAD segment, no
-- segment with executable contents, or all of these above `addr`; otherwise the 64-bit address whose
-- distance from the first PT_LOAD segment carries the lowest executable page to `addr`, modulo 2^64.
pub data MmapAnswer (ps : List (Option Phdr)) (addr : ℕ) : Option ℕ → Type 0 where
  no_load : ((p : Phdr) → FirstLoad p ps → ⊥) → MmapAnswer ps addr none
  no_text : ((p : Phdr) → TextIn p ps → ⊥) → MmapAnswer ps addr none
  too_low :
      (text : Phdr) → IsLowest ps text → addr < trunc_page text.p_vaddr → MmapAnswer ps addr none
  loaded :
      (base text : Phdr) (load : ℕ)
      → FirstLoad base ps
      → IsLowest ps text
      → trunc_page text.p_vaddr ≤ addr
      → load < u64
      → add64 (trunc_page text.p_vaddr) (sub64 load base.p_vaddr) ≡ addr
      → MmapAnswer ps addr (some load)

from_base :
    (elf : Elf) (ps : List (Option Phdr)) (addr base : ℕ)
    → elf.phdrs ≡ some ps
    → addr < u64
    → ((p : Phdr) → FirstLoad p ps → p.p_vaddr < u64)
    → (p : Phdr) × FirstLoad p ps × (p.p_vaddr ≡ base)
    → MmapAnswer ps addr (load_addr_by_type mmap elf base addr)
unfolding load_addr_by_type
from_base elf ps addr base e h small (p, f, q) =
    let s = small p f in
    elim (Option-cases (elf_exec_map_vaddr elf)) [
      | inl m ↦ rw (load_addr_by_type, m) (no_text (elf_exec_map_vaddr-none elf ps e m))
      | inr (v, m) ↦
          let ((text, t, w), lowest) = elf_exec_map_vaddr_lowest elf ps v e m in
          let least : IsLowest ps text = record {
            is_in = t;
            is_lowest = λ r i. let l = lowest r i in omega arith;
          } in
          elim (Bool-cases (ltb addr v)) [
            | inl l ↦ rw (load_addr_by_type, m, l) (too_low text least (ground arith))
            | inr l ↦
                rw (load_addr_by_type, m, l)
                  (loaded p text (add64 base (addr - v)) f least (ground arith) (omega arith)
                    (ground arith))
          ]
    ]

-- The load address of an MMAP record at a 64-bit address, of a file whose program headers can be read
-- and whose first PT_LOAD segment has a 64-bit address, is none where the file has no such segment,
-- no segment with executable contents, or none at or below the address; otherwise it is the 64-bit
-- address that gives a slide, against the first PT_LOAD segment, by which the lowest page of a segment
-- with executable contents comes to the recorded address, modulo 2^64.
pub elf_effective_load_addr-MmapAnswer :
    (elf : Elf) (ps : List (Option Phdr)) (addr : ℕ)
    → elf.phdrs ≡ some ps
    → ((p : Phdr) → FirstLoad p ps → p.p_vaddr < u64)
    → addr < u64
    → MmapAnswer ps addr (elf_effective_load_addr elf mmap addr)
unfolding elf_effective_load_addr elf_base_vaddr
elf_effective_load_addr-MmapAnswer elf ps addr e small h = elim (Option-cases (first_load ps)) [
  | inl b ↦ rw (elf_effective_load_addr, elf_base_vaddr, e, b) (no_load (λ p. no_first p ps b))
  | inr (base, b) ↦
      rw (elf_effective_load_addr, elf_base_vaddr, e, b)
        (from_base elf ps addr base e h small (first_load-FirstLoad ps base b))
]

-- ===== src/Elf/LoadAddr.antt =====
-- Where a mapped executable was loaded: elf_exec_map_vaddr() and elf_effective_load_addr().
use Prim.Native.Nat.{bit_and}
use mathlib.Core.Path.{subst}
use observable_bsd.Prelude.{
  ◌≢◌, ℕ, ◌<◌, ◌≤◌, ◌≡◌, ◌⊎◌, inl, inr, true, false, Option, none, some, List, [], ◌∷◌, ◌==◌,
  if◌then◌else◌, arith, Bool-cases,
}
use observable_bsd.Types.{executable, sub64, trunc_page, u64}
use observable_bsd.Elf.{
  Phdr, Elf, is_text, lower, lowest_text, elf_base_vaddr, elf_exec_map_vaddr,
  elf_effective_load_addr,
}

-- PT_LOAD with PF_X and contents in the file.
abbrev pub IsText : Phdr → Type 0
IsText p = (p.p_type ≡ 1) × (bit_and p.p_flags 1 ≢ 0) × (p.p_filesz ≢ 0)

IsText-is_text : (p : Phdr) → IsText p → is_text p ≡ true
IsText-is_text p (a, b, c) = ground arith

is_text-IsText : (p : Phdr) → is_text p ≡ true → IsText p
is_text-IsText p h = (ground arith, ground arith, ground arith)

-- A segment of the file's program headers with executable contents.
pub data TextIn (p : Phdr) : List (Option Phdr) → Type 0 where
  here : {ps : List (Option Phdr)} → IsText p → TextIn p (some p ∷ ps)
  there : {o : Option Phdr} {ps : List (Option Phdr)} → TextIn p ps → TextIn p (o ∷ ps)

-- What the running minimum bounds: `b` has been seen or is the result, whichever is lower.
AtMost : Option ℕ → ℕ → Type 0
AtMost none v = ⊥
AtMost (some b) v = b ≤ v

lowest_text-AtMost :
    (ps : List (Option Phdr)) (best : Option ℕ) (v : ℕ)
    → AtMost best v
    → AtMost (lowest_text ps best) v
unfolding lowest_text lower AtMost
lowest_text-AtMost [] best v h = h
lowest_text-AtMost (none ∷ ps) best v h = lowest_text-AtMost ps best v h
lowest_text-AtMost (some p ∷ ps) none v h = absurd h
lowest_text-AtMost (some p ∷ ps) (some b) v h =
    lowest_text-AtMost ps (if is_text p then lower (some b) (trunc_page p.p_vaddr) else some b) v
      (ground arith)

lowest_text-TextIn :
    (p : Phdr) {ps : List (Option Phdr)} (best : Option ℕ)
    → TextIn p ps
    → AtMost (lowest_text ps best) (trunc_page p.p_vaddr)
unfolding lowest_text lower AtMost
lowest_text-TextIn p best (here {ps = ps} t) =
    rw (IsText-is_text p t)
      (lowest_text-AtMost ps (lower best (trunc_page p.p_vaddr)) (trunc_page p.p_vaddr) (new best))
  where
    new : (b : Option ℕ) → AtMost (lower b (trunc_page p.p_vaddr)) (trunc_page p.p_vaddr)
    new none = omega arith
    new (some b) = ground arith
lowest_text-TextIn p best (there {o = none} t) = lowest_text-TextIn p best t
lowest_text-TextIn p best (there {o = some q} t) =
    lowest_text-TextIn p (if is_text q then lower best (trunc_page q.p_vaddr) else best) t

lowest_text-attained :
    (ps : List (Option Phdr)) (best : Option ℕ) (v : ℕ)
    → lowest_text ps best ≡ some v
    → (best ≡ some v) ⊎ ((p : Phdr) × TextIn p ps × (trunc_page p.p_vaddr ≡ v))
unfolding lowest_text lower
lowest_text-attained [] best v h = inl h
lowest_text-attained (none ∷ ps) best v h = elim (lowest_text-attained ps best v h) [
  | inl e ↦ inl e
  | inr (p, t, e) ↦ inr (p, there t, e)
]
lowest_text-attained (some q ∷ ps) best v h =
    elim (lowest_text-attained ps (if is_text q then lower best (trunc_page q.p_vaddr) else best) v
      h) [ inl e ↦ now best e | inr (p, t, e) ↦ inr (p, there t, e) ]
  where
    now :
        (b : Option ℕ)
        → (if is_text q then lower b (trunc_page q.p_vaddr) else b) ≡ some v
        → (b ≡ some v) ⊎ ((p : Phdr) × TextIn p (some q ∷ ps) × (trunc_page p.p_vaddr ≡ v))
    now b e = elim (Bool-cases (is_text q)) [
      | inl t ↦ elim (Bool-cases (trunc_page q.p_vaddr == v)) [
        | inl s ↦ inr (q, here (is_text-IsText q t), ground arith)
        | inr o ↦ inl (other b t o e)
      ]
      | inr t ↦ inl (ground arith)
    ]
      where
        other :
            (b : Option ℕ)
            → is_text q ≡ true
            → (trunc_page q.p_vaddr == v) ≡ false
            → (if is_text q then lower b (trunc_page q.p_vaddr) else b) ≡ some v
            → b ≡ some v
        other none t o e = ground arith
        other (some c) t o e = ground arith

-- elf_exec_map_vaddr() returns the page of some executable segment, and no executable segment of
-- the file begins on a lower page.
pub elf_exec_map_vaddr_lowest :
    (elf : Elf) (ps : List (Option Phdr)) (v : ℕ)
    → elf.phdrs ≡ some ps
    → elf_exec_map_vaddr elf ≡ some v
    → ((p : Phdr) × TextIn p ps × (trunc_page p.p_vaddr ≡ v))
      × ((p : Phdr) → TextIn p ps → v ≤ trunc_page p.p_vaddr)
unfolding elf_exec_map_vaddr AtMost
elf_exec_map_vaddr_lowest elf ps v e h =
    let found : lowest_text ps none ≡ some v = ground arith in
    (
      attained (lowest_text-attained ps none v found),
      λ p t. bound p found (lowest_text-TextIn p none t),
    )
  where
    attained :
        ((none ≡ some v) ⊎ ((p : Phdr) × TextIn p ps × (trunc_page p.p_vaddr ≡ v)))
        → (p : Phdr) × TextIn p ps × (trunc_page p.p_vaddr ≡ v)
    attained (inl no_best) = absurd (ground arith)
    attained (inr w) = w

    bound :
        (p : Phdr)
        → lowest_text ps none ≡ some v
        → AtMost (lowest_text ps none) (trunc_page p.p_vaddr)
        → v ≤ trunc_page p.p_vaddr
    bound p f a = subst (λ o. AtMost o (trunc_page p.p_vaddr)) f a

-- Where it returns nothing, the file has no executable segment.
pub elf_exec_map_vaddr-none :
    (elf : Elf) (ps : List (Option Phdr))
    → elf.phdrs ≡ some ps
    → elf_exec_map_vaddr elf ≡ none
    → (p : Phdr) → TextIn p ps
    → ⊥
unfolding elf_exec_map_vaddr AtMost
elf_exec_map_vaddr-none elf ps e h p t =
    let none_found : lowest_text ps none ≡ none = rw (elf_exec_map_vaddr, e) at h in
    subst (λ o. AtMost o (trunc_page p.p_vaddr)) none_found (lowest_text-TextIn p none t)

-- For an EXEC record the slide is the recorded address itself.
pub elf_effective_load_addr_exec :
    (elf : Elf) (record_addr base load : ℕ)
    → elf_base_vaddr elf ≡ some base
    → base < u64
    → record_addr < u64
    → elf_effective_load_addr elf executable record_addr ≡ some load
    → sub64 load base ≡ record_addr
unfolding elf_effective_load_addr
elf_effective_load_addr_exec elf record_addr base load b hb hr h = ground arith

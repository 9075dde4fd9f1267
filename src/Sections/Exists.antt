-- ===== src/Sections/Exists.antt =====
-- For every path that an executable or a mapping gave, a decode uses one of its sections.
use observable_bsd.Prelude.{
  ℕ, zero, suc, ◌+◌, ◌<◌, ◌≤◌, ◌≡◌, refl, ◌⊎◌, inl, inr, true, false, not, ◌&&◌, some, List, [],
  ◌∷◌, Bytes, is_empty, get_elem?, ltb, arith, Bool-cases, bytes_eq_iff,
}
use mathlib.Core.Path.{subst}
use mathlib.Core.Option.{some-injective}
use observable_bsd.Types.{PtImageInfo}
use observable_bsd.Sections.{
  is_exec_of, is_mmap_of, exec_before, has_exec, displaces, displaced, section_should_use,
}
use observable_bsd.Sections.Unique.{is_image, has_exec_complete}

-- The section of a path that a decode uses.
abbrev pub Chosen : List PtImageInfo → Bytes → Type 0
Chosen sections path =
    (j : ℕ) × (t : PtImageInfo) × (get_elem? sections j ≡ some t)
    × (t.path ≡ path)
    × (is_image t ≡ true)
    × (section_should_use sections j ≡ true)

first_exec :
    (path : Bytes) (xs : List PtImageInfo)
    → has_exec path xs ≡ true
    → (j : ℕ) × (t : PtImageInfo) × (get_elem? xs j ≡ some t)
      × (is_exec_of path t ≡ true)
      × (exec_before path j xs ≡ false)
unfolding has_exec exec_before
first_exec path [] h = absurd (ground arith)
first_exec path (x ∷ xs) h = elim (Bool-cases (is_exec_of path x)) [
  | inl here ↦ (0, x, refl, here, refl)
  | inr later ↦
      let (j, t, e, is, before) = first_exec path xs (ground arith) in
      (suc j, t, e, is, ground arith)
]

-- The order on (address, index) by which one MMAP of a path displaces another.
Before : ℕ → PtImageInfo → ℕ → PtImageInfo → Type 0
Before i s j t = (s.load_addr < t.load_addr) ⊎ ((s.load_addr ≡ t.load_addr) × (i ≤ j))

-- From index `k` on: the first of the lowest MMAPs of the path, or there is none.
Lowest : Bytes → ℕ → List PtImageInfo → Type 0
Lowest path k xs =
    (j : ℕ) × (t : PtImageInfo) × (get_elem? xs j ≡ some t)
    × (is_mmap_of path t ≡ true)
    × ((i : ℕ) (s : PtImageInfo)
        → get_elem? xs i ≡ some s
        → is_mmap_of path s ≡ true
        → Before (k + j) t (k + i) s)

NoMmap : Bytes → List PtImageInfo → Type 0
NoMmap path xs = (i : ℕ) (s : PtImageInfo) → get_elem? xs i ≡ some s → is_mmap_of path s ≡ false

cons_all :
    (P : ℕ → PtImageInfo → Type 0) (x : PtImageInfo) (xs : List PtImageInfo)
    → P 0 x
    → ((i : ℕ) (s : PtImageInfo) → get_elem? xs i ≡ some s → P (suc i) s)
    → (i : ℕ) (s : PtImageInfo) → get_elem? (x ∷ xs) i ≡ some s
    → P i s
cons_all P x xs p h zero s e = subst (P 0) (some-injective x s e) p
cons_all P x xs p h (suc i) s e = h i s e

Lowest-cons :
    (path : Bytes) (k : ℕ) (x : PtImageInfo) (xs : List PtImageInfo)
    → NoMmap path xs ⊎ Lowest path (k + 1) xs
    → NoMmap path (x ∷ xs) ⊎ Lowest path k (x ∷ xs)
unfolding Lowest NoMmap Before
Lowest-cons path k x xs (inl h) = elim (Bool-cases (is_mmap_of path x)) [
  | inl here ↦ inr (
    0,
    x,
    refl,
    here,
    cons_all (λ i s. is_mmap_of path s ≡ true → Before (k + 0) x (k + i) s) x xs
        (λ is. ground arith) (λ i s e is. ground (arith, h i s e)),
  )
  | inr other ↦ inl (cons_all (λ i s. is_mmap_of path s ≡ false) x xs other h)
]
Lowest-cons path k x xs (inr (j, t, e, is, least)) =
    elim (Bool-cases (is_mmap_of path x && not (ltb t.load_addr x.load_addr))) [
      | inl here ↦ inr (
        0,
        x,
        refl,
        ground arith,
        cons_all (λ i s. is_mmap_of path s ≡ true → Before (k + 0) x (k + i) s) x xs
            (λ is'. ground arith) (λ i s e' is'. ground (arith, least i s e')),
      )
      | inr other ↦ inr (
        suc j,
        t,
        e,
        is,
        cons_all (λ i s. is_mmap_of path s ≡ true → Before (k + suc j) t (k + i) s) x xs
            (λ is'. ground arith) (λ i s e' is'. ground (arith, least i s e')),
      )
    ]

lowest : (path : Bytes) (k : ℕ) (xs : List PtImageInfo) → NoMmap path xs ⊎ Lowest path k xs
unfolding NoMmap
lowest path k [] = inl (λ i s e. ground arith)
lowest path k (x ∷ xs) = Lowest-cons path k x xs (lowest path (k + 1) xs)

displaced_sound :
    (sec : PtImageInfo) (idx k : ℕ) (xs : List PtImageInfo)
    → displaced sec idx k xs ≡ true
    → (i : ℕ) × (s : PtImageInfo) × (get_elem? xs i ≡ some s) × (displaces sec idx (k + i) s ≡ true)
unfolding displaced
displaced_sound sec idx k [] h = absurd (ground arith)
displaced_sound sec idx k (x ∷ xs) h = elim (Bool-cases (displaces sec idx k x)) [
  | inl here ↦ (0, x, refl, let z : k + 0 ≡ k = omega arith in ground arith)
  | inr later ↦
      let (i, s, e, d) = displaced_sound sec idx (k + 1) xs (ground arith) in
      (suc i, s, e, let z : (k + 1) + i ≡ k + suc i = omega arith in ground arith)
]

module _ (sections : List PtImageInfo) (path : Bytes) (named : is_empty path ≡ false) where
  choose_exec : has_exec path sections ≡ true → Chosen sections path
  unfolding section_should_use
  choose_exec h =
      let (j, t, e, is, before) = first_exec path sections h in
      let same : t.path ≡ path = (bytes_eq_iff t.path path).0 (ground arith) in
      (j, t, e, same, ground arith, ground arith)

  lowest_kept :
      (j : ℕ) (t : PtImageInfo)
      → t.path ≡ path
      → ((i : ℕ) (s : PtImageInfo)
          → get_elem? sections i ≡ some s
          → is_mmap_of path s ≡ true
          → Before (0 + j) t (0 + i) s)
      → displaced t j 0 sections ≡ true
      → ⊥
  unfolding Before displaces
  lowest_kept j t same least d =
      let (i, s, e, b) = displaced_sound t j 0 sections d in ground (arith, least i s e)

  choose_mmap : has_exec path sections ≡ false → Lowest path 0 sections → Chosen sections path
  unfolding section_should_use Lowest
  choose_mmap h (j, t, e, is, least) =
      let same : t.path ≡ path = (bytes_eq_iff t.path path).0 (ground arith) in
      (j, t, e, same, ground arith, ground (arith, lowest_kept j t same least))

  no_section :
      (i : ℕ) (s : PtImageInfo)
      → get_elem? sections i ≡ some s
      → s.path ≡ path
      → is_image s ≡ true
      → has_exec path sections ≡ false
      → NoMmap path sections
      → ⊥
  unfolding NoMmap
  no_section i s e p im h n =
      ground (arith, n i s e, has_exec_complete path sections i s e, bytes_eq_iff s.path path)

  -- Of every path that some executable or mapping has, which is not empty, one section is used.
  pub section_should_use_exists :
      (i : ℕ) (s : PtImageInfo)
      → get_elem? sections i ≡ some s
      → s.path ≡ path
      → is_image s ≡ true
      → Chosen sections path
  section_should_use_exists i s e p im = elim (Bool-cases (has_exec path sections)) [
    | inl h ↦ choose_exec h
    | inr h ↦ elim (lowest path 0 sections) [
      | inr l ↦ choose_mmap h l
      | inl n ↦ absurd (no_section i s e p im h n)
    ]
  ]

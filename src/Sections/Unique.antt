-- ===== src/Sections/Unique.antt =====
-- Which section of a path a decode uses: never two, and one whenever the path was recorded.
use observable_bsd.Prelude.{
  ℕ, zero, suc, ◌+◌, ◌<◌, ◌≡◌, Bool, true, ◌||◌, some, List, [], ◌∷◌, Bytes, get_elem?, arith,
  bytes_eq_iff,
}
use observable_bsd.Types.{executable, mmap, is_executable, is_mmap, PtImageInfo}
use observable_bsd.Sections.{
  is_exec_of, exec_before, has_exec, displaces, displaced, section_should_use,
}

-- An EXEC section at an index below `n` is found by the loop that looks below `n`.
exec_before_complete :
    (path : Bytes) (n : ℕ) (xs : List PtImageInfo) (i : ℕ) (s : PtImageInfo)
    → get_elem? xs i ≡ some s
    → i < n
    → is_exec_of path s ≡ true
    → exec_before path n xs ≡ true
unfolding exec_before
exec_before_complete path zero xs i s e h t = absurd (omega arith)
exec_before_complete path (suc n) [] i s e h t = ground arith
exec_before_complete path (suc n) (x ∷ xs) zero s e h t = ground arith
exec_before_complete path (suc n) (x ∷ xs) (suc i) s e h t =
    ground (arith, exec_before_complete path n xs i s)

pub has_exec_complete :
    (path : Bytes) (xs : List PtImageInfo) (i : ℕ) (s : PtImageInfo)
    → get_elem? xs i ≡ some s
    → is_exec_of path s ≡ true
    → has_exec path xs ≡ true
unfolding has_exec
has_exec_complete path [] i s e t = ground arith
has_exec_complete path (x ∷ xs) zero s e t = ground arith
has_exec_complete path (x ∷ xs) (suc i) s e t = ground (arith, has_exec_complete path xs i s)

displaced_complete :
    (sec : PtImageInfo) (idx k : ℕ) (xs : List PtImageInfo) (i : ℕ) (s : PtImageInfo)
    → get_elem? xs i ≡ some s
    → displaces sec idx (k + i) s ≡ true
    → displaced sec idx k xs ≡ true
unfolding displaced
displaced_complete sec idx k [] i s e t = ground arith
displaced_complete sec idx k (x ∷ xs) zero s e t = let z : k + 0 ≡ k = omega arith in ground arith
displaced_complete sec idx k (x ∷ xs) (suc i) s e t =
    let z : k + suc i ≡ (k + 1) + i = omega arith in
    ground (arith, displaced_complete sec idx (k + 1) xs i s)

-- The two kinds of section for which a path is used once: what an executable or a mapping gave.
abbrev pub is_image : PtImageInfo → Bool
is_image s = is_executable s.type || is_mmap s.type

module _ (sections : List PtImageInfo) where
  exec_first :
      (i j : ℕ) (s t : PtImageInfo)
      → get_elem? sections i ≡ some s
      → get_elem? sections j ≡ some t
      → s.path ≡ t.path
      → s.type ≡ executable
      → i < j
      → section_should_use sections j ≡ true
      → is_image t ≡ true
      → ⊥
  unfolding section_should_use
  exec_first i j s t p q e x l used im = ground (
    arith,
    bytes_eq_iff s.path t.path,
    exec_before_complete t.path j sections i s,
    has_exec_complete t.path sections i s,
  )

  exec_only :
      (i j : ℕ) (s t : PtImageInfo)
      → get_elem? sections i ≡ some s
      → get_elem? sections j ≡ some t
      → s.path ≡ t.path
      → s.type ≡ executable
      → t.type ≡ mmap
      → section_should_use sections j ≡ true
      → ⊥
  unfolding section_should_use
  exec_only i j s t p q e x y used =
      ground (arith, bytes_eq_iff s.path t.path, has_exec_complete t.path sections i s)

  mmap_order :
      (i j : ℕ) (s t : PtImageInfo)
      → get_elem? sections i ≡ some s
      → get_elem? sections j ≡ some t
      → s.path ≡ t.path
      → s.type ≡ mmap
      → t.type ≡ mmap
      → i < j
      → section_should_use sections i ≡ true
      → section_should_use sections j ≡ true
      → ⊥
  unfolding section_should_use displaces
  mmap_order i j s t p q e x y l used used' =
      let a : 0 + i ≡ i = omega arith in
      let b : 0 + j ≡ j = omega arith in
      ground (
        arith,
        bytes_eq_iff s.path t.path,
        bytes_eq_iff t.path s.path,
        displaced_complete s i 0 sections j t,
        displaced_complete t j 0 sections i s,
      )

  later_unused :
      (i j : ℕ) (s t : PtImageInfo)
      → get_elem? sections i ≡ some s
      → get_elem? sections j ≡ some t
      → s.path ≡ t.path
      → is_image s ≡ true
      → is_image t ≡ true
      → i < j
      → section_should_use sections i ≡ true
      → section_should_use sections j ≡ true
      → ⊥
  later_unused i j s t p q e x y l used used' =
      ground (arith, exec_first i j s t, exec_only i j s t, exec_only j i t s, mmap_order i j s t)

  -- Two sections of one path, each from an executable or a mapping, that a decode both uses, are
  -- the same section.
  pub section_should_use_unique :
      (i j : ℕ) (s t : PtImageInfo)
      → get_elem? sections i ≡ some s
      → get_elem? sections j ≡ some t
      → s.path ≡ t.path
      → is_image s ≡ true
      → is_image t ≡ true
      → section_should_use sections i ≡ true
      → section_should_use sections j ≡ true
      → i ≡ j
  section_should_use_unique i j s t p q e x y used used' =
      ground (arith, later_unused i j s t, later_unused j i t s)

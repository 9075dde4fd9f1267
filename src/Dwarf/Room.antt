-- ===== src/Dwarf/Room.antt =====
-- Which of the sections of a decode have a cache, and how many have none.
use observable_bsd.Prelude.{
  ℕ, zero, suc, ◌+◌, ◌≤◌, ◌<◌, ◌≡◌, refl, inl, inr, Bool, true, false, ◌||◌, none, some, List, [],
  ◌∷◌, ◌++◌, Bytes, bytes_eq, bytes_eq_refl, bytes_eq_sound, if◌then◌else◌, get_elem?, set, arith,
  Bool-cases, length,
}
use mathlib.Core.Option.{some-injective}
use observable_bsd.Types.{PtImageInfo}
use observable_bsd.Dwarf.{DwarfCache, find_cache, section_path, last_part}

module _ {D : Type 0} where
  pub is_cached : Bytes → List (DwarfCache D) → Bool
  is_cached path [] = false
  is_cached path (c ∷ cs) = bytes_eq c.path path || is_cached path cs

module _ {D : Type 0} where
  -- The number of sections whose path has no cache.
  unfoldable pub missing : List PtImageInfo → List (DwarfCache D) → ℕ
  unfolding is_cached
  missing [] cs = 0
  missing (s ∷ ss) cs = (if is_cached s.path cs then 0 else 1) + missing ss cs

  -- The cache that the search finds.
  pub find_cache-some :
      (path : Bytes) (cs : List (DwarfCache D)) (k i : ℕ)
      → find_cache path cs k ≡ some i
      → (j : ℕ) × (c : DwarfCache D) × (i ≡ k + j) × (get_elem? cs j ≡ some c) × (c.path ≡ path)
  unfolding find_cache
  find_cache-some path [] k i e = absurd (ground arith)
  find_cache-some path (c ∷ cs) k i e = elim (Bool-cases (bytes_eq c.path path)) [
    | inl t ↦ (0, c, ground (arith, e, t), refl, bytes_eq_sound c.path path t)
    | inr t ↦
        let (j, d, p, q, r) = find_cache-some path cs (suc k) i (rw t at e) in
        (suc j, d, omega arith, q, r)
  ]

  pub find_cache-none :
      (path : Bytes) (cs : List (DwarfCache D)) (k : ℕ)
      → find_cache path cs k ≡ none
      → is_cached path cs ≡ false
  unfolding find_cache is_cached
  find_cache-none path [] k e = refl
  find_cache-none path (c ∷ cs) k e = elim (Bool-cases (bytes_eq c.path path)) [
    | inl t ↦ absurd (ground (arith, e, t))
    | inr t ↦ rw (is_cached, t) (find_cache-none path cs (suc k) (rw t at e))
  ]

  is_cached-append :
      (path : Bytes) (cs : List (DwarfCache D)) (c : DwarfCache D)
      → is_cached path (cs ++ c ∷ []) ≡ (is_cached path cs || bytes_eq c.path path)
  unfolding is_cached
  is_cached-append path [] c = ground arith
  is_cached-append path (d ∷ cs) c = let ih = is_cached-append path cs c in ground arith

  pub missing-append :
      (ss : List PtImageInfo) (cs : List (DwarfCache D)) (c : DwarfCache D)
      → missing ss (cs ++ c ∷ []) ≤ missing ss cs
  unfolding missing
  missing-append [] cs c = omega arith
  missing-append (s ∷ ss) cs c =
      let ih = missing-append ss cs c in let e = is_cached-append s.path cs c in ground arith

  -- A cache for a section that had none.
  pub missing-less :
      (binary path : Bytes) (ss : List PtImageInfo) (cs : List (DwarfCache D)) (c : DwarfCache D)
      → section_path binary ss ≡ some path
      → is_cached path cs ≡ false
      → c.path ≡ path
      → missing ss (cs ++ c ∷ []) < missing ss cs
  unfolding missing section_path
  missing-less binary path [] cs c e f g = absurd (ground arith)
  missing-less binary path (s ∷ ss) cs c e f g =
      let ih = missing-less binary path ss cs c in
      let k = is_cached-append s.path cs c in
      let m = missing-append ss cs c in
      elim (Bool-cases (bytes_eq (last_part s.path) binary)) [
        | inl t ↦
            let q = some-injective s.path path (rw t at e) in
            let u : bytes_eq c.path s.path ≡ true = rw (g, q) (bytes_eq_refl path) in
            let v : is_cached s.path cs ≡ false = rw q f in ground arith
        | inr t ↦ let q = ih (rw t at e) f g in ground arith
      ]

  is_cached-set :
      (path : Bytes) (cs : List (DwarfCache D)) (i : ℕ) (c : DwarfCache D) (d : D)
      → get_elem? cs i ≡ some c
      → is_cached path (set cs i (record c { dbg = d })) ≡ is_cached path cs
  unfolding is_cached
  is_cached-set path [] i c d e = refl
  is_cached-set path (b ∷ cs) zero c d e = rw (some-injective b c e) refl
  is_cached-set path (b ∷ cs) (suc i) c d e = rw (is_cached-set path cs i c d e) refl

  pub missing-set :
      (ss : List PtImageInfo) (cs : List (DwarfCache D)) (i : ℕ) (c : DwarfCache D) (d : D)
      → get_elem? cs i ≡ some c
      → missing ss (set cs i (record c { dbg = d })) ≡ missing ss cs
  unfolding missing
  missing-set [] cs i c d e = refl
  missing-set (s ∷ ss) cs i c d e =
      rw (missing, is_cached-set s.path cs i c d e, missing-set ss cs i c d e) refl

  pub missing-bound : (ss : List PtImageInfo) (cs : List (DwarfCache D)) → missing ss cs ≤ length ss
  unfolding missing
  missing-bound [] cs = omega arith
  missing-bound (s ∷ ss) cs = let ih = missing-bound ss cs in ground arith

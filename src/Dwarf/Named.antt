-- ===== src/Dwarf/Named.antt =====
-- Which section profile_record() of decode.c takes for the binary of a symbol.
use observable_bsd.Prelude.{
  ◌≡◌, ◌⊎◌, refl, ap, ◌∙◌, inl, inr, false, Option, none, some, List, [], ◌∷◌, ◌++◌, Bytes,
  bytes_eq, bytes_eq_refl, bytes_eq_sound, ◌==◌, arith, Bool-cases,
}
use observable_bsd.Types.{PtImageInfo}
use observable_bsd.Json.Escape.{All}
use observable_bsd.Decode.{after_slash}
use observable_bsd.Dwarf.{last_part, section_path}

abbrev pub NoSlash : Bytes → Type 0
NoSlash name = All (λ c. (c == b'/') ≡ false) name

-- The name is the whole path, or what follows a '/' in it, and has no '/' itself.
abbrev pub IsLastPart : Bytes → Bytes → Type 0
IsLastPart path name =
    NoSlash name × ((path ≡ name) ⊎ ((dir : Bytes) × (path ≡ dir ++ b'/' ∷ name)))

-- The path of the first section whose last part is the name; none where no section has it.
pub data IsNamed (name : Bytes) : List PtImageInfo → Option Bytes → Type 0 where
  no_section : IsNamed name [] none
  this_section :
      (s : PtImageInfo) (ss : List PtImageInfo)
      → IsLastPart s.path name
      → IsNamed name (s ∷ ss) (some s.path)
  further_section :
      (s : PtImageInfo) (ss : List PtImageInfo) (path : Option Bytes)
      → (IsLastPart s.path name → ⊥)
      → IsNamed name ss path
      → IsNamed name (s ∷ ss) path

after_slash-cases :
    (path : Bytes)
    → ((after_slash path ≡ none) × NoSlash path)
      ⊎ ((name : Bytes) × (dir : Bytes) × (after_slash path ≡ some name)
          × (path ≡ dir ++ b'/' ∷ name)
          × NoSlash name)
unfolding after_slash
after_slash-cases [] = inl (refl, tt)
after_slash-cases (c ∷ cs) = elim (after_slash-cases cs) [
  | inr (name, dir, e, p, n) ↦ inr (name, c ∷ dir, rw (after_slash, e) refl, ap (λ t. c ∷ t) p, n)
  | inl (e, n) ↦ elim (Bool-cases (c == b'/')) [
    | inl t ↦
        let q : c ≡ b'/' = ground arith in
        inr (cs, [], rw (after_slash, e, t) refl, ap (λ d. d ∷ cs) q, n)
    | inr t ↦ inl (rw (after_slash, e, t) refl, (t, n))
  ]
]

last_part-IsLastPart : (path : Bytes) → IsLastPart path (last_part path)
last_part-IsLastPart path = elim (after_slash-cases path) [
  | inl (e, n) ↦ rw (last_part, e) (n, inl refl)
  | inr (name, dir, e, p, n) ↦ rw (last_part, e) (n, inr (dir, p))
]

after_slash-none : (name : Bytes) → NoSlash name → after_slash name ≡ none
unfolding after_slash
after_slash-none [] n = refl
after_slash-none (c ∷ cs) (t, n) = rw (after_slash, after_slash-none cs n, t) refl

after_slash-append :
    (dir name : Bytes) → NoSlash name → after_slash (dir ++ b'/' ∷ name) ≡ some name
unfolding after_slash
after_slash-append [] name n = rw (after_slash, after_slash-none name n) refl
after_slash-append (c ∷ dir) name n = rw (after_slash, after_slash-append dir name n) refl

last_part-name : (name : Bytes) → NoSlash name → last_part name ≡ name
last_part-name name n = rw (last_part, after_slash-none name n) refl

last_part-append : (dir name : Bytes) → NoSlash name → last_part (dir ++ b'/' ∷ name) ≡ name
last_part-append dir name n = rw (last_part, after_slash-append dir name n) refl

last_part_unique : (path name : Bytes) → IsLastPart path name → last_part path ≡ name
last_part_unique path name (n, inl p) = ap (λ t. last_part t) p ∙ last_part-name name n
last_part_unique path name (n, inr (dir, p)) = ap (λ t. last_part t) p ∙ last_part-append dir name n

pub section_path-IsNamed :
    (name : Bytes) (ss : List PtImageInfo) → IsNamed name ss (section_path name ss)
unfolding section_path
section_path-IsNamed name [] = no_section
section_path-IsNamed name (s ∷ ss) = elim (Bool-cases (bytes_eq (last_part s.path) name)) [
  | inl t ↦
      let q = bytes_eq_sound (last_part s.path) name t in
      rw (section_path, t) (this_section s ss (rw q at (last_part-IsLastPart s.path)))
  | inr t ↦
      rw (section_path, t)
        (further_section s ss _
          (λ h.
            let q = last_part_unique s.path name h in
            let u = rw (q, bytes_eq_refl name) at t in absurd (ground arith))
          (section_path-IsNamed name ss))
]

-- No other path is named so.
pub section_path_unique :
    (name : Bytes) (ss : List PtImageInfo) (path : Option Bytes)
    → IsNamed name ss path
    → section_path name ss ≡ path
unfolding section_path
section_path_unique name _ _ no_section = refl
section_path_unique name _ _ (this_section s ss h) =
    rw (section_path, last_part_unique s.path name h, bytes_eq_refl name) refl
section_path_unique name _ _ (further_section s ss path h n) =
    elim (Bool-cases (bytes_eq (last_part s.path) name)) [
      | inl t ↦
          let q = bytes_eq_sound (last_part s.path) name t in
          absurd (h (rw q at (last_part-IsLastPart s.path)))
      | inr t ↦ rw (section_path, t) (section_path_unique name ss path n)
    ]

-- ===== src/Collapsed/Frames.antt =====
-- The frames of speedscope_print(): the names of all stacks, each once.
use mathlib.Core.Option.{some-injective}
use observable_bsd.Prelude.{
  ℕ, zero, suc, ◌≡◌, refl, ap, inl, inr, ◌⊎◌, none, some, List, [], ◌∷◌, ◌++◌, Bytes, bytes_eq,
  bytes_eq_refl, bytes_eq_sound, length, get_elem?, arith, Bool-cases, Option-cases,
}
use observable_bsd.Json.Escape.{All}
use observable_bsd.Collapsed.{CollapsedEntry}
use observable_bsd.Collapsed.Output.{
  tokens, find_frame, speedscope_frame_idx, collect_frames, collect_stacks,
}

-- A name is among the frames.
abbrev pub IsFrame : List Bytes → Bytes → Type 0
IsFrame frames name = (i : ℕ) × (find_frame frames name ≡ some i)

pub find_frame-get :
    (fs : List Bytes) (name : Bytes) (i : ℕ)
    → find_frame fs name ≡ some i
    → get_elem? fs i ≡ some name
unfolding find_frame
find_frame-get [] name i e = absurd (ground arith)
find_frame-get (f ∷ fs) name i e = elim (Bool-cases (bytes_eq f name)) [
  | inl t ↦ let k = some-injective 0 i (rw t at e) in rw (← k, bytes_eq_sound f name t) refl
  | inr t ↦ elim (Option-cases (find_frame fs name)) [
    | inl g ↦ let q = rw (t, g) at e in absurd (ground arith)
    | inr (j, g) ↦
        let k = some-injective (suc j) i (rw (t, g) at e) in rw (← k) (find_frame-get fs name j g)
  ]
]

-- A frame keeps its index when others come behind.
find_frame-append :
    (fs gs : List Bytes) (name : Bytes) (i : ℕ)
    → find_frame fs name ≡ some i
    → find_frame (fs ++ gs) name ≡ some i
unfolding find_frame
find_frame-append [] gs name i e = absurd (ground arith)
find_frame-append (f ∷ fs) gs name i e = elim (Bool-cases (bytes_eq f name)) [
  | inl t ↦ rw (find_frame, t) (rw t at e)
  | inr t ↦ elim (Option-cases (find_frame fs name)) [
    | inl g ↦ let q = rw (t, g) at e in absurd (ground arith)
    | inr (j, g) ↦ let q = rw (t, g) at e in rw (find_frame, t, find_frame-append fs gs name j g) q
  ]
]

find_frame-new :
    (fs : List Bytes) (name : Bytes)
    → find_frame fs name ≡ none
    → find_frame (fs ++ name ∷ []) name ≡ some (length fs)
unfolding find_frame
find_frame-new [] name e = rw (find_frame, bytes_eq_refl name) refl
find_frame-new (f ∷ fs) name e = elim (Bool-cases (bytes_eq f name)) [
  | inl t ↦ let q = rw t at e in absurd (ground arith)
  | inr t ↦ elim (Option-cases (find_frame fs name)) [
    | inl g ↦ rw (find_frame, t, find_frame-new fs name g) refl
    | inr (j, g) ↦ let q = rw (t, g) at e in absurd (ground arith)
  ]
]

-- Each frame is found at its own index.
abbrev pub AreDistinct : List Bytes → Type 0
AreDistinct fs = (i : ℕ) (name : Bytes) → get_elem? fs i ≡ some name → find_frame fs name ≡ some i

get_elem?-snoc-cases {ℓ} :
    {A : Type ℓ} (xs : List A) (x : A) (i : ℕ) (y : A)
    → get_elem? (xs ++ x ∷ []) i ≡ some y
    → (get_elem? xs i ≡ some y) ⊎ ((i ≡ length xs) × (x ≡ y))
get_elem?-snoc-cases [] x zero y e = inr (refl, some-injective x y e)
get_elem?-snoc-cases [] x (suc i) y e = absurd (ground arith)
get_elem?-snoc-cases (z ∷ xs) x zero y e = inl e
get_elem?-snoc-cases (z ∷ xs) x (suc i) y e = elim (get_elem?-snoc-cases xs x i y e) [
  | inl f ↦ inl f
  | inr (p, q) ↦ inr (ap suc p, q)
]

-- What speedscope_frame_idx() does to the frames: those there keep their index, the name is among
-- them, and they stay distinct.
speedscope_frame_idx-keeps :
    (fs : List Bytes) (tok name : Bytes)
    → IsFrame fs name
    → IsFrame (speedscope_frame_idx fs tok).1 name
unfolding speedscope_frame_idx
speedscope_frame_idx-keeps fs tok name (i, e) = elim (Option-cases (find_frame fs tok)) [
  | inl g ↦ rw (speedscope_frame_idx, g) (i, find_frame-append fs (tok ∷ []) name i e)
  | inr (j, g) ↦ rw (speedscope_frame_idx, g) (i, e)
]

speedscope_frame_idx-IsFrame :
    (fs : List Bytes) (tok : Bytes) → IsFrame (speedscope_frame_idx fs tok).1 tok
unfolding speedscope_frame_idx
speedscope_frame_idx-IsFrame fs tok = elim (Option-cases (find_frame fs tok)) [
  | inl g ↦ rw (speedscope_frame_idx, g) (length fs, find_frame-new fs tok g)
  | inr (j, g) ↦ rw (speedscope_frame_idx, g) (j, g)
]

speedscope_frame_idx-AreDistinct :
    (fs : List Bytes) (tok : Bytes) → AreDistinct fs → AreDistinct (speedscope_frame_idx fs tok).1
unfolding speedscope_frame_idx
speedscope_frame_idx-AreDistinct fs tok d = elim (Option-cases (find_frame fs tok)) [
  | inr (j, g) ↦ rw (speedscope_frame_idx, g) d
  | inl g ↦
      rw (speedscope_frame_idx, g)
        (λ i name e. elim (get_elem?-snoc-cases fs tok i name e) [
          | inl f ↦ find_frame-append fs (tok ∷ []) name i (d i name f)
          | inr (p, q) ↦ rw (p, ← q) (find_frame-new fs tok g)
        ])
]

collect_frames-keeps :
    (fs toks : List Bytes) (name : Bytes) → IsFrame fs name → IsFrame (collect_frames fs toks) name
unfolding collect_frames
collect_frames-keeps fs [] name h = h
collect_frames-keeps fs (t ∷ ts) name h =
    collect_frames-keeps (speedscope_frame_idx fs t).1 ts name
      (speedscope_frame_idx-keeps fs t name h)

collect_frames-IsFrame : (fs toks : List Bytes) → All (IsFrame (collect_frames fs toks)) toks
unfolding collect_frames
collect_frames-IsFrame fs [] = tt
collect_frames-IsFrame fs (t ∷ ts) = (
  collect_frames-keeps (speedscope_frame_idx fs t).1 ts t (speedscope_frame_idx-IsFrame fs t),
  collect_frames-IsFrame (speedscope_frame_idx fs t).1 ts,
)

collect_frames-AreDistinct :
    (fs toks : List Bytes) → AreDistinct fs → AreDistinct (collect_frames fs toks)
unfolding collect_frames
collect_frames-AreDistinct fs [] d = d
collect_frames-AreDistinct fs (t ∷ ts) d =
    collect_frames-AreDistinct (speedscope_frame_idx fs t).1 ts
      (speedscope_frame_idx-AreDistinct fs t d)

collect_stacks-keeps :
    (fs : List Bytes) (es : List CollapsedEntry) (name : Bytes)
    → IsFrame fs name
    → IsFrame (collect_stacks fs es) name
unfolding collect_stacks
collect_stacks-keeps fs [] name h = h
collect_stacks-keeps fs (e ∷ es) name h =
    collect_stacks-keeps (collect_frames fs (tokens e.stack)) es name
      (collect_frames-keeps fs (tokens e.stack) name h)

pub collect_stacks-AreDistinct :
    (fs : List Bytes) (es : List CollapsedEntry)
    → AreDistinct fs
    → AreDistinct (collect_stacks fs es)
unfolding collect_stacks
collect_stacks-AreDistinct fs [] d = d
collect_stacks-AreDistinct fs (e ∷ es) d =
    collect_stacks-AreDistinct (collect_frames fs (tokens e.stack)) es
      (collect_frames-AreDistinct fs (tokens e.stack) d)

All-map {ℓ κ μ} :
    {A : Type ℓ} {P : A → Type κ} {Q : A → Type μ} (xs : List A)
    → ((x : A) → P x → Q x)
    → All P xs
    → All Q xs
All-map [] f h = tt
All-map (x ∷ xs) f (p, h) = (f x p, All-map xs f h)

pub collect_stacks-IsFrame :
    (fs : List Bytes) (es : List CollapsedEntry)
    → All (λ e. All (IsFrame (collect_stacks fs es)) (tokens e.stack)) es
unfolding collect_stacks
collect_stacks-IsFrame fs [] = tt
collect_stacks-IsFrame fs (e ∷ es) =
    let fs1 = collect_frames fs (tokens e.stack) in
    (
      All-map (tokens e.stack) (λ name h. collect_stacks-keeps fs1 es name h)
          (collect_frames-IsFrame fs (tokens e.stack)),
      collect_stacks-IsFrame fs1 es,
    )

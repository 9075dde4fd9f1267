-- ===== src/Profile/Counts.antt =====
-- What the profile counts for a function, against a count over the samples.
use observable_bsd.Prelude.{
  ℕ, ◌+◌, ◌*◌, ◌≡◌, refl, ap, ◌∙◌, inl, inr, Bool, true, false, not, ◌&&◌, Option, none, some, List,
  [], ◌∷◌, ◌++◌, leb, ◌==◌, if◌then◌else◌, length, arith, Bool-cases, Option-cases,
}
use observable_bsd.Types.{same_ptr}
use observable_bsd.Symbols.{SymEntry}
use observable_bsd.Decode.{InsnClass, return, jump, cond_jump, far_return, plain}
use observable_bsd.Profile.{
  ProfileEntry, Profile, profile_init, Sample, is_entry_of, after_call, enter, leave, by_class,
  update_entry, update_found, new_entry, add_entry, profile_record, profile_all,
}

-- The same name and binary, as the profile compares them.
abbrev pub same_function : SymEntry → SymEntry → Bool
same_function s t = same_ptr s.name t.name && same_ptr s.binary t.binary

-- A field of the first entry of a symbol, 0 where there is none.
abbrev pub value : (ProfileEntry → ℕ) → SymEntry → List ProfileEntry → ℕ
value f s [] = 0
value f s (e ∷ es) = if is_entry_of s e then f e else value f s es

abbrev one_if : Bool → ℕ
one_if b = if b then 1 else 0

abbrev pub is_return : InsnClass → Bool
is_return return = true
is_return far_return = true
is_return _ = false

abbrev pub is_branch : InsnClass → Bool
is_branch jump = true
is_branch cond_jump = true
is_branch _ = false

-- An entry into the function: its first instruction, after a call.
abbrev pub is_entry : InsnClass → Sample → Bool
is_entry prev_class x = x.ip == x.sym.addr && after_call prev_class

-- The specification: how often a test holds of the samples of a function, where the test sees the
-- class of the sample before.
unfoldable pub count_samples :
    (InsnClass → Sample → Bool) → SymEntry → InsnClass → List (Option Sample) → ℕ
count_samples test s prev_class [] = 0
count_samples test s prev_class (none ∷ xs) = count_samples test s prev_class xs
count_samples test s prev_class (some x ∷ xs) =
    one_if (same_function x.sym s && test prev_class x) + count_samples test s x.iclass xs

-- realloc() succeeds wherever a sample makes it be called.
unfoldable pub HasMemory : List (Option Sample) → Type 0
HasMemory [] = Unit
HasMemory (none ∷ xs) = HasMemory xs
HasMemory (some x ∷ xs) = (x.grown ≡ true) × HasMemory xs

-- A field that counts the samples of a test.
record Counts (f : ProfileEntry → ℕ) (test : InsnClass → Sample → Bool) : Type 0 where
  starts : (x : Sample) → f (new_entry x) ≡ 0
  steps :
      (prev_class : InsnClass) (x : Sample) (e : ProfileEntry)
      → f (update_entry prev_class x e) ≡ f e + one_if (test prev_class x)

branches_Counts : Counts (λ e. e.branches) (λ prev_class x. is_branch x.iclass)
unfolding update_entry enter leave by_class new_entry
branches_Counts = record { starts = λ x. refl; steps = λ prev_class x e. ground arith }

returns_Counts : Counts (λ e. e.returns) (λ prev_class x. is_return x.iclass)
unfolding update_entry enter leave by_class new_entry
returns_Counts = record { starts = λ x. refl; steps = λ prev_class x e. ground arith }

calls_Counts : Counts (λ e. e.calls) is_entry
unfolding update_entry enter leave by_class new_entry
calls_Counts = record { starts = λ x. refl; steps = λ prev_class x e. ground arith }

update_entry-is_entry_of :
    (prev_class : InsnClass) (x : Sample) (s : SymEntry) (e : ProfileEntry)
    → is_entry_of s (update_entry prev_class x e) ≡ is_entry_of s e
unfolding update_entry enter leave by_class
update_entry-is_entry_of prev_class x s e = ground arith

-- Which function an entry belongs to.
entry_same :
    (t s : SymEntry) (e : ProfileEntry)
    → is_entry_of t e ≡ true
    → is_entry_of s e ≡ same_function t s
entry_same t s e h = ground arith

entry_other :
    (t s : SymEntry) (e : ProfileEntry)
    → is_entry_of t e ≡ false
    → is_entry_of s e ≡ true
    → same_function t s ≡ false
entry_other t s e h k = ground arith

add_entry_grown :
    (p : Profile) (x : Sample)
    → x.grown ≡ true
    → (p' : Profile) × (add_entry p x ≡ some p')
      × (p'.entries ≡ p.entries ++ update_entry p.prev_class x (new_entry x) ∷ [])
unfolding add_entry
add_entry_grown p x g =
    let entries = p.entries ++ update_entry p.prev_class x (new_entry x) ∷ [] in
    let p1 : Profile = record p { entries = entries } in
    let p2 : Profile = record p {
      capacity = if p.capacity == 0 then 128 else p.capacity * 2;
      entries = entries;
    } in
    elim (Bool-cases (not (leb p.capacity (length p.entries)))) [
      | inl room ↦ (p1, rw room refl, refl)
      | inr full ↦ (p2, rw full (ap (λ b. if b then some p2 else none) g), refl)
    ]

module _ (f : ProfileEntry → ℕ) (test : InsnClass → Sample → Bool) (counts : Counts f test) where
  -- What is added to the value of s.
  gain : InsnClass → Sample → SymEntry → ℕ
  gain prev_class x s = one_if (same_function x.sym s && test prev_class x)

  value-head :
      (prev_class : InsnClass) (x : Sample) (s : SymEntry) (e : ProfileEntry)
      (es : List ProfileEntry)
      → is_entry_of x.sym e ≡ true
      → value f s (update_entry prev_class x e ∷ es) ≡ value f s (e ∷ es) + gain prev_class x s
  unfolding gain
  value-head prev_class x s e es h =
      let k = counts.steps prev_class x e in
      let q = entry_same x.sym s e h in
      rw (update_entry-is_entry_of prev_class x s e, q, k) (ground arith)

  value-tail :
      (prev_class : InsnClass) (x : Sample) (s : SymEntry) (e : ProfileEntry)
      (es es' : List ProfileEntry)
      → is_entry_of x.sym e ≡ false
      → value f s es' ≡ value f s es + gain prev_class x s
      → value f s (e ∷ es') ≡ value f s (e ∷ es) + gain prev_class x s
  unfolding gain
  value-tail prev_class x s e es es' h k = elim (Bool-cases (is_entry_of s e)) [
    | inl b ↦ let o = entry_other x.sym s e h b in rw (b, o) (omega arith)
    | inr b ↦ rw b k
  ]

  -- An entry that is found gains what the test says, and no other function's value changes.
  value-update_found :
      (prev_class : InsnClass) (x : Sample) (s : SymEntry) (es es' : List ProfileEntry)
      → update_found prev_class x es ≡ some es'
      → value f s es' ≡ value f s es + gain prev_class x s
  unfolding update_found
  value-update_found prev_class x s [] es' h = ground arith
  value-update_found prev_class x s (e ∷ es) es' h = elim (Bool-cases (is_entry_of x.sym e)) [
    | inl b ↦
        let q : update_entry prev_class x e ∷ es ≡ es' = ground arith in
        rw (← q) (value-head prev_class x s e es b)
    | inr b ↦ elim (Option-cases (update_found prev_class x es)) [
      | inl u ↦ absurd (ground arith)
      | inr (es1, u) ↦
          let q : e ∷ es1 ≡ es' = ground arith in
          rw (← q)
            (value-tail prev_class x s e es es1 b (value-update_found prev_class x s es es1 u))
    ]
  ]

  -- So does an entry that is made, where there was none.
  value-add_entry :
      (prev_class : InsnClass) (x : Sample) (s : SymEntry) (es : List ProfileEntry)
      → update_found prev_class x es ≡ none
      → value f s (es ++ update_entry prev_class x (new_entry x) ∷ [])
        ≡ value f s es + gain prev_class x s
  unfolding update_found
  value-add_entry prev_class x s [] h =
      let z = counts.starts x in
      let own : is_entry_of x.sym (new_entry x) ≡ true = unfold new_entry in ground arith in
      value-head prev_class x s (new_entry x) [] own ∙ ground arith
  value-add_entry prev_class x s (e ∷ es) h = elim (Bool-cases (is_entry_of x.sym e)) [
    | inl b ↦ absurd (ground arith)
    | inr b ↦
        let u : update_found prev_class x es ≡ none = ground arith in
        value-tail prev_class x s e es _ b (value-add_entry prev_class x s es u)
  ]

  record_step :
      (p : Profile) (x : Sample) (s : SymEntry)
      → x.grown ≡ true
      → (value f s (profile_record p x).entries ≡ value f s p.entries + gain p.prev_class x s)
        × ((profile_record p x).prev_class ≡ x.iclass)
  unfolding profile_record add_entry
  record_step p x s g = elim (Option-cases (update_found p.prev_class x p.entries)) [
    | inr (es, u) ↦
        rw (profile_record, u) (value-update_found p.prev_class x s p.entries es u, refl)
    | inl u ↦
        let v = value-add_entry p.prev_class x s p.entries u in
        let (p', a, e) = add_entry_grown p x g in
        rw (profile_record, u, a) (ap (value f s) e ∙ v, refl)
  ]

  value-profile_all :
      (p : Profile) (s : SymEntry) (xs : List (Option Sample))
      → HasMemory xs
      → value f s (profile_all p xs).entries
        ≡ value f s p.entries + count_samples test s p.prev_class xs
  unfolding profile_all count_samples HasMemory gain profile_record
  value-profile_all p s [] h = omega arith
  value-profile_all p s (none ∷ xs) h = value-profile_all p s xs h
  value-profile_all p s (some x ∷ xs) h =
      let (v, c) = record_step p x s h.0 in
      let rest = rw c at (value-profile_all (profile_record p x) s xs h.1) in rest ∙ omega arith

-- While there is memory, starting from an empty profile, and for every function and every sequence
-- of decoded instructions: `branches` of the function's entry is the number of its jumps and
-- conditional jumps, `returns` the number of its returns and far returns, and `calls` the number of
-- its first instructions that come behind a call or far call. A function without an entry has 0.
pub profile_all-counts :
    (s : SymEntry) (xs : List (Option Sample))
    → HasMemory xs
    → (value (λ e. e.branches) s (profile_all profile_init xs).entries
        ≡ count_samples (λ prev_class x. is_branch x.iclass) s plain xs)
      × (value (λ e. e.returns) s (profile_all profile_init xs).entries
          ≡ count_samples (λ prev_class x. is_return x.iclass) s plain xs)
      × (value (λ e. e.calls) s (profile_all profile_init xs).entries
          ≡ count_samples is_entry s plain xs)
profile_all-counts s xs h = (
  value-profile_all _ _ branches_Counts profile_init s xs h ∙ omega arith,
  value-profile_all _ _ returns_Counts profile_init s xs h ∙ omega arith,
  value-profile_all _ _ calls_Counts profile_init s xs h ∙ omega arith,
)

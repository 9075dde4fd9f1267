-- ===== src/Collapsed/Limits.antt =====
-- The limits of the collapsed stacks: depth, entries and capacity, and how long a joined text can be.
use observable_bsd.Prelude.{
  suc, ◌+◌, ◌-◌, ◌*◌, ◌≤◌, ◌≡◌, refl, ap, ◌∙◌, inl, inr, Bool, true, false, some, List, [], ◌∷◌,
  Bytes, length, length-append, arith, Bool-cases, Option-cases, bytes_eq,
}
use observable_bsd.Collapsed.{
  CollapsedEntry, Collapsed, reverse_onto, count_found, add_stack, count_string,
  max_collapsed_stacks, max_stack_depth,
}
use observable_bsd.Collapsed.Stack.{join_from, join}

-- Names of at most 31 bytes.
abbrev pub Short : List Bytes → Type 0
Short [] = Unit
Short (n ∷ ns) = (length n ≤ 31) × Short ns

pub Short-reverse_onto : (xs ys : List Bytes) → Short xs → Short ys → Short (reverse_onto xs ys)
Short-reverse_onto [] ys h k = k
Short-reverse_onto (x ∷ xs) ys h k = Short-reverse_onto xs (x ∷ ys) h.1 (h.0, k)

pub length-reverse_onto : (xs ys : List Bytes) → length (reverse_onto xs ys) ≡ length xs + length ys
length-reverse_onto [] ys = omega arith
length-reverse_onto (x ∷ xs) ys = length-reverse_onto xs (x ∷ ys) ∙ omega arith

length-join_from :
    (first : Bool) (names : List Bytes)
    → Short names
    → length (join_from first names) ≤ 32 * length names
length-join_from first [] h = omega arith
length-join_from true (n ∷ ns) h =
    let r = length-join_from false ns h.1 in
    let a = length-append n (join_from false ns) in let b = h.0 in omega arith
length-join_from false (n ∷ ns) h =
    let r = length-join_from false ns h.1 in
    let a = length-append n (join_from false ns) in let b = h.0 in omega arith

pub length-join : (names : List Bytes) → Short names → length (join names) ≤ 32 * length names - 1
length-join [] h = omega arith
length-join (n ∷ names) h =
    let r = length-join_from false names h.1 in
    let a = length-append n (join_from false names) in let b = h.0 in omega arith

-- The limits of the program's state.
pub record IsCollapsed (col : Collapsed) : Type 0 where
  pub depth : length col.names ≤ max_stack_depth
  pub room : length col.entries ≤ col.capacity
  pub limit : col.capacity ≤ max_collapsed_stacks
  pub short : Short col.names

length-count_found :
    (stack : Bytes) (es es' : List CollapsedEntry)
    → count_found stack es ≡ some es'
    → length es' ≡ length es
unfolding count_found
length-count_found stack [] es' h = ground arith
length-count_found stack (e ∷ es) es' h = elim (Bool-cases (bytes_eq e.stack stack)) [
  | inl b ↦ let q : record e { count = e.count + 1 } ∷ es ≡ es' = ground arith in rw (← q) refl
  | inr b ↦ elim (Option-cases (count_found stack es)) [
    | inl u ↦ absurd (ground arith)
    | inr (es1, u) ↦
        let q : e ∷ es1 ≡ es' = ground arith in
        rw (← q) (ap suc (length-count_found stack es es1 u))
  ]
]

add_stack-names :
    (col : Collapsed) (grown : Bool) (stack : Bytes) → (add_stack col grown stack).names ≡ col.names
unfolding add_stack
add_stack-names col grown stack = ground arith

add_stack-room :
    (col : Collapsed) (grown : Bool) (stack : Bytes)
    → length col.entries ≤ col.capacity
    → length (add_stack col grown stack).entries ≤ (add_stack col grown stack).capacity
unfolding add_stack
add_stack-room col grown stack h =
    let a = length-append col.entries (record { stack = stack; count = 1 } ∷ []) in ground arith

add_stack-limit :
    (col : Collapsed) (grown : Bool) (stack : Bytes)
    → col.capacity ≤ max_collapsed_stacks
    → (add_stack col grown stack).capacity ≤ max_collapsed_stacks
unfolding add_stack
add_stack-limit col grown stack h = ground arith

pub count_string-IsCollapsed :
    (col : Collapsed) (grown : Bool) (stack : Bytes)
    → IsCollapsed col
    → IsCollapsed (count_string col grown stack)
unfolding count_string
count_string-IsCollapsed col grown stack h = elim (Option-cases (count_found stack col.entries)) [
  | inl u ↦
      let n = add_stack-names col grown stack in
      rw (count_string, u)
        (record {
          depth = rw n (h.depth);
          room = add_stack-room col grown stack h.room;
          limit = add_stack-limit col grown stack h.limit;
          short = rw n (h.short);
        })
  | inr (es, u) ↦
      let l = length-count_found stack col.entries es u in
      rw (count_string, u)
        (record { depth = h.depth; room = rw l (h.room); limit = h.limit; short = h.short })
]

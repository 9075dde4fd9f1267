-- ===== src/Collapsed/Stack.antt =====
-- The text of a collapsed stack.
use observable_bsd.Prelude.{
  ◌+◌, ◌-◌, ◌≤◌, ◌≡◌, refl, ap, ◌∙◌, inl, inr, Bool, true, false, List, [], ◌∷◌, ◌++◌, append_assoc,
  append-nil, Bytes, ltb, leb, if◌then◌else◌, length, length-append, take, take-all, arith,
  Bool-cases,
}
use observable_bsd.Collapsed.{
  build_from, null, string, overrun, end_string, reverse_onto, collapsed_build_stack,
}

-- The names with a ';' before each but the first.
abbrev pub join_from : Bool → List Bytes → Bytes
join_from first [] = []
join_from true (n ∷ ns) = n ++ join_from false ns
join_from false (n ∷ ns) = b';' ∷ n ++ join_from false ns

abbrev pub join : List Bytes → Bytes
join names = join_from true names

-- One round: the text so far, the name, and the rest.
build_round :
    (name : Bytes) (names : List Bytes) (text : Bytes)
    → length text + (length name + length (join_from false names)) ≤ 8191
    → end_string (build_from false names (text ++ name) (length text + length name))
      ≡ string ((text ++ name) ++ join_from false names)
    → end_string (
        if leb 8191 (length text + length name)
        then (text ++ take (8191 - length text) name, length text + length name)
        else build_from false names
            (text ++ take (8191 - length text) name)
            (length text + length name))
      ≡ string (text ++ (name ++ join_from false names))
unfolding end_string
build_round name names text h k =
    let t = take-all (8191 - length text) name (omega arith) in
    elim (Bool-cases (leb 8191 (length text + length name))) [
      | inr e ↦ rw (e, t, ← append_assoc text name (join_from false names)) k
      | inl e ↦
          elim names
              as (λ ns.
                length text + (length name + length (join_from false ns)) ≤ 8191
                → end_string (
                    if leb 8191 (length text + length name)
                    then (text ++ take (8191 - length text) name, length text + length name)
                    else build_from false ns (text ++ take (8191 - length text) name)
                        (length text + length name))
                  ≡ string (text ++ (name ++ join_from false ns))) [
                    | [] ↦ λ b.
                        let l : leb (length text + length name) 8191 ≡ true = ground arith in
                        rw (e, t, append-nil name, l) refl
                    | m ∷ ms ↦
                        λ b. absurd (let a = length-append m (join_from false ms) in ground arith)
                  ]
            h
    ]

build_from-join :
    (first : Bool) (names : List Bytes) (text : Bytes)
    → length text + length (join_from first names) ≤ 8191
    → end_string (build_from first names text (length text))
      ≡ string (text ++ join_from first names)
unfolding build_from
build_from-join first [] text h =
    let l : leb (length text) 8191 ≡ true = ground arith in
    unfold end_string in rw (l, append-nil text) refl
build_from-join true (n ∷ ns) text h =
    let a = length-append n (join_from false ns) in
    let b = length-append text n in
    build_round n ns text (omega arith)
      (rw (← length-append text n) (build_from-join false ns (text ++ n) (omega arith)))
build_from-join false (n ∷ ns) text h =
    let a = length-append n (join_from false ns) in
    let b = length-append (text ++ b';' ∷ []) n in
    let c = length-append text (b';' ∷ []) in
    let l : ltb (length text) 8191 ≡ true = ground arith in
    let q : length text + 1 ≡ length (text ++ b';' ∷ []) = omega arith in
    rw (l, q)
      (build_round n ns (text ++ b';' ∷ []) (omega arith) (
          rw (← length-append (text ++ b';' ∷ []) n)
            (build_from-join false ns ((text ++ b';' ∷ []) ++ n) (omega arith)))
        ∙ ap string (append_assoc text (b';' ∷ []) (n ++ join_from false ns)))

-- A stack whose joined text has at most 8191 bytes is built as that text: the names from the
-- outermost to the innermost, with ';' between them. strdup() succeeds.
pub collapsed_build_stack-join :
    (n : Bytes) (names : List Bytes)
    → length (join (reverse_onto names (n ∷ []))) ≤ 8191
    → collapsed_build_stack true (n ∷ names) ≡ string (join (reverse_onto names (n ∷ [])))
unfolding collapsed_build_stack
collapsed_build_stack-join n names h =
    rw (collapsed_build_stack, build_from-join true (reverse_onto names (n ∷ [])) [] (omega arith))
      refl

one_name-overrun :
    (n : Bytes) → 8192 ≤ length n → end_string (build_from true (n ∷ []) [] 0) ≡ overrun
unfolding build_from end_string
one_name-overrun n h =
    let e : leb 8191 (0 + length n) ≡ true = ground arith in
    let l : leb (0 + length n) 8191 ≡ false = ground arith in rw (e, l) refl

-- Without memory for the copy, such a stack is NULL.
pub collapsed_build_stack-no_copy :
    (n : Bytes) (names : List Bytes)
    → length (join (reverse_onto names (n ∷ []))) ≤ 8191
    → collapsed_build_stack false (n ∷ names) ≡ null
unfolding collapsed_build_stack
collapsed_build_stack-no_copy n names h =
    rw (collapsed_build_stack, build_from-join true (reverse_onto names (n ∷ [])) [] (omega arith))
      refl

-- A stack of one function whose name has more than 8191 bytes is not built: the NUL is written
-- behind the end of the buffer.
pub collapsed_build_stack-overrun :
    (copied : Bool) (n : Bytes) → 8192 ≤ length n → collapsed_build_stack copied (n ∷ []) ≡ overrun
unfolding collapsed_build_stack
collapsed_build_stack-overrun copied n h = rw (collapsed_build_stack, one_name-overrun n h) refl

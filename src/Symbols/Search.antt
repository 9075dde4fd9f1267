-- ===== src/Symbols/Search.antt =====
-- The binary search of sym_table_lookup(), against the table read as a sequence of addresses.
use observable_bsd.Prelude.{
  ℕ, zero, suc, ◌+◌, ◌-◌, ◌/◌, ◌≤◌, ◌<◌, ◌≡◌, refl, inl, inr, true, false, Option, none, some, List,
  [], ◌∷◌, ltb, leb, if◌then◌else◌, length, get_elem?, arith, Bool-cases,
}
use observable_bsd.Types.{u64}
use observable_bsd.Symbols.{SymEntry, SymTable, search_loop, covers, best_entry, sym_table_lookup}

-- The entries are in ascending order of address, as sym_table_sort() leaves them.
abbrev pub IsSorted : List SymEntry → Type 0
IsSorted es =
    (i j : ℕ) (e f : SymEntry)
    → get_elem? es i ≡ some e
    → get_elem? es j ≡ some f
    → i ≤ j
    → e.addr ≤ f.addr

in_table : (es : List SymEntry) (i : ℕ) → i < length es → (e : SymEntry) × (get_elem? es i ≡ some e)
in_table [] i h = absurd (omega arith)
in_table (e ∷ es) zero h = (e, refl)
in_table (e ∷ es) (suc i) h = in_table es i (omega arith)

below_length : (es : List SymEntry) (i : ℕ) (e : SymEntry) → get_elem? es i ≡ some e → i < length es
below_length [] i e h = absurd (ground arith)
below_length (x ∷ es) zero e h = omega arith
below_length (x ∷ es) (suc i) e h = omega (arith, below_length es i e h)

-- `best` is the index before `lo`, if there is one.
Tracks : ℕ → Option ℕ → Type 0
Tracks lo none = lo ≡ 0
Tracks lo (some b) = suc b ≡ lo

-- The invariant: entries below `lo` start at or before `ip`, those from `top` on start after it.
record Inv (es : List SymEntry) (ip lo top : ℕ) (best : Option ℕ) : Type 0 where
  ordered : lo ≤ top
  inside : top ≤ length es
  tracks : Tracks lo best
  below : (i : ℕ) (e : SymEntry) → get_elem? es i ≡ some e → i < lo → e.addr ≤ ip
  above : (i : ℕ) (e : SymEntry) → get_elem? es i ≡ some e → top ≤ i → ip < e.addr

-- What the search returns: the last index whose entry starts at or before `ip`.
abbrev pub IsLast : List SymEntry → ℕ → Option (Option ℕ) → Type 0
IsLast es ip none = ⊥
IsLast es ip (some none) = (i : ℕ) (e : SymEntry) → get_elem? es i ≡ some e → ip < e.addr
IsLast es ip (some (some b)) =
    (b < length es)
    × ((i : ℕ) (e : SymEntry) → get_elem? es i ≡ some e → i ≤ b → e.addr ≤ ip)
    × ((i : ℕ) (e : SymEntry) → get_elem? es i ≡ some e → b < i → ip < e.addr)

module _ (es : List SymEntry) (ip : ℕ) (sorted : IsSorted es) where
  finish :
      (lo top : ℕ) (best : Option ℕ) → Inv es ip lo top best → top ≤ lo → IsLast es ip (some best)
  unfolding Tracks
  finish lo top none inv h = λ i e g. inv.above i e g (let t = inv.tracks in omega arith)
  finish lo top (some b) inv h = (
    omega arith,
    λ i e g l. inv.below i e g (omega arith),
    λ i e g l. inv.above i e g (omega arith),
  )

  go_right :
      (lo top mid : ℕ) (best : Option ℕ) (e : SymEntry)
      → Inv es ip lo top best
      → get_elem? es mid ≡ some e
      → lo ≤ mid
      → mid < top
      → e.addr ≤ ip
      → Inv es ip (mid + 1) top (some mid)
  unfolding Tracks
  go_right lo top mid best e inv g l h c = record {
    ordered = omega arith;
    inside = inv.inside;
    tracks = omega arith;
    below = λ i f g' l'. grind (arith, sorted i mid f e g' g);
    above = inv.above;
  }

  go_left :
      (lo top mid : ℕ) (best : Option ℕ) (e : SymEntry)
      → Inv es ip lo top best
      → get_elem? es mid ≡ some e
      → lo ≤ mid
      → mid < top
      → ip < e.addr
      → Inv es ip lo mid best
  go_left lo top mid best e inv g l h c = record {
    ordered = l;
    inside = omega arith;
    tracks = inv.tracks;
    below = inv.below;
    above = λ i f g' l'. grind (arith, sorted mid i e f g g');
  }

  search_loop-IsLast :
      (fuel lo top : ℕ) (best : Option ℕ)
      → Inv es ip lo top best
      → top - lo ≤ fuel
      → IsLast es ip (search_loop es ip fuel lo top best)
  unfolding search_loop
  search_loop-IsLast zero lo top best inv f = finish lo top best inv (omega arith)
  search_loop-IsLast (suc fuel) lo top best inv f = elim (Bool-cases (ltb lo top)) [
    | inr done ↦ rw done (finish lo top best inv (ground arith))
    | inl more ↦
        let mid : ℕ = lo + (top - 1 - lo) / 2 in
        let l : lo < top = ground arith in
        let n : top ≤ length es = inv.inside in
        let (e, g) = in_table es mid (omega arith) in
        elim (Bool-cases (leb e.addr ip)) [
          | inl c ↦
              rw (more, g, c)
                (search_loop-IsLast fuel (mid + 1) top (some mid)
                  (go_right lo top mid best e inv g (omega arith) (omega arith) (ground arith))
                  (omega arith))
          | inr c ↦
              rw (more, g, c)
                (search_loop-IsLast fuel lo mid best
                  (go_left lo top mid best e inv g (omega arith) (omega arith) (ground arith))
                  (omega arith))
        ]
  ]

-- The entry holds the address: it lies within the symbol, or, for a symbol of unknown size, at
-- most 4096 bytes past its start.
abbrev pub Covers : SymEntry → ℕ → Type 0
Covers e ip =
    (e.addr ≤ ip) × (0 < e.size → ip < e.addr + e.size) × (e.size ≡ 0 → ip ≤ e.addr + 4096)

-- `e` is the last entry of the table that starts at or before `ip`.
abbrev pub Nearest : List SymEntry → ℕ → SymEntry → Type 0
Nearest es ip e =
    (i : ℕ) × (get_elem? es i ≡ some e)
    × (e.addr ≤ ip)
    × ((j : ℕ) (f : SymEntry) → get_elem? es j ≡ some f → i < j → ip < f.addr)

-- What each answer of the lookup says of the table.
abbrev pub Answers : List SymEntry → ℕ → Option SymEntry → Type 0
Answers es ip (some e) = Nearest es ip e × Covers e ip
Answers es ip none = (e : SymEntry) → Nearest es ip e → ¬ Covers e ip

-- No symbol wraps round the end of the address space.
abbrev pub NoWrap : List SymEntry → Type 0
NoWrap es = (i : ℕ) (e : SymEntry) → get_elem? es i ≡ some e → e.addr + e.size < u64

covers_iff :
    (e : SymEntry) (ip : ℕ)
    → e.addr + e.size < u64
    → ip < u64
    → e.addr ≤ ip
    → ((covers e ip ≡ true) → Covers e ip) × (Covers e ip → covers e ip ≡ true)
unfolding covers
covers_iff e ip w h l = (λ c. (l, ground arith, ground arith), λ c. ground (arith, c.1, c.2))

best_entry_read :
    (es : List SymEntry) (ip b : ℕ) (e : SymEntry)
    → get_elem? es b ≡ some e
    → best_entry es ip (some (some b)) ≡ (if covers e ip then some e else none)
unfolding best_entry
best_entry_read es ip b e g = rw (g, best_entry)

best_entry-Answers :
    (es : List SymEntry) (ip : ℕ) (r : Option (Option ℕ))
    → NoWrap es
    → ip < u64
    → IsLast es ip r
    → Answers es ip (best_entry es ip r)
best_entry-Answers es ip none w h last = absurd last
best_entry-Answers es ip (some none) w h last = unfold best_entry in λ e n c. absurd (nothing e n)
  where
    nothing : (e : SymEntry) → Nearest es ip e → ⊥
    nothing e (i, g, l, after) = omega (arith, last i e g)
best_entry-Answers es ip (some (some b)) w h (inside, below, above) =
    let (e, g) = in_table es b inside in
    let l : e.addr ≤ ip = below b e g (omega arith) in
    elim (Bool-cases (covers e ip)) [
      | inl c ↦
          rw (best_entry_read es ip b e g, c)
            ((b, g, l, λ j f g' l'. above j f g' l'), (covers_iff e ip (w b e g) h l).0 c)
      | inr c ↦ rw (best_entry_read es ip b e g, c) (λ f n k. missed e f g l c n k)
    ]
  where
    same : (e f : SymEntry) → get_elem? es b ≡ some e → e.addr ≤ ip → Nearest es ip f → e ≡ f
    same e f g l (i, g', l', after) = elim (Bool-cases (ltb b i)) [
      | inl lt ↦ absurd (ground (arith, above i f g'))
      | inr ge ↦ elim (Bool-cases (ltb i b)) [
        | inl lt ↦ absurd (ground (arith, after b e g))
        | inr ge' ↦ ground arith
      ]
    ]

    missed :
        (e f : SymEntry)
        → get_elem? es b ≡ some e
        → e.addr ≤ ip
        → covers e ip ≡ false
        → Nearest es ip f
        → Covers f ip
        → ⊥
    missed e f g l c n k =
        let eq : e ≡ f = same e f g l n in
        let k' : Covers e ip = rw eq k in let t = (covers_iff e ip (w b e g) h l).1 k' in cc

-- On a sorted table without wrapping symbols, for every address below 2^64, the lookup answers with
-- the last entry that starts at or before the address, and that entry covers the address; it
-- answers none only where the last such entry does not cover the address, or there is no such entry.
pub sym_table_lookup-Answers :
    (st : SymTable) (ip : ℕ)
    → IsSorted st.entries
    → NoWrap st.entries
    → ip < u64
    → Answers st.entries ip (sym_table_lookup st ip)
unfolding sym_table_lookup
sym_table_lookup-Answers st ip sorted w h = best_entry-Answers st.entries ip _ w h (
    search_loop-IsLast st.entries ip sorted (length st.entries) 0 (length st.entries) none
      (start st.entries) (omega arith))
  where
    start : (es : List SymEntry) → Inv es ip 0 (length es) none
    start es = record {
      ordered = omega arith;
      inside = omega arith;
      tracks = unfold Tracks in refl;
      below = λ i e g l. absurd (omega arith);
      above = λ i e g l. absurd (omega (arith, below_length es i e g));
    }

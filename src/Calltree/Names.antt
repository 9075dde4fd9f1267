-- ===== src/Calltree/Names.antt =====
-- Nodes of the call tree by the functions that lead to them, and how a store changes what is found.
use observable_bsd.Prelude.{
  ℕ, zero, suc, ◌+◌, ◌≡◌, ◌⊎◌, refl, ap, sym, ◌∙◌, inl, inr, Bool, true, false, ◌&&◌, Option, none,
  some, List, [], ◌∷◌, ◌==◌, if◌then◌else◌, arith, Bool-cases, Option-cases,
}
use mathlib.Core.Path.{subst}
use observable_bsd.Types.{CStr, same_ptr}
use observable_bsd.Calltree.{
  CtInfo, CtNode, CtNodes, node, nil, cons, info_of, child_at, set_child, node_at, replace_at,
  is_node_of, find_child,
}
use observable_bsd.Calltree.Memory.{child_at-set_child, node_at_inv, replace_at_step}

-- A function, by the pointers to its name and its binary.
abbrev pub Key : Type 0
Key = CStr × CStr

abbrev pub same_key : Key → Key → Bool
same_key k l = same_ptr k.0 l.0 && same_ptr k.1 l.1

-- Two nodes of the same function.
pub record SameName (x y : CtNode) : Type 0 where
  pub name : (info_of y).name ≡ (info_of x).name
  pub binary : (info_of y).binary ≡ (info_of x).binary

-- The first child of a function.
unfoldable pub child_named : Key → CtNodes → Option CtNode
child_named k nil = none
child_named k (cons c cs) = if is_node_of k.0 k.1 c then some c else child_named k cs

-- A number of the node that a path of functions leads to, 0 where there is none.
unfoldable pub value_at : (CtInfo → ℕ) → List Key → CtNode → ℕ
unfolding child_named
value_at f [] t = f (info_of t)
value_at f (k ∷ ks) (node n cs) = elim (child_named k cs) [ none ↦ 0 | some c ↦ value_at f ks c ]

-- The indices lead where the functions do.
unfoldable pub Leads : List Key → List ℕ → CtNode → Type 0
Leads [] [] t = Unit
Leads [] (i ∷ p) t = true ≡ false
Leads (k ∷ ks) [] t = true ≡ false
Leads (k ∷ ks) (i ∷ p) (node n cs) =
    (find_child k.0 k.1 cs ≡ some i) × ((c : CtNode) × (child_at i cs ≡ some c) × Leads ks p c)

is_node_of-same :
    (k : Key) (x y : CtNode) → SameName x y → is_node_of k.0 k.1 y ≡ is_node_of k.0 k.1 x
is_node_of-same k x y s = rw (s.name, s.binary) refl

is_node_of-key :
    (k l : Key) (c : CtNode) → is_node_of k.0 k.1 c ≡ true → is_node_of l.0 l.1 c ≡ same_key k l
is_node_of-key k l c h = ground arith

is_node_of-other :
    (k l : Key) (c : CtNode)
    → is_node_of k.0 k.1 c ≡ false
    → is_node_of l.0 l.1 c ≡ true
    → same_key k l ≡ false
is_node_of-other k l c h m = ground arith

-- What find_child() finds, step by step.
pub find_child_here :
    (k : Key) (c : CtNode) (cs : CtNodes)
    → is_node_of k.0 k.1 c ≡ true
    → find_child k.0 k.1 (cons c cs) ≡ some 0
unfolding find_child
find_child_here k c cs e = rw e refl

pub find_child_later :
    (k : Key) (c : CtNode) (cs : CtNodes) (i : ℕ)
    → is_node_of k.0 k.1 c ≡ false
    → find_child k.0 k.1 cs ≡ some i
    → find_child k.0 k.1 (cons c cs) ≡ some (suc i)
unfolding find_child
find_child_later k c cs i e f = rw (e, f) refl

-- The child that is found: the head, or one behind a head that is another function's.
pub find_child_inv :
    (k : Key) (c : CtNode) (cs : CtNodes) (i : ℕ)
    → find_child k.0 k.1 (cons c cs) ≡ some i
    → ((is_node_of k.0 k.1 c ≡ true) × (i ≡ 0))
      ⊎ ((j : ℕ) × (is_node_of k.0 k.1 c ≡ false) × (find_child k.0 k.1 cs ≡ some j) × (i ≡ suc j))
unfolding find_child
find_child_inv k c cs i h = elim (Bool-cases (is_node_of k.0 k.1 c)) [
  | inl e ↦ inl (e, ground arith)
  | inr e ↦ elim (Option-cases (find_child k.0 k.1 cs)) [
    | inl f ↦ absurd (ground arith)
    | inr (j, f) ↦ inr (j, e, f, ground arith)
  ]
]

-- A store of a node of the same function in the place of a child.
module _ (c x : CtNode) (same : SameName c x) where
  pub find_child-set_child :
      (l : Key) (i : ℕ) (cs : CtNodes)
      → child_at i cs ≡ some c
      → find_child l.0 l.1 (set_child i x cs) ≡ find_child l.0 l.1 cs
  unfolding find_child set_child child_at
  find_child-set_child l i nil h = refl
  find_child-set_child l zero (cons d cs) h =
      let e : d ≡ c = ground arith in
      let m = is_node_of-same l c x same ∙ ap (is_node_of l.0 l.1) (sym e) in rw m refl
  find_child-set_child l (suc i) (cons d cs) h = rw (find_child-set_child l i cs h) refl

  pub child_named-set_child :
      (k l : Key) (i : ℕ) (cs : CtNodes)
      → find_child k.0 k.1 cs ≡ some i
      → child_at i cs ≡ some c
      → child_named l (set_child i x cs) ≡ (if same_key k l then some x else child_named l cs)
  unfolding child_named set_child child_at
  child_named-set_child k l i nil f h = ground arith
  child_named-set_child k l zero (cons d cs) f h =
      let e : d ≡ c = ground arith in
      elim (find_child_inv k d cs 0 f) [
        | inr (j, a, b, u) ↦ absurd (ground arith)
        | inl (a, u) ↦
            let m = is_node_of-key k l d a in
            let n = is_node_of-same l c x same ∙ ap (is_node_of l.0 l.1) (sym e) ∙ m in
            rw (n, m) (ground arith)
      ]
  child_named-set_child k l (suc i) (cons d cs) f h = elim (find_child_inv k d cs (suc i) f) [
    | inl (a, u) ↦ absurd (ground arith)
    | inr (j, a, b, u) ↦
        let v : find_child k.0 k.1 cs ≡ some i = ground arith in
        let r = child_named-set_child k l i cs v h in
        elim (Bool-cases (is_node_of l.0 l.1 d)) [
          | inl m ↦ rw (m, is_node_of-other k l d a m) refl
          | inr m ↦ rw m r
        ]
  ]

pub child_named-found :
    (k l : Key) (i : ℕ) (c : CtNode) (cs : CtNodes)
    → find_child k.0 k.1 cs ≡ some i
    → child_at i cs ≡ some c
    → same_key k l ≡ true
    → child_named l cs ≡ some c
unfolding child_named child_at
child_named-found k l i c nil f h s = ground arith
child_named-found k l i c (cons d cs) f h s = elim (find_child_inv k d cs i f) [
  | inl (a, u) ↦
      let m : is_node_of l.0 l.1 d ≡ true = is_node_of-key k l d a ∙ s in
      rw m (ap (λ j. child_at j (cons d cs)) (sym u) ∙ h)
  | inr (j, a, b, u) ↦ elim (Bool-cases (is_node_of l.0 l.1 d)) [
    | inl m ↦ let n = is_node_of-other k l d a m in absurd (ground arith)
    | inr m ↦ rw m (child_named-found k l j c cs b (ap (λ q. child_at q (cons d cs)) (sym u) ∙ h) s)
  ]
]

pub replace_at-SameName :
    (p : List ℕ) (t x y : CtNode)
    → node_at p t ≡ some y
    → SameName y x
    → SameName t (replace_at p x t)
unfolding replace_at node_at
replace_at-SameName [] t x y h s =
    let e : t ≡ y = ground arith in
    record {
      name = s.name ∙ ap (λ u. (info_of u).name) (sym e);
      binary = s.binary ∙ ap (λ u. (info_of u).binary) (sym e);
    }
replace_at-SameName (i ∷ p) (node n cs) x y h s =
    let (c, e, f) = node_at_inv i p n cs y h in
    rw (replace_at_step i p x n cs c e) (record { name = refl; binary = refl })

-- Where a store keeps what functions lead to below the node, it keeps what they lead to.
pub replace_at-Leads :
    (p : List ℕ) (t x y : CtNode)
    → node_at p t ≡ some y
    → SameName y x
    → ((ks : List Key) (q : List ℕ) → Leads ks q y → Leads ks q x)
    → (ks : List Key) (q : List ℕ) → Leads ks q t
    → Leads ks q (replace_at p x t)
unfolding replace_at node_at Leads
replace_at-Leads [] t x y h s g ks q l =
    let e : t ≡ y = ground arith in g ks q (subst (Leads ks q) e l)
replace_at-Leads (i ∷ p) t x y h s g [] [] l = tt
replace_at-Leads (i ∷ p) t x y h s g [] (j ∷ q) l = l
replace_at-Leads (i ∷ p) t x y h s g (k ∷ ks) [] l = l
replace_at-Leads (i ∷ p) (node n cs) x y h s g (k ∷ ks) (j ∷ q) (f, (d, a, l)) =
    let (c, e, m) = node_at_inv i p n cs y h in
    let same = replace_at-SameName p c x y m s in
    let found = find_child-set_child c (replace_at p x c) same k i cs e ∙ f in
    let there = child_at-set_child i j (replace_at p x c) c cs e in
    rw (replace_at_step i p x n cs c e) (elim (Bool-cases (i == j)) [
      | inl u ↦
          let ij : i ≡ j = ground arith in
          let cd : some c ≡ some d = sym e ∙ ap (λ v. child_at v cs) ij ∙ a in
          let dc : d ≡ c = ground arith in
          (
            found,
            (
              replace_at p x c,
              rw u at there,
              replace_at-Leads p c x y m s g ks q (subst (Leads ks q) dc l),
            ),
          )
      | inr u ↦ (found, (d, rw u at there ∙ a, l))
    ])

-- What a store at the end of `ks` adds to the value behind a path, where it adds `g` below the node.
unfoldable pub under : List Key → (List Key → ℕ) → List Key → ℕ
under [] g ls = g ls
under (k ∷ ks) g [] = 0
under (k ∷ ks) g (l ∷ ls) = if same_key k l then under ks g ls else 0

pub value_at-replace_at :
    (f : CtInfo → ℕ) (g : List Key → ℕ) (ks : List Key) (p : List ℕ) (t x y : CtNode)
    → Leads ks p t
    → node_at p t ≡ some y
    → SameName y x
    → ((ls : List Key) → value_at f ls x ≡ value_at f ls y + g ls)
    → (ls : List Key) → value_at f ls (replace_at p x t) ≡ value_at f ls t + under ks g ls
unfolding value_at Leads under replace_at node_at
value_at-replace_at f g [] [] t x y l h s v ls =
    let e : y ≡ t = ground arith in v ls ∙ ap (λ u. value_at f ls u + g ls) e
value_at-replace_at f g [] (i ∷ p) t x y l h s v ls = absurd (ground arith)
value_at-replace_at f g (k ∷ ks) [] t x y l h s v ls = absurd (ground arith)
value_at-replace_at f g (k ∷ ks) (i ∷ p) (node n cs) x y l h s v [] =
    let (c, e, m) = node_at_inv i p n cs y h in rw (replace_at_step i p x n cs c e) (omega arith)
value_at-replace_at f g (k ∷ ks) (i ∷ p) (node n cs) x y (b, (d, a, l)) h s v (j ∷ ls) =
    let (c, e, m) = node_at_inv i p n cs y h in
    let same = replace_at-SameName p c x y m s in
    let named = child_named-set_child c (replace_at p x c) same k j i cs b e in
    let cd : some c ≡ some d = sym e ∙ a in
    let dc : d ≡ c = ground arith in
    let r = value_at-replace_at f g ks p c x y (subst (Leads ks p) dc l) m s v ls in
    rw (replace_at_step i p x n cs c e) (elim (Bool-cases (same_key k j)) [
      | inl u ↦
          let old = child_named-found k j i c cs b e u in rw (value_at, rw u at named, old, u) r
      | inr u ↦ rw (value_at, rw u at named, u) (omega arith)
    ])

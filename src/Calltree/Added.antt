-- ===== src/Calltree/Added.antt =====
-- ct_find_or_add_child() while there is memory: the child is there, and nothing else changes.
use observable_bsd.Prelude.{
  ℕ, zero, suc, ◌≡◌, refl, ap, sym, ◌∙◌, inl, inr, Bool, true, none, some, List, [], ◌∷◌, leb,
  if◌then◌else◌, arith, Bool-cases, Option-cases,
}
use observable_bsd.Types.{CStr}
use observable_bsd.Calltree.{
  CtInfo, CtNode, CtNodes, node, nil, cons, info_of, children_of, count_nodes, child_at, is_node_of,
  find_child, add_last, ct_node_init, add_child, ct_find_or_add_child,
}
use observable_bsd.Calltree.Names.{
  Key, SameName, child_named, value_at, Leads, find_child_inv, find_child_here, find_child_later,
}
use observable_bsd.Calltree.Memory.{child_at_below}
use observable_bsd.Calltree.Live.{find_child_below}

module _ (x : CtNode) where
  find_child-add_last :
      (l : Key) (i : ℕ) (cs : CtNodes)
      → find_child l.0 l.1 cs ≡ some i
      → find_child l.0 l.1 (add_last cs x) ≡ some i
  unfolding add_last find_child
  find_child-add_last l i nil h = ground arith
  find_child-add_last l i (cons c cs) h = elim (find_child_inv l c cs i h) [
    | inl (a, u) ↦ find_child_here l c (add_last cs x) a ∙ ap some (sym u)
    | inr (j, a, b, u) ↦
        find_child_later l c (add_last cs x) j a (find_child-add_last l j cs b) ∙ ap some (sym u)
  ]

  find_child-last :
      (l : Key) (cs : CtNodes)
      → is_node_of l.0 l.1 x ≡ true
      → find_child l.0 l.1 cs ≡ none
      → find_child l.0 l.1 (add_last cs x) ≡ some (count_nodes cs)
  unfolding add_last find_child
  find_child-last l nil e h = rw e refl
  find_child-last l (cons c cs) e h = elim (Bool-cases (is_node_of l.0 l.1 c)) [
    | inl a ↦ absurd (ground arith)
    | inr a ↦ elim (Option-cases (find_child l.0 l.1 cs)) [
      | inl b ↦ rw (a, find_child-last l cs e b) refl
      | inr (j, b) ↦ absurd (ground arith)
    ]
  ]

  child_at-add_last :
      (i : ℕ) (c : CtNode) (cs : CtNodes)
      → child_at i cs ≡ some c
      → child_at i (add_last cs x) ≡ some c
  unfolding add_last child_at
  child_at-add_last i c nil h = ground arith
  child_at-add_last zero c (cons d cs) h = h
  child_at-add_last (suc i) c (cons d cs) h = child_at-add_last i c cs h

  child_at-last : (cs : CtNodes) → child_at (count_nodes cs) (add_last cs x) ≡ some x
  unfolding add_last child_at
  child_at-last nil = refl
  child_at-last (cons d cs) = child_at-last cs

  child_named-add_last :
      (l : Key) (cs : CtNodes)
      → child_named l (add_last cs x) ≡ elim (child_named l cs) [
        | none ↦ if is_node_of l.0 l.1 x then some x else none
        | some c ↦ some c
      ]
  unfolding add_last child_named
  child_named-add_last l nil = refl
  child_named-add_last l (cons c cs) = elim (Bool-cases (is_node_of l.0 l.1 c)) [
    | inl a ↦ rw a refl
    | inr a ↦ rw a (child_named-add_last l cs)
  ]

  -- A new child with value 0 throughout, behind the others.
  value_at-add_last :
      (f : CtInfo → ℕ) (n m : CtInfo) (cs : CtNodes)
      → f m ≡ f n
      → ((ls : List Key) → value_at f ls x ≡ 0)
      → (ls : List Key) → value_at f ls (node m (add_last cs x)) ≡ value_at f ls (node n cs)
  unfolding value_at
  value_at-add_last f n m cs e z [] = e
  value_at-add_last f n m cs e z (l ∷ ls) =
      let q = child_named-add_last l cs in
      elim (Option-cases (child_named l cs)) [
        | inr (c, a) ↦ let r = rw a at q in rw (value_at, a, r) refl
        | inl a ↦ elim (Bool-cases (is_node_of l.0 l.1 x)) [
          | inl b ↦ let r = rw (a, b) at q in rw (value_at, a, r) (z ls)
          | inr b ↦ let r = rw (a, b) at q in rw (value_at, a, r) refl
        ]
      ]

pub value_at-init :
    (f : CtInfo → ℕ) (name binary : CStr)
    → f (info_of (ct_node_init name binary)) ≡ 0
    → (ls : List Key) → value_at f ls (ct_node_init name binary) ≡ 0
unfolding value_at child_named ct_node_init
value_at-init f name binary e [] = e
value_at-init f name binary e (l ∷ ls) = refl

-- A number of a node that neither the array of its children nor a new node has.
pub record IsTally (f : CtInfo → ℕ) : Type 0 where
  pub starts : (name binary : CStr) → f (info_of (ct_node_init name binary)) ≡ 0
  pub moves : (n : CtInfo) (b c : ℕ) → f (record n { block = b; children_cap = c }) ≡ f n

-- The parent `z` is `y` with the child of `k` at the index `i`.
pub record IsParent (f : CtInfo → ℕ) (k : Key) (y z : CtNode) (i : ℕ) : Type 0 where
  pub found : find_child k.0 k.1 (children_of z) ≡ some i
  pub there : (c : CtNode) × (child_at i (children_of z) ≡ some c)
  pub same : SameName y z
  pub leads : (ks : List Key) (q : List ℕ) → Leads ks q y → Leads ks q z
  pub values : (ls : List Key) → value_at f ls z ≡ value_at f ls y

module _ (f : CtInfo → ℕ) (tally : IsTally f) (k : Key) where
  added-IsParent :
      (n m : CtInfo) (cs : CtNodes)
      → m.name ≡ n.name
      → m.binary ≡ n.binary
      → f m ≡ f n
      → find_child k.0 k.1 cs ≡ none
      → IsParent f k (node n cs) (node m (add_last cs (ct_node_init k.0 k.1))) (count_nodes cs)
  unfolding Leads
  added-IsParent n m cs a b e h =
      let x = ct_node_init k.0 k.1 in
      let own : is_node_of k.0 k.1 x ≡ true = unfold ct_node_init in ground arith in
      record {
        found = find_child-last x k cs own h;
        there = (x, child_at-last x cs);
        same = record { name = a; binary = b };
        leads = leads x;
        values = value_at-add_last x f n m cs e (value_at-init f k.0 k.1 (tally.starts k.0 k.1));
      }
    where
      leads :
          (x : CtNode) (ks : List Key) (q : List ℕ)
          → Leads ks q (node n cs)
          → Leads ks q (node m (add_last cs x))
      leads x [] [] l = tt
      leads x [] (j ∷ q) l = l
      leads x (i ∷ ks) [] l = l
      leads x (i ∷ ks) (j ∷ q) (g, (c, d, l)) =
          (find_child-add_last x i j cs g, (c, child_at-add_last x j c cs d, l))

  add_child-IsParent :
      (y : CtNode)
      → find_child k.0 k.1 (children_of y) ≡ none
      → (i : ℕ) × ((add_child true y k.0 k.1).1 ≡ some i)
        × IsParent f k y (add_child true y k.0 k.1).0 i
  unfolding add_child
  add_child-IsParent (node n cs) h = elim (Bool-cases (leb n.children_cap (count_nodes cs))) [
    | inl e ↦
        rw e
          (count_nodes cs, refl, added-IsParent n _ cs refl refl (tally.moves n (suc n.block) _) h)
    | inr e ↦ rw e (count_nodes cs, refl, added-IsParent n n cs refl refl refl h)
  ]

  pub find_or_add-IsParent :
      (y : CtNode)
      → (i : ℕ) × ((ct_find_or_add_child true y k.0 k.1).1 ≡ some i)
        × IsParent f k y (ct_find_or_add_child true y k.0 k.1).0 i
  unfolding ct_find_or_add_child
  find_or_add-IsParent y = elim (Option-cases (find_child k.0 k.1 (children_of y))) [
    | inl e ↦ rw (e, ct_find_or_add_child) (add_child-IsParent y e)
    | inr (i, e) ↦
        rw (e, ct_find_or_add_child)
          (
            i,
            refl,
            record {
              found = e;
              there =
                  child_at_below i (children_of y) (find_child_below k.0 k.1 (children_of y) i e);
              same = record { name = refl; binary = refl };
              leads = λ ks q l. l;
              values = λ ls. refl;
            },
          )
  ]

  pub find_or_add_grown :
      (grown : Bool) (y : CtNode)
      → grown ≡ true
      → (i : ℕ) × ((ct_find_or_add_child grown y k.0 k.1).1 ≡ some i)
        × IsParent f k y (ct_find_or_add_child grown y k.0 k.1).0 i
  find_or_add_grown grown y g = rw g (find_or_add-IsParent y)

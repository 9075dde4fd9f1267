-- ===== src/Callers/Stored.antt =====
-- How the stores of the call tree change the calls of a function, and what they leave of its names.
use observable_bsd.Prelude.{
  ℕ, zero, suc, ◌+◌, ◌≡◌, refl, ap, sym, ◌∙◌, inl, inr, Bool, true, some, List, [], ◌∷◌, Bytes, leb,
  if◌then◌else◌, arith, Bool-cases, Option-cases,
}
use mathlib.Core.Path.{subst}
use observable_bsd.Types.{CStr}
use observable_bsd.Calltree.{
  CtNode, CtNodes, node, nil, cons, info_of, children_of, count_nodes, child_at, set_child, node_at,
  replace_at, add_last, ct_node_init, is_node_of, find_child, add_child, ct_find_or_add_child,
  enter_node, leave_node, leave_info,
}
use observable_bsd.Calltree.Memory.{node_at_inv, replace_at_step}
use observable_bsd.Calltree.Names.{Key, find_child_inv}
use observable_bsd.Callers.Edges.{Function, same_text, function_of}
use observable_bsd.Callers.Totals.{counted, calls_to, calls_to_children}

calls_to-set_child :
    (k : Function) (i : ℕ) (x c : CtNode) (cs : CtNodes)
    → child_at i cs ≡ some c
    → calls_to_children k (set_child i x cs) + calls_to k c ≡ calls_to_children k cs + calls_to k x
unfolding child_at set_child calls_to
calls_to-set_child k i x c nil h = ground arith
calls_to-set_child k zero x c (cons d cs) h =
    let e : d ≡ c = ground arith in let q = ap (calls_to k) e in omega arith
calls_to-set_child k (suc i) x c (cons d cs) h = omega (arith, calls_to-set_child k i x c cs h)

-- A store changes the calls by what it changes at the node.
pub calls_to-replace_at :
    (k : Function) (p : List ℕ) (t x y : CtNode)
    → node_at p t ≡ some y
    → calls_to k (replace_at p x t) + calls_to k y ≡ calls_to k t + calls_to k x
unfolding node_at replace_at calls_to
calls_to-replace_at k [] t x y h =
    let e : t ≡ y = ground arith in let q = ap (calls_to k) e in omega arith
calls_to-replace_at k (i ∷ p) (node n cs) x y h =
    let (c, e, m) = node_at_inv i p n cs y h in
    let a = calls_to-replace_at k p c x y m in
    let b = calls_to-set_child k i (replace_at p x c) c cs e in
    rw (replace_at_step i p x n cs c e) (omega (arith, a, b))

calls_to-add_last :
    (k : Function) (cs : CtNodes) (x : CtNode)
    → calls_to_children k (add_last cs x) ≡ calls_to_children k cs + calls_to k x
unfolding add_last calls_to
calls_to-add_last k nil x = omega arith
calls_to-add_last k (cons c cs) x = omega (arith, calls_to-add_last k cs x)

pub calls_to-init : (k : Function) (name binary : CStr) → calls_to k (ct_node_init name binary) ≡ 0
unfolding calls_to ct_node_init counted
calls_to-init k name binary = ground arith

calls_to-add_child :
    (k : Function) (grown : Bool) (y : CtNode) (name binary : CStr)
    → calls_to k (add_child grown y name binary).0 ≡ calls_to k y
unfolding add_child calls_to counted
calls_to-add_child k grown (node n cs) name binary =
    let a = calls_to-add_last k cs (ct_node_init name binary) in
    let z = calls_to-init k name binary in
    elim (Bool-cases (leb n.children_cap (count_nodes cs))) [
      | inr e ↦ rw e (omega (arith, a, z))
      | inl e ↦ elim (Bool-cases grown) [
        | inl g ↦ rw (e, g) (omega (arith, a, z))
        | inr g ↦ rw (e, g) refl
      ]
    ]

-- A new child has no calls.
pub calls_to-find_or_add :
    (k : Function) (grown : Bool) (y : CtNode) (name binary : CStr)
    → calls_to k (ct_find_or_add_child grown y name binary).0 ≡ calls_to k y
unfolding ct_find_or_add_child
calls_to-find_or_add k grown y name binary =
    elim (Option-cases (find_child name binary (children_of y))) [
      | inl e ↦ rw (e, ct_find_or_add_child) (calls_to-add_child k grown y name binary)
      | inr (i, e) ↦ rw (e, ct_find_or_add_child) refl
    ]

pub calls_to-enter_node :
    (k : Function) (tsc : ℕ) (c : CtNode)
    → calls_to k (enter_node tsc c)
      ≡ calls_to k c + (if same_text k (function_of (info_of c)) then 1 else 0)
unfolding enter_node calls_to counted
calls_to-enter_node k tsc (node n cs) = ground arith

pub calls_to-leave_node :
    (k : Function) (tsc : ℕ) (c : CtNode) → calls_to k (leave_node tsc c) ≡ calls_to k c
unfolding leave_node leave_info calls_to counted
calls_to-leave_node k tsc (node n cs) = ground arith

-- The strings of the trace do not change: a pointer has one text.
abbrev pub HasText : (ℕ → Bytes) → CStr → Type 0
HasText text s = s.text ≡ text s.loc

unfoldable mutual
  pub AllText : (ℕ → Bytes) → CtNode → Type 0
  AllText text (node n cs) = HasText text n.name × HasText text n.binary × ChildrenText text cs

  pub ChildrenText : (ℕ → Bytes) → CtNodes → Type 0
  ChildrenText text nil = Unit
  ChildrenText text (cons c cs) = AllText text c × ChildrenText text cs

module _ (text : ℕ → Bytes) where
  ChildrenText-child :
      (i : ℕ) (c : CtNode) (cs : CtNodes)
      → ChildrenText text cs
      → child_at i cs ≡ some c
      → AllText text c
  unfolding child_at AllText
  ChildrenText-child i c nil a h = ground arith
  ChildrenText-child zero c (cons d cs) a h =
      let e : d ≡ c = ground arith in subst (AllText text) e a.0
  ChildrenText-child (suc i) c (cons d cs) a h = ChildrenText-child i c cs a.1 h

  ChildrenText-set_child :
      (i : ℕ) (x : CtNode) (cs : CtNodes)
      → ChildrenText text cs
      → AllText text x
      → ChildrenText text (set_child i x cs)
  unfolding set_child AllText
  ChildrenText-set_child i x nil a b = tt
  ChildrenText-set_child zero x (cons d cs) a b = (b, a.1)
  ChildrenText-set_child (suc i) x (cons d cs) a b = (a.0, ChildrenText-set_child i x cs a.1 b)

  ChildrenText-add_last :
      (x : CtNode) (cs : CtNodes)
      → ChildrenText text cs
      → AllText text x
      → ChildrenText text (add_last cs x)
  unfolding add_last AllText
  ChildrenText-add_last x nil a b = (b, tt)
  ChildrenText-add_last x (cons d cs) a b = (a.0, ChildrenText-add_last x cs a.1 b)

  pub AllText-node_at :
      (p : List ℕ) (t y : CtNode) → AllText text t → node_at p t ≡ some y → AllText text y
  unfolding node_at AllText
  AllText-node_at [] t y a h = let e : t ≡ y = ground arith in subst (AllText text) e a
  AllText-node_at (i ∷ p) (node n cs) y a h =
      let (c, e, m) = node_at_inv i p n cs y h in
      AllText-node_at p c y (ChildrenText-child i c cs a.2 e) m

  pub AllText-replace_at :
      (p : List ℕ) (t x y : CtNode)
      → AllText text t
      → AllText text x
      → node_at p t ≡ some y
      → AllText text (replace_at p x t)
  unfolding node_at replace_at AllText
  AllText-replace_at [] t x y a b h = b
  AllText-replace_at (i ∷ p) (node n cs) x y a b h =
      let (c, e, m) = node_at_inv i p n cs y h in
      let v = AllText-replace_at p c x y (ChildrenText-child i c cs a.2 e) b m in
      rw (replace_at_step i p x n cs c e)
        (a.0, a.1, ChildrenText-set_child i (replace_at p x c) cs a.2 v)

  AllText-add_child :
      (grown : Bool) (y : CtNode) (name binary : CStr)
      → AllText text y
      → HasText text name
      → HasText text binary
      → AllText text (add_child grown y name binary).0
  unfolding add_child AllText ct_node_init
  AllText-add_child grown (node n cs) name binary a p q =
      let b = ChildrenText-add_last (ct_node_init name binary) cs a.2 (p, q, tt) in
      elim (Bool-cases (leb n.children_cap (count_nodes cs))) [
        | inr e ↦ rw e (a.0, a.1, b)
        | inl e ↦ elim (Bool-cases grown) [ inl g ↦ rw (e, g) (a.0, a.1, b) | inr g ↦ rw (e, g) a ]
      ]

  pub AllText-find_or_add :
      (grown : Bool) (y : CtNode) (name binary : CStr)
      → AllText text y
      → HasText text name
      → HasText text binary
      → AllText text (ct_find_or_add_child grown y name binary).0
  unfolding ct_find_or_add_child
  AllText-find_or_add grown y name binary a p q =
      elim (Option-cases (find_child name binary (children_of y))) [
        | inl e ↦ rw (e, ct_find_or_add_child) (AllText-add_child grown y name binary a p q)
        | inr (i, e) ↦ rw (e, ct_find_or_add_child) a
      ]

  pub AllText-enter_node : (tsc : ℕ) (c : CtNode) → AllText text c → AllText text (enter_node tsc c)
  unfolding enter_node AllText
  AllText-enter_node tsc (node n cs) a = a

  pub AllText-leave_node : (tsc : ℕ) (c : CtNode) → AllText text c → AllText text (leave_node tsc c)
  unfolding leave_node leave_info AllText
  AllText-leave_node tsc (node n cs) (a, b, c) = (ground arith, ground arith, c)

-- The child that find_child() finds is of the function.
pub find_child_is :
    (k : Key) (i : ℕ) (c : CtNode) (cs : CtNodes)
    → find_child k.0 k.1 cs ≡ some i
    → child_at i cs ≡ some c
    → is_node_of k.0 k.1 c ≡ true
unfolding child_at
find_child_is k i c nil f h = ground arith
find_child_is k i c (cons d cs) f h = elim (find_child_inv k d cs i f) [
  | inl (a, u) ↦
      let e : some d ≡ some c = ap (λ j. child_at j (cons d cs)) (sym u) ∙ h in
      let q : d ≡ c = ground arith in ap (is_node_of k.0 k.1) (sym q) ∙ a
  | inr (j, a, b, u) ↦ find_child_is k j c cs b (ap (λ q. child_at q (cons d cs)) (sym u) ∙ h)
]

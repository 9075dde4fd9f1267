-- ===== src/Calltree/Memory.antt =====
-- The memory of the call tree: what a store leaves as it was.
use observable_bsd.Prelude.{
  ℕ, zero, suc, ◌<◌, ◌≤◌, ◌≡◌, refl, ap, sym, ◌∙◌, inl, inr, true, false, some, List, [], ◌∷◌, ◌++◌,
  ◌==◌, if◌then◌else◌, length, length-append, arith, Bool-cases, Option-cases,
}
use observable_bsd.Calltree.{
  CtInfo, CtNode, CtNodes, node, nil, cons, NodePtr, root, elem_of, info_of, children_of,
  count_nodes, child_at, set_child, node_at, replace_at, path_of, deref, store,
}

pub count_nodes-set_child :
    (i : ℕ) (x : CtNode) (cs : CtNodes) → count_nodes (set_child i x cs) ≡ count_nodes cs
unfolding set_child
count_nodes-set_child i x nil = refl
count_nodes-set_child zero x (cons c cs) = refl
count_nodes-set_child (suc i) x (cons c cs) = ap suc (count_nodes-set_child i x cs)

pub child_at-set_child :
    (i j : ℕ) (x c : CtNode) (cs : CtNodes)
    → child_at i cs ≡ some c
    → child_at j (set_child i x cs) ≡ (if i == j then some x else child_at j cs)
unfolding child_at set_child
child_at-set_child i j x c nil h = ground arith
child_at-set_child zero zero x c (cons d cs) h = ground arith
child_at-set_child zero (suc j) x c (cons d cs) h = ground arith
child_at-set_child (suc i) zero x c (cons d cs) h = ground arith
child_at-set_child (suc i) (suc j) x c (cons d cs) h =
    child_at-set_child i j x c cs h ∙ ground arith

pub child_at_below :
    (i : ℕ) (cs : CtNodes) → i < count_nodes cs → (c : CtNode) × (child_at i cs ≡ some c)
unfolding child_at
child_at_below i nil h = absurd (omega arith)
child_at_below zero (cons c cs) h = (c, refl)
child_at_below (suc i) (cons c cs) h = child_at_below i cs (omega arith)

-- The steps of node_at() and replace_at() into a child.
pub node_at_step :
    (i : ℕ) (p : List ℕ) (n : CtInfo) (cs : CtNodes) (c : CtNode)
    → child_at i cs ≡ some c
    → node_at (i ∷ p) (node n cs) ≡ node_at p c
unfolding node_at
node_at_step i p n cs c e = rw (e, node_at) refl

pub replace_at_step :
    (i : ℕ) (p : List ℕ) (x : CtNode) (n : CtInfo) (cs : CtNodes) (c : CtNode)
    → child_at i cs ≡ some c
    → replace_at (i ∷ p) x (node n cs) ≡ node n (set_child i (replace_at p x c) cs)
unfolding replace_at
replace_at_step i p x n cs c e = rw (e, replace_at) refl

-- A node that indices lead to is behind a child.
pub node_at_inv :
    (i : ℕ) (p : List ℕ) (n : CtInfo) (cs : CtNodes) (y : CtNode)
    → node_at (i ∷ p) (node n cs) ≡ some y
    → (c : CtNode) × (child_at i cs ≡ some c) × (node_at p c ≡ some y)
unfolding node_at
node_at_inv i p n cs y h = elim (Option-cases (child_at i cs)) [
  | inl e ↦ absurd (ground arith)
  | inr (c, e) ↦ (c, e, sym (node_at_step i p n cs c e) ∙ h)
]

pub node_at-append :
    (p : List ℕ) (i : ℕ) (t x c : CtNode)
    → node_at p t ≡ some x
    → child_at i (children_of x) ≡ some c
    → node_at (p ++ i ∷ []) t ≡ some c
unfolding node_at
node_at-append [] i (node n cs) x c h e =
    let q : node n cs ≡ x = ground arith in
    node_at_step i [] n cs c (ap (λ y. child_at i (children_of y)) q ∙ e)
node_at-append (j ∷ p) i (node n cs) x c h e =
    let (d, f, g) = node_at_inv j p n cs x h in
    node_at_step j (p ++ i ∷ []) n cs d f ∙ node_at-append p i d x c g e

-- What was stored is found.
pub node_at-replace_at :
    (p : List ℕ) (x t y : CtNode) → node_at p t ≡ some y → node_at p (replace_at p x t) ≡ some x
unfolding node_at replace_at
node_at-replace_at [] x t y h = refl
node_at-replace_at (i ∷ p) x (node n cs) y h =
    let (c, e, g) = node_at_inv i p n cs y h in
    let s = child_at-set_child i i (replace_at p x c) c cs e in
    let z : (i == i) ≡ true = ground arith in
    rw (replace_at_step i p x n cs c e)
      (node_at_step i p n _ (replace_at p x c) (rw z at s) ∙ node_at-replace_at p x c y g)

-- The node has an array of the same number, with as many children.
pub record SameShape (x y : CtNode) : Type 0 where
  pub block : (info_of y).block ≡ (info_of x).block
  pub size : count_nodes (children_of y) ≡ count_nodes (children_of x)

-- Where indices lead to `x`, they lead in `t` to a node of the same shape.
abbrev pub IsKept : List ℕ → CtNode → CtNode → Type 0
IsKept q t x = (y : CtNode) × (node_at q t ≡ some y) × SameShape x y

-- The owners that a store at `p` keeps, where it keeps those of `Ok` below the node.
unfoldable pub OkAt : (List ℕ → Type 0) → List ℕ → List ℕ → Type 0
OkAt Ok [] q = Ok q
OkAt Ok (i ∷ p) [] = Unit
OkAt Ok (i ∷ p) (j ∷ q) = OkAt Ok p q

module _ (Ok : List ℕ → Type 0) (x : CtNode) where
  replace_at-IsKept :
      (p : List ℕ) (t y : CtNode)
      → node_at p t ≡ some y
      → ((q : List ℕ) (z : CtNode) → Ok q → node_at q y ≡ some z → IsKept q x z)
      → (q : List ℕ) (z : CtNode) → OkAt Ok p q
      → node_at q t ≡ some z
      → IsKept q (replace_at p x t) z
  unfolding replace_at OkAt node_at
  replace_at-IsKept [] t y h k q z o e =
      let w : t ≡ y = ground arith in k q z o (ap (node_at q) (sym w) ∙ e)
  replace_at-IsKept (i ∷ p) (node n cs) y h k [] z o e =
      let (c, f, g) = node_at_inv i p n cs y h in
      let w : node n cs ≡ z = ground arith in
      rw (replace_at_step i p x n cs c f, ← w)
        (_, refl, record { block = refl; size = count_nodes-set_child i (replace_at p x c) cs })
  replace_at-IsKept (i ∷ p) (node n cs) y h k (j ∷ q) z o e =
      let (c, f, g) = node_at_inv i p n cs y h in
      let (d, a, b) = node_at_inv j q n cs z e in
      let s = child_at-set_child i j (replace_at p x c) c cs f in
      rw (replace_at_step i p x n cs c f) (elim (Bool-cases (i == j)) [
        | inl u ↦
            let ij : i ≡ j = ground arith in
            let cd : some c ≡ some d = sym f ∙ ap (λ l. child_at l cs) ij ∙ a in
            let dc : d ≡ c = ground arith in
            let (v, m, r) = replace_at-IsKept p c y g k q z o (ap (node_at q) (sym dc) ∙ b) in
            (v, node_at_step j q n _ (replace_at p x c) (rw u at s) ∙ m, r)
        | inr u ↦
            (z, node_at_step j q n _ d (rw u at s ∙ a) ∙ b, record { block = refl; size = refl })
      ])

-- What the pointer names is there.
unfoldable pub IsLive : CtNode → NodePtr → Type 0
IsLive t root = Unit
IsLive t (elem_of owner block i) =
    (x : CtNode) × (node_at owner t ≡ some x)
    × ((info_of x).block ≡ block)
    × (i < count_nodes (children_of x))

-- A live pointer is followed to its node.
pub deref-IsLive :
    (t : CtNode) (ptr : NodePtr)
    → IsLive t ptr
    → (x : CtNode) × (deref t ptr ≡ some x) × (node_at (path_of ptr) t ≡ some x)
unfolding deref IsLive
deref-IsLive t root l = (t, refl, unfold node_at in refl)
deref-IsLive t (elem_of owner block i) (x, e, b, h) =
    let (c, f) = child_at_below i (children_of x) h in
    let z : ((info_of x).block == block) ≡ true = ground arith in
    (c, rw (e, deref, z) f, node_at-append owner i t x c e f)

pub store-IsLive :
    (t x : CtNode) (ptr : NodePtr)
    → IsLive t ptr
    → store t ptr x ≡ some (replace_at (path_of ptr) x t)
unfolding store
store-IsLive t x ptr l = let (y, e, f) = deref-IsLive t ptr l in rw (e, store) refl

-- The slots of the shadow stack, the top first: each names what is there, as deep in the tree as in
-- the stack.
unfoldable pub AllLive : CtNode → List NodePtr → Type 0
AllLive t [] = Unit
AllLive t (p ∷ ps) = (length (path_of p) ≡ length ps) × IsLive t p × AllLive t ps

IsLive-kept :
    (t t' : CtNode) (m : ℕ) (p : NodePtr)
    → ((q : List ℕ) (z : CtNode) → length q < m → node_at q t ≡ some z → IsKept q t' z)
    → length (path_of p) ≤ m
    → IsLive t p
    → IsLive t' p
unfolding IsLive
IsLive-kept t t' m root k h l = tt
IsLive-kept t t' m (elem_of owner block i) k h (x, e, b, u) =
    let (y, f, s) = k owner x (omega (arith, length-append owner (i ∷ []))) e in
    (y, f, s.block ∙ b, omega (arith, s.size))

pub AllLive-kept :
    (t t' : CtNode) (m : ℕ) (ps : List NodePtr)
    → ((q : List ℕ) (z : CtNode) → length q < m → node_at q t ≡ some z → IsKept q t' z)
    → length ps ≤ suc m
    → AllLive t ps
    → AllLive t' ps
unfolding AllLive
AllLive-kept t t' m [] k h l = tt
AllLive-kept t t' m (p ∷ ps) k h (e, v, l) =
    (e, IsLive-kept t t' m p k (omega arith) v, AllLive-kept t t' m ps k (omega arith) l)

above_OkAt : (p q : List ℕ) → length q < length p → OkAt (λ r. true ≡ false) p q
unfolding OkAt
above_OkAt [] q l = absurd (omega arith)
above_OkAt (i ∷ p) [] l = tt
above_OkAt (i ∷ p) (j ∷ q) l = above_OkAt p q (omega arith)

all_OkAt : (p q : List ℕ) → OkAt (λ r. Unit {0}) p q
unfolding OkAt
all_OkAt [] q = tt
all_OkAt (i ∷ p) [] = tt
all_OkAt (i ∷ p) (j ∷ q) = all_OkAt p q

fields_IsKept :
    (x y : CtNode)
    → children_of x ≡ children_of y
    → (info_of x).block ≡ (info_of y).block
    → (q : List ℕ) (z : CtNode) → node_at q y ≡ some z
    → IsKept q x z
unfolding node_at
fields_IsKept (node m ds) (node n cs) e b [] z f =
    let v : node n cs ≡ z = ground arith in
    (
      node m ds,
      refl,
      record {
        block = b ∙ ap (λ u. (info_of u).block) v;
        size = ap count_nodes e ∙ ap (λ u. count_nodes (children_of u)) v;
      },
    )
fields_IsKept (node m ds) (node n cs) e b (j ∷ q) z f =
    let (c, g, h) = node_at_inv j q n cs z f in
    (z, node_at_step j q m ds c (ap (child_at j) e ∙ g) ∙ h, record { block = refl; size = refl })

-- A store at a node keeps the owners above it.
pub store_above :
    (p : List ℕ) (t x y : CtNode)
    → node_at p t ≡ some y
    → (q : List ℕ) (z : CtNode) → length q < length p
    → node_at q t ≡ some z
    → IsKept q (replace_at p x t) z
store_above p t x y h q z l e =
    replace_at-IsKept (λ r. true ≡ false) x p t y h (λ r w o. ground arith) q z (above_OkAt p q l) e

-- A store that changes neither the children nor the number of their array keeps all.
pub store_fields :
    (p : List ℕ) (t x y : CtNode)
    → node_at p t ≡ some y
    → children_of x ≡ children_of y
    → (info_of x).block ≡ (info_of y).block
    → (q : List ℕ) (z : CtNode) → node_at q t ≡ some z
    → IsKept q (replace_at p x t) z
store_fields p t x y h e b q z f =
    replace_at-IsKept (λ r. Unit {0}) x p t y h (λ r w o. fields_IsKept x y e b r w) q z
      (all_OkAt p q) f

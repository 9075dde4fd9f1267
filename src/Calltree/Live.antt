-- ===== src/Calltree/Live.antt =====
-- The shadow stack of the call tree never dangles.
use observable_bsd.Prelude.{
  ℕ, suc, ◌+◌, ◌<◌, ◌≡◌, refl, ap, sym, ◌∙◌, inl, inr, Bool, Option, none, some, List, [], ◌∷◌, leb,
  length, length-append, arith, Option-cases, if-both,
}
use observable_bsd.Types.{CStr}
use observable_bsd.Symbols.{SymEntry}
use observable_bsd.Calltree.{
  CtNode, CtNodes, node, nil, cons, NodePtr, elem_of, Calltree, info_of, children_of, count_nodes,
  node_at, replace_at, path_of, ct_node_init, find_child, add_last, add_child, ct_find_or_add_child,
  enter_node, Visit, push_slot, enter_child, calltree_push, leave_node,
}
use observable_bsd.Calltree.Memory.{
  IsLive, AllLive, AllLive-kept, deref-IsLive, store-IsLive, store_above, store_fields,
  node_at-replace_at,
}

pub find_child_below :
    (name binary : CStr) (cs : CtNodes) (i : ℕ)
    → find_child name binary cs ≡ some i
    → i < count_nodes cs
unfolding find_child
find_child_below name binary nil i h = ground arith
find_child_below name binary (cons c cs) i h = elim (Option-cases (find_child name binary cs)) [
  | inl e ↦ ground arith
  | inr (j, e) ↦ let l = find_child_below name binary cs j e in ground arith
]

pub count_nodes-add_last :
    (cs : CtNodes) (x : CtNode) → count_nodes (add_last cs x) ≡ suc (count_nodes cs)
unfolding add_last
count_nodes-add_last nil x = refl
count_nodes-add_last (cons c cs) x = ap suc (count_nodes-add_last cs x)

add_child_below :
    (grown : Bool) (y : CtNode) (name binary : CStr) (i : ℕ)
    → (add_child grown y name binary).1 ≡ some i
    → i < count_nodes (children_of (add_child grown y name binary).0)
unfolding add_child
add_child_below grown (node n cs) name binary i h =
    let l = count_nodes-add_last cs (ct_node_init name binary) in ground arith

-- The index of the child lies in the array.
pub find_or_add_below :
    (grown : Bool) (y : CtNode) (name binary : CStr) (i : ℕ)
    → (ct_find_or_add_child grown y name binary).1 ≡ some i
    → i < count_nodes (children_of (ct_find_or_add_child grown y name binary).0)
unfolding ct_find_or_add_child
find_or_add_below grown y name binary i h =
    elim (Option-cases (find_child name binary (children_of y))) [
      | inl e ↦
          rw (e, ct_find_or_add_child)
            (add_child_below grown y name binary i (rw (e, ct_find_or_add_child) at h))
      | inr (j, e) ↦
          rw (e, ct_find_or_add_child)
            (find_child_below name binary (children_of y) i (e ∙ rw (e, ct_find_or_add_child) at h))
    ]

-- Every slot of the shadow stack, up to the top, can be followed.
unfoldable pub IsSafe : Calltree → Type 0
IsSafe ct = AllLive ct.tree (ct.top ∷ ct.below)

abbrev pub Stays : Option Calltree → Type 0
Stays o = (c : Calltree) × (o ≡ some c) × IsSafe c

-- The tree, with another node at a pointer.
abbrev pub with_node : Calltree → NodePtr → CtNode → Calltree
with_node ct ptr x = record ct { tree = replace_at (path_of ptr) x ct.tree }

push_slot-IsSafe :
    (ct : Calltree) (x : Visit) (child : NodePtr)
    → IsSafe ct
    → AllLive ct.tree (child ∷ ct.top ∷ ct.below)
    → IsSafe (push_slot ct x child)
unfolding push_slot IsSafe
push_slot-IsSafe ct x child s l =
    if-both IsSafe (leb ct.stack_cap (length ct.below + 1)) (if-both IsSafe x.stack_grown l s) l

-- enter_child() on a pointer that is live.
pub enter_child_live :
    (ct : Calltree) (x : Visit) (ptr : NodePtr)
    → IsLive ct.tree ptr
    → (c : CtNode) × (node_at (path_of ptr) ct.tree ≡ some c)
      × (enter_child ct x ptr ≡ some (push_slot (with_node ct ptr (enter_node x.tsc c)) x ptr))
unfolding enter_child
enter_child_live ct x ptr l =
    let (c, e, f) = deref-IsLive ct.tree ptr l in
    (c, f, rw (e, enter_child, store-IsLive ct.tree (enter_node x.tsc c) ptr l) refl)

pub enter_node-children : (tsc : ℕ) (c : CtNode) → children_of (enter_node tsc c) ≡ children_of c
unfolding enter_node
enter_node-children tsc (node n cs) = refl

pub enter_node-block :
    (tsc : ℕ) (c : CtNode) → (info_of (enter_node tsc c)).block ≡ (info_of c).block
unfolding enter_node
enter_node-block tsc (node n cs) = refl

pub leave_node-children : (tsc : ℕ) (c : CtNode) → children_of (leave_node tsc c) ≡ children_of c
unfolding leave_node
leave_node-children tsc (node n cs) = refl

pub leave_node-block :
    (tsc : ℕ) (c : CtNode) → (info_of (leave_node tsc c)).block ≡ (info_of c).block
unfolding leave_node
leave_node-block tsc (node n cs) = ground arith

-- A store of the fields of a node keeps every slot.
pub fields-AllLive :
    (t x y : CtNode) (p : List ℕ) (ps : List NodePtr)
    → node_at p t ≡ some y
    → children_of x ≡ children_of y
    → (info_of x).block ≡ (info_of y).block
    → AllLive t ps
    → AllLive (replace_at p x t) ps
fields-AllLive t x y p ps h e b l =
    AllLive-kept t (replace_at p x t) (length ps) ps (λ q z o f. store_fields p t x y h e b q z f)
      (omega arith) l

pub enter_child-Stays :
    (ct : Calltree) (x : Visit) (ptr : NodePtr)
    → AllLive ct.tree (ptr ∷ ct.top ∷ ct.below)
    → Stays (enter_child ct x ptr)
unfolding IsSafe AllLive
enter_child-Stays ct x ptr (d, v, l) =
    let (c, f, e) = enter_child_live ct x ptr v in
    let kept =
      fields-AllLive ct.tree (enter_node x.tsc c) c (path_of ptr) (ptr ∷ ct.top ∷ ct.below) f
        (enter_node-children x.tsc c) (enter_node-block x.tsc c) (d, v, l) in
    (_, e, push_slot-IsSafe (with_node ct ptr (enter_node x.tsc c)) x ptr kept.2 kept)

-- The pointer to a child of the top, where the parent is stored.
abbrev pub child_ptr : Calltree → CtNode → ℕ → NodePtr
child_ptr ct y i = elem_of (path_of ct.top) (info_of y).block i

pub parent-AllLive :
    (ct : Calltree) (x y : CtNode)
    → node_at (path_of ct.top) ct.tree ≡ some y
    → IsSafe ct
    → AllLive (replace_at (path_of ct.top) x ct.tree) (ct.top ∷ ct.below)
unfolding IsSafe AllLive
parent-AllLive ct x y h (d, v, l) =
    AllLive-kept ct.tree (replace_at (path_of ct.top) x ct.tree) (length ct.below)
      (ct.top ∷ ct.below)
      (λ q z o f. store_above (path_of ct.top) ct.tree x y h q z (omega arith) f) (omega arith)
      (d, v, l)

pub child_ptr-IsLive :
    (ct : Calltree) (x y : CtNode) (i : ℕ)
    → node_at (path_of ct.top) ct.tree ≡ some y
    → i < count_nodes (children_of x)
    → IsLive (replace_at (path_of ct.top) x ct.tree) (child_ptr ct x i)
unfolding IsLive
child_ptr-IsLive ct x y i h l = (x, node_at-replace_at (path_of ct.top) x ct.tree y h, refl, l)

-- calltree_push() from a safe state: the parent is found and stored.
pub push_live :
    (ct : Calltree) (x : Visit) (sym : SymEntry)
    → IsSafe ct
    → (y : CtNode) × (node_at (path_of ct.top) ct.tree ≡ some y)
      × (calltree_push ct x sym ≡ (
          let (z, r) = ct_find_or_add_child x.grown y sym.name sym.binary in
          elim r [
            | none ↦ some (with_node ct ct.top z)
            | some i ↦ enter_child (with_node ct ct.top z) x (child_ptr ct z i)
          ]))
unfolding calltree_push IsSafe AllLive
push_live ct x sym (d, v, l) =
    let (y, e, f) = deref-IsLive ct.tree ct.top v in
    let z = (ct_find_or_add_child x.grown y sym.name sym.binary).0 in
    (y, f, rw (e, calltree_push, store-IsLive ct.tree z ct.top v) refl)

pub calltree_push-Stays :
    (ct : Calltree) (x : Visit) (sym : SymEntry) → IsSafe ct → Stays (calltree_push ct x sym)
unfolding IsSafe AllLive
calltree_push-Stays ct x sym s =
    let (y, f, e) = push_live ct x sym s in
    let z = (ct_find_or_add_child x.grown y sym.name sym.binary).0 in
    let kept = parent-AllLive ct z y f s in
    rw e (elim (Option-cases (ct_find_or_add_child x.grown y sym.name sym.binary).1) [
      | inl n ↦ rw n (with_node ct ct.top z, refl, kept)
      | inr (i, n) ↦
          let child =
            child_ptr-IsLive ct z y i f (find_or_add_below x.grown y sym.name sym.binary i n) in
          rw n (
            enter_child-Stays (with_node ct ct.top z) x (child_ptr ct z i)
              (length-append (path_of ct.top) (i ∷ []) ∙ omega (arith, kept.0), child, kept))
    ])

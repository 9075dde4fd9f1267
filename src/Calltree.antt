-- ===== src/Calltree.antt =====
-- Sources/bsdtrace/decode.c: the call tree, whose shadow stack points into arrays that realloc()
-- moves. The struct of a node lies in the array of its parent, so the tree is the memory. An array of
-- children is named by its owner, which is found by the indices that lead to it, and by how often
-- realloc() has made it: a pointer into an array of an earlier number dangles.
pub mod Memory
pub mod Live
pub mod Safe
pub mod Names
pub mod Added
pub mod Counts
pub mod Calls
use observable_bsd.Prelude.{
  ℕ, zero, suc, ◌+◌, ◌-◌, ◌*◌, Bool, true, false, ◌&&◌, ◌||◌, Option, none, some, List, [], ◌∷◌,
  ◌++◌, codes, ltb, leb, ◌==◌, if◌then◌else◌, length,
}
use observable_bsd.Types.{CStr, same_ptr, add64}
use observable_bsd.Symbols.{SymEntry}
use observable_bsd.Decode.{InsnClass}
use observable_bsd.Profile.{after_call}
use observable_bsd.Collapsed.{is_return}

-- struct ct_node, less its children; `block` is how often the array of these has been made.
pub record CtInfo : Type 0 where
  pub name : CStr
  pub binary : CStr
  pub count : ℕ
  pub total_tsc : ℕ
  pub entry_tsc : ℕ
  pub block : ℕ
  pub children_cap : ℕ

-- struct ct_node, and the array of its children; `nchildren` is the length of this.
mutual
  pub data CtNode : Type 0 where
    node : CtInfo → CtNodes → CtNode

  pub data CtNodes : Type 0 where
    nil : CtNodes
    cons : CtNode → CtNodes → CtNodes

-- struct ct_node *: the root, or an element of an array, given by the indices that lead to the
-- array's owner, by the number of the array and by its index.
pub data NodePtr : Type 0 where
  root : NodePtr
  elem_of : List ℕ → ℕ → ℕ → NodePtr

-- struct calltree. `top` is stack[depth], and `below` the slots below it, from there down to
-- stack[0]; `depth` is the length of `below`.
pub record Calltree : Type 0 where
  pub tree : CtNode
  pub top : NodePtr
  pub below : List NodePtr
  pub stack_cap : ℕ
  pub prev_class : InsnClass

abbrev pub info_of : CtNode → CtInfo
info_of (node n cs) = n

abbrev pub children_of : CtNode → CtNodes
children_of (node n cs) = cs

abbrev pub count_nodes : CtNodes → ℕ
count_nodes nil = 0
count_nodes (cons c cs) = suc (count_nodes cs)

unfoldable pub child_at : ℕ → CtNodes → Option CtNode
child_at i nil = none
child_at zero (cons c cs) = some c
child_at (suc i) (cons c cs) = child_at i cs

unfoldable pub set_child : ℕ → CtNode → CtNodes → CtNodes
set_child i x nil = nil
set_child zero x (cons c cs) = cons x cs
set_child (suc i) x (cons c cs) = cons c (set_child i x cs)

unfoldable pub add_last : CtNodes → CtNode → CtNodes
add_last nil x = cons x nil
add_last (cons c cs) x = cons c (add_last cs x)

-- The node that indices lead to.
unfoldable pub node_at : List ℕ → CtNode → Option CtNode
unfolding child_at
node_at [] t = some t
node_at (i ∷ p) (node n cs) = elim (child_at i cs) [ none ↦ none | some c ↦ node_at p c ]

-- The tree with another node there.
unfoldable pub replace_at : List ℕ → CtNode → CtNode → CtNode
unfolding set_child
replace_at [] x t = x
replace_at (i ∷ p) x (node n cs) = elim (child_at i cs) [
  | none ↦ node n cs
  | some c ↦ node n (set_child i (replace_at p x c) cs)
]

abbrev pub path_of : NodePtr → List ℕ
path_of root = []
path_of (elem_of owner block i) = owner ++ i ∷ []

-- *ptr; none where the pointer dangles.
unfoldable pub deref : CtNode → NodePtr → Option CtNode
deref t root = some t
deref t (elem_of owner block i) = elim (node_at owner t) [
  | none ↦ none
  | some x ↦ if (info_of x).block == block then child_at i (children_of x) else none
]

-- *ptr = x; none where the pointer dangles.
unfoldable pub store : CtNode → NodePtr → CtNode → Option CtNode
unfolding deref
store t ptr x = elim (deref t ptr) [ none ↦ none | some y ↦ some (replace_at (path_of ptr) x t) ]

unfoldable pub ct_node_init : CStr → CStr → CtNode
ct_node_init name binary =
    node
      (record {
        name = name;
        binary = binary;
        count = 0;
        total_tsc = 0;
        entry_tsc = 0;
        block = 0;
        children_cap = 0;
      })
      nil

abbrev pub is_node_of : CStr → CStr → CtNode → Bool
is_node_of name binary c = same_ptr (info_of c).name name && same_ptr (info_of c).binary binary

-- The loop of ct_find_or_add_child().
unfoldable pub find_child : CStr → CStr → CtNodes → Option ℕ
find_child name binary nil = none
find_child name binary (cons c cs) =
    let rest = find_child name binary cs in
    if is_node_of name binary c then some 0 else elim rest [ none ↦ none | some i ↦ some (suc i) ]

-- What follows it: the parent, and the index of the new child, none for NULL.
unfoldable pub add_child : Bool → CtNode → CStr → CStr → CtNode × Option ℕ
unfolding add_last ct_node_init
add_child grown (node n cs) name binary =
    let added = add_last cs (ct_node_init name binary) in
    if leb n.children_cap (count_nodes cs)
    then if grown
      then (
        node
            (record n {
              block = suc n.block;
              children_cap = if n.children_cap == 0 then 8 else n.children_cap * 2;
            })
            added,
        some (count_nodes cs),
      )
      else (node n cs, none)
    else (node n added, some (count_nodes cs))

-- `grown` is whether realloc() succeeds.
unfoldable pub ct_find_or_add_child : Bool → CtNode → CStr → CStr → CtNode × Option ℕ
unfolding find_child add_child
ct_find_or_add_child grown parent name binary = elim (find_child name binary (children_of parent)) [
  | some i ↦ (parent, some i)
  | none ↦ add_child grown parent name binary
]

-- child->count++; child->entry_tsc = tsc;
unfoldable pub enter_node : ℕ → CtNode → CtNode
enter_node tsc (node n cs) = node (record n { count = n.count + 1; entry_tsc = tsc }) cs

-- The literals of calltree_init().
abbrev pub root_name : CStr
root_name = record { loc = 0; text = codes "<root>" }

abbrev pub root_binary : CStr
root_binary = record { loc = 1; text = [] }

-- calltree_init(); none where calloc() fails, whose result is not tested.
unfoldable pub calltree_init : Bool → Option Calltree
unfolding ct_node_init
calltree_init memory =
    if memory
    then some (record {
      tree = ct_node_init root_name root_binary;
      top = root;
      below = [];
      stack_cap = 256;
      prev_class = InsnClass.plain;
    })
    else none

-- The arguments of calltree_record(), and whether realloc() succeeds for the children and for the
-- stack.
pub record Visit : Type 0 where
  pub sym : Option SymEntry
  pub ip : ℕ
  pub iclass : InsnClass
  pub tsc : ℕ
  pub grown : Bool
  pub stack_grown : Bool

-- From ct->depth++ on.
unfoldable pub push_slot : Calltree → Visit → NodePtr → Calltree
push_slot ct x child =
    if leb ct.stack_cap (length ct.below + 1)
    then if x.stack_grown
      then record ct { top = child; below = ct.top ∷ ct.below; stack_cap = ct.stack_cap * 2 }
      else ct
    else record ct { top = child; below = ct.top ∷ ct.below }

-- From the test of `child` on.
unfoldable pub enter_child : Calltree → Visit → NodePtr → Option Calltree
unfolding enter_node push_slot store
enter_child ct x ptr = elim (deref ct.tree ptr) [
  | none ↦ none
  | some child ↦ elim (store ct.tree ptr (enter_node x.tsc child)) [
    | none ↦ none
    | some t ↦ some (push_slot (record ct { tree = t }) x ptr)
  ]
]

-- calltree_push() of a symbol; none where it follows a dangling pointer.
unfoldable pub calltree_push : Calltree → Visit → SymEntry → Option Calltree
unfolding ct_find_or_add_child enter_child
calltree_push ct x sym = elim (deref ct.tree ct.top) [
  | none ↦ none
  | some parent ↦
      let (parent', r) = ct_find_or_add_child x.grown parent sym.name sym.binary in
      elim (store ct.tree ct.top parent') [
        | none ↦ none
        | some t ↦ elim r [
          | none ↦ some (record ct { tree = t })
          | some i ↦
              enter_child (record ct { tree = t }) x
                (elem_of (path_of ct.top) (info_of parent').block i)
        ]
      ]
]

-- What calltree_pop() does to the node.
unfoldable pub leave_info : ℕ → CtInfo → CtInfo
leave_info tsc n =
    if ltb 0 tsc && ltb 0 n.entry_tsc && ltb n.entry_tsc tsc
    then record n { total_tsc = add64 n.total_tsc (tsc - n.entry_tsc); entry_tsc = 0 }
    else record n { entry_tsc = 0 }

unfoldable pub leave_node : ℕ → CtNode → CtNode
unfolding leave_info
leave_node tsc (node n cs) = node (leave_info tsc n) cs

unfoldable pub pop_to : Calltree → ℕ → List NodePtr → Option Calltree
unfolding leave_node
pop_to ct tsc [] = some ct
pop_to ct tsc (p ∷ ps) = elim (deref ct.tree ct.top) [
  | none ↦ none
  | some x ↦ elim (store ct.tree ct.top (leave_node tsc x)) [
    | none ↦ none
    | some t ↦ some (record ct { tree = t; top = p; below = ps })
  ]
]

unfoldable pub calltree_pop : Calltree → ℕ → Option Calltree
unfolding pop_to
calltree_pop ct tsc = pop_to ct tsc ct.below

-- The first `if` of calltree_record().
unfoldable pub push_if : Calltree → Visit → Option SymEntry → Option Calltree
unfolding calltree_push
push_if ct x none = some ct
push_if ct x (some sym) =
    if x.ip == sym.addr && after_call ct.prev_class then calltree_push ct x sym else some ct

-- The second.
unfoldable pub pop_if : Visit → Calltree → Option Calltree
unfolding calltree_pop
pop_if x ct = if is_return x.iclass then calltree_pop ct x.tsc else some ct

unfoldable pub calltree_record : Calltree → Visit → Option Calltree
unfolding push_if pop_if
calltree_record ct x = elim (push_if ct x x.sym) [
  | none ↦ none
  | some ct' ↦ elim (pop_if x ct') [
    | none ↦ none
    | some ct'' ↦ some (record ct'' { prev_class = x.iclass })
  ]
]

-- A decode calls calltree_record() for every instruction.
unfoldable pub calltree_all : Calltree → List Visit → Option Calltree
calltree_all ct [] = some ct
calltree_all ct (x ∷ xs) = elim (calltree_record ct x) [
  | none ↦ none
  | some ct' ↦ calltree_all ct' xs
]

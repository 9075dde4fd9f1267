-- ===== src/Calltree/Counts.antt =====
-- The counts of the call tree, against the calls of the trace.
use observable_bsd.Prelude.{
  ℕ, ◌+◌, ◌≡◌, refl, ap, sym, ◌∙◌, Bool, true, false, ◌&&◌, Option, none, some, List, [], ◌∷◌, ◌++◌,
  ◌==◌, if◌then◌else◌, length, arith,
}
use observable_bsd.Symbols.{SymEntry}
use observable_bsd.Decode.{InsnClass}
use observable_bsd.Profile.{after_call}
use observable_bsd.Collapsed.{is_return}
use observable_bsd.Calltree.{
  CtNode, node, NodePtr, Calltree, children_of, child_at, node_at, replace_at, path_of, find_child,
  ct_node_init, enter_node, leave_node, Visit, push_slot,
}
use observable_bsd.Calltree.Memory.{node_at_step, node_at-replace_at}
use observable_bsd.Calltree.Live.{IsSafe, with_node, child_ptr}
use observable_bsd.Calltree.Names.{
  Key, same_key, SameName, value_at, Leads, under, replace_at-Leads, value_at-replace_at,
}
use observable_bsd.Calltree.Added.{IsTally, IsParent}

-- The path of a call stack, which has the innermost function first.
unfoldable pub outermost : List Key → List Key
outermost [] = []
outermost (k ∷ ks) = outermost ks ++ k ∷ []

abbrev pub tail {ℓ} : {A : Type ℓ} → List A → List A
tail [] = []
tail (x ∷ xs) = xs

abbrev pub same_path : List Key → List Key → Bool
same_path [] [] = true
same_path [] (l ∷ ls) = false
same_path (k ∷ ks) [] = false
same_path (k ∷ ks) (l ∷ ls) = same_key k l && same_path ks ls

-- Does an instruction enter a function: its first one, after a call?
abbrev pub enters : InsnClass → Visit → SymEntry → Bool
enters prev_class x sym = x.ip == sym.addr && after_call prev_class

-- The specification: the call stack after the entry of an instruction, and after its return.
abbrev pub entered : InsnClass → Visit → Option SymEntry → List Key → List Key
entered prev_class x none ks = ks
entered prev_class x (some sym) ks =
    if enters prev_class x sym then (sym.name, sym.binary) ∷ ks else ks

abbrev pub left : Visit → List Key → List Key
left x ks = if is_return x.iclass then tail ks else ks

-- 1 where the instruction enters a function and the path of the call stack is then `ls`.
abbrev pub call_of : InsnClass → Visit → Option SymEntry → List Key → List Key → ℕ
call_of prev_class x none ks ls = 0
call_of prev_class x (some sym) ks ls =
    if enters prev_class x sym
    then if same_path (outermost ((sym.name, sym.binary) ∷ ks)) ls then 1 else 0
    else 0

-- How often the instructions call a function whose path is then `ls`.
unfoldable pub calls_at : List Key → InsnClass → List Key → List Visit → ℕ
calls_at ls prev_class ks [] = 0
calls_at ls prev_class ks (x ∷ xs) =
    call_of prev_class x x.sym ks ls
    + calls_at ls x.iclass (left x (entered prev_class x x.sym ks)) xs

-- realloc() succeeds.
unfoldable pub HasMemory : List Visit → Type 0
HasMemory [] = Unit
HasMemory (x ∷ xs) = (x.grown ≡ true) × (x.stack_grown ≡ true) × HasMemory xs

-- Each slot of the shadow stack names the node that its part of the call stack leads to.
unfoldable pub AllLead : CtNode → List NodePtr → List Key → Type 0
AllLead t [] ks = Unit
AllLead t (p ∷ ps) ks = Leads (outermost ks) (path_of p) t × AllLead t ps (tail ks)

pub record Follows (ct : Calltree) (ks : List Key) : Type 0 where
  pub safe : IsSafe ct
  pub deep : length ct.below ≡ length ks
  pub leads : AllLead ct.tree (ct.top ∷ ct.below) ks

pub AllLead-kept :
    (t u : CtNode) (ps : List NodePtr) (ks : List Key)
    → ((ls : List Key) (q : List ℕ) → Leads ls q t → Leads ls q u)
    → AllLead t ps ks
    → AllLead u ps ks
unfolding AllLead
AllLead-kept t u [] ks g l = tt
AllLead-kept t u (p ∷ ps) ks g (l, m) = (g _ _ l, AllLead-kept t u ps (tail ks) g m)

Leads-append :
    (ks : List Key) (k : Key) (p : List ℕ) (i : ℕ) (t z c : CtNode)
    → Leads ks p t
    → node_at p t ≡ some z
    → find_child k.0 k.1 (children_of z) ≡ some i
    → child_at i (children_of z) ≡ some c
    → Leads (ks ++ k ∷ []) (p ++ i ∷ []) t
unfolding Leads node_at
Leads-append [] k [] i (node n cs) z c l h f e =
    let q : z ≡ node n cs = ground arith in
    (
      ap (λ y. find_child k.0 k.1 (children_of y)) (sym q) ∙ f,
      (c, ap (λ y. child_at i (children_of y)) (sym q) ∙ e, tt),
    )
Leads-append [] k (j ∷ p) i t z c l h f e = absurd (ground arith)
Leads-append (k' ∷ ks) k [] i t z c l h f e = absurd (ground arith)
Leads-append (k' ∷ ks) k (j ∷ p) i (node n cs) z c (a, (d, b, l)) h f e =
    let g = sym (node_at_step j p n cs d b) ∙ h in (a, (d, b, Leads-append ks k p i d z c l g f e))

pub under-nothing : (ks ls : List Key) → under ks (λ _. 0) ls ≡ 0
unfolding under
under-nothing [] ls = refl
under-nothing (k ∷ ks) [] = refl
under-nothing (k ∷ ks) (l ∷ ls) = ground (arith, under-nothing ks ls)

abbrev at_end : List Key → ℕ
at_end [] = 1
at_end (l ∷ ls) = 0

under-at_end : (ks ls : List Key) → under ks at_end ls ≡ (if same_path ks ls then 1 else 0)
unfolding under
under-at_end [] [] = refl
under-at_end [] (l ∷ ls) = refl
under-at_end (k ∷ ks) [] = refl
under-at_end (k ∷ ks) (l ∷ ls) = ground (arith, under-at_end ks ls)

abbrev pub count_at : List Key → CtNode → ℕ
count_at ls t = value_at (λ n. n.count) ls t

pub count_IsTally : IsTally (λ n. n.count)
unfolding ct_node_init
count_IsTally = record { starts = λ name binary. refl; moves = λ n b c. refl }

-- What entering and leaving do to a node.
enter_node-SameName : (tsc : ℕ) (c : CtNode) → SameName c (enter_node tsc c)
unfolding enter_node
enter_node-SameName tsc (node n cs) = record { name = refl; binary = refl }

enter_node-Leads :
    (tsc : ℕ) (c : CtNode) (ks : List Key) (q : List ℕ)
    → Leads ks q c
    → Leads ks q (enter_node tsc c)
unfolding enter_node Leads
enter_node-Leads tsc (node n cs) [] [] l = tt
enter_node-Leads tsc (node n cs) [] (j ∷ q) l = l
enter_node-Leads tsc (node n cs) (k ∷ ks) [] l = l
enter_node-Leads tsc (node n cs) (k ∷ ks) (j ∷ q) l = l

count_at-enter_node :
    (tsc : ℕ) (c : CtNode) (ls : List Key)
    → count_at ls (enter_node tsc c) ≡ count_at ls c + at_end ls
unfolding enter_node value_at
count_at-enter_node tsc (node n cs) [] = refl
count_at-enter_node tsc (node n cs) (l ∷ ls) = omega arith

pub leave_node-SameName : (tsc : ℕ) (c : CtNode) → SameName c (leave_node tsc c)
unfolding leave_node
leave_node-SameName tsc (node n cs) = record { name = ground arith; binary = ground arith }

pub leave_node-Leads :
    (tsc : ℕ) (c : CtNode) (ks : List Key) (q : List ℕ)
    → Leads ks q c
    → Leads ks q (leave_node tsc c)
unfolding leave_node Leads
leave_node-Leads tsc (node n cs) [] [] l = tt
leave_node-Leads tsc (node n cs) [] (j ∷ q) l = l
leave_node-Leads tsc (node n cs) (k ∷ ks) [] l = l
leave_node-Leads tsc (node n cs) (k ∷ ks) (j ∷ q) l = l

pub count_at-leave_node :
    (tsc : ℕ) (c : CtNode) (ls : List Key) → count_at ls (leave_node tsc c) ≡ count_at ls c + 0
unfolding leave_node value_at
count_at-leave_node tsc (node n cs) [] = ground arith
count_at-leave_node tsc (node n cs) (l ∷ ls) = omega arith

-- A push, while there is memory, from a state that follows the call stack.
module _ (ct : Calltree) (x : Visit) (sym : SymEntry) (ks : List Key) where
  abbrev pub key : Key
  key = (sym.name, sym.binary)

  abbrev pub Pushed : Option Calltree → Type 0
  Pushed o =
      (c : Calltree) × (o ≡ some c)
      × Follows c (key ∷ ks)
      × ((ls : List Key)
          → count_at ls c.tree
            ≡ count_at ls ct.tree + (if same_path (outermost (key ∷ ks)) ls then 1 else 0))

  pub push_slot_grown :
      (c : Calltree) (child : NodePtr)
      → x.stack_grown ≡ true
      → ((push_slot c x child).tree ≡ c.tree)
        × ((push_slot c x child).top ≡ child)
        × ((push_slot c x child).below ≡ c.top ∷ c.below)
  unfolding push_slot
  push_slot_grown c child g = ground arith

  -- The parent is stored with its child: what is behind it, and its values.
  pub parent_stored :
      (y z : CtNode) (i : ℕ)
      → Follows ct ks
      → node_at (path_of ct.top) ct.tree ≡ some y
      → IsParent (λ n. n.count) key y z i
      → AllLead (with_node ct ct.top z).tree (ct.top ∷ ct.below) ks
        × Leads (outermost (key ∷ ks)) (path_of (child_ptr ct z i)) (with_node ct ct.top z).tree
        × ((ls : List Key) → count_at ls (with_node ct ct.top z).tree ≡ count_at ls ct.tree)
  unfolding AllLead outermost
  parent_stored y z i f h p =
      let keeps = replace_at-Leads (path_of ct.top) ct.tree z y h p.same p.leads in
      let l = keeps (outermost ks) (path_of ct.top) f.leads.0 in
      let n = node_at-replace_at (path_of ct.top) z ct.tree y h in
      (
        AllLead-kept ct.tree (with_node ct ct.top z).tree (ct.top ∷ ct.below) ks keeps f.leads,
        Leads-append (outermost ks) key (path_of ct.top) i _ z p.there.0 l n p.found p.there.1,
        λ ls.
            value_at-replace_at (λ n. n.count) (λ _. 0) (outermost ks) (path_of ct.top) ct.tree z y
              f.leads.0 h p.same (λ ls. p.values ls ∙ omega arith) ls
            ∙ omega (arith, under-nothing (outermost ks) ls),
      )

  -- The child is counted.
  pub child_counted :
      (t c : CtNode) (q : List ℕ)
      → Leads (outermost (key ∷ ks)) q t
      → node_at q t ≡ some c
      → ((ms : List Key) (r : List ℕ)
          → Leads ms r t
          → Leads ms r (replace_at q (enter_node x.tsc c) t))
        × ((ls : List Key)
            → count_at ls (replace_at q (enter_node x.tsc c) t)
              ≡ count_at ls t + (if same_path (outermost (key ∷ ks)) ls then 1 else 0))
  child_counted t c q l h =
      let e = enter_node x.tsc c in
      let s = enter_node-SameName x.tsc c in
      (
        replace_at-Leads q t e c h s (enter_node-Leads x.tsc c),
        λ ls.
            value_at-replace_at (λ n. n.count) at_end (outermost (key ∷ ks)) q t e c l h s
              (count_at-enter_node x.tsc c) ls
            ∙ ap (λ v. count_at ls t + v) (under-at_end (outermost (key ∷ ks)) ls),
      )

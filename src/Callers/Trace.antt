-- ===== src/Callers/Trace.antt =====
-- The view of callers and callees counts the calls of the trace.
use observable_bsd.Prelude.{
  ℕ, ◌+◌, ◌≡◌, refl, ap, sym, ◌∙◌, inl, inr, true, Option, none, some, List, [], ◌∷◌, Bytes,
  if◌then◌else◌, arith, Bool-cases,
}
use mathlib.Core.Path.{subst}
use observable_bsd.Symbols.{SymEntry}
use observable_bsd.Decode.{InsnClass}
use observable_bsd.Collapsed.{is_return}
use observable_bsd.Calltree.{
  CtNode, node, NodePtr, Calltree, info_of, path_of, is_node_of, root_name, root_binary,
  ct_node_init, ct_find_or_add_child, enter_node, leave_node, Visit, push_slot, calltree_push,
  pop_to, calltree_pop, push_if, pop_if, calltree_record, calltree_all, calltree_init,
}
use observable_bsd.Calltree.Memory.{IsLive, AllLive, node_at-append, node_at-replace_at}
use observable_bsd.Calltree.Live.{
  IsSafe, with_node, child_ptr, push_live, enter_child_live, child_ptr-IsLive, find_or_add_below,
}
use observable_bsd.Calltree.Safe.{pop_live, push_if-Stays, pop_if-Stays}
use observable_bsd.Calltree.Names.{Key}
use observable_bsd.Calltree.Added.{find_or_add_grown}
use observable_bsd.Calltree.Counts.{HasMemory, enters, count_IsTally}
use observable_bsd.Callers.{ct_collect_edges}
use observable_bsd.Callers.Edges.{Function, same_text, function_of, of_summary}
use observable_bsd.Callers.Totals.{calls_to, ct_collect_edges-calls}
use observable_bsd.Callers.Stored.{
  calls_to-replace_at, calls_to-find_or_add, calls_to-enter_node, calls_to-leave_node,
  calls_to-init, HasText, AllText, AllText-node_at, AllText-replace_at, AllText-find_or_add,
  AllText-enter_node, AllText-leave_node, find_child_is,
}

-- The specification: how often the instructions enter a function.
abbrev pub entry_of : Function → InsnClass → Visit → Option SymEntry → ℕ
entry_of k prev_class x none = 0
entry_of k prev_class x (some s) =
    if enters prev_class x s then if same_text k (s.name, s.binary) then 1 else 0 else 0

unfoldable pub entries_of : Function → InsnClass → List Visit → ℕ
entries_of k prev_class [] = 0
entries_of k prev_class (x ∷ xs) = entry_of k prev_class x x.sym + entries_of k x.iclass xs

-- The strings of the symbols do not change.
abbrev pub SymText : (ℕ → Bytes) → Option SymEntry → Type 0
SymText text none = Unit
SymText text (some s) = HasText text s.name × HasText text s.binary

unfoldable pub VisitsText : (ℕ → Bytes) → List Visit → Type 0
VisitsText text [] = Unit
VisitsText text (x ∷ xs) = SymText text x.sym × VisitsText text xs

-- Two nodes with the pointers of a function have its texts.
own_text :
    (text : ℕ → Bytes) (k : Function) (l : Key) (c : CtNode)
    → HasText text l.0
    → HasText text l.1
    → AllText text c
    → is_node_of l.0 l.1 c ≡ true
    → same_text k (function_of (info_of c)) ≡ same_text k l
unfolding AllText
own_text text k l (node n cs) a b (p, q, r) h =
    let e : n.name.loc ≡ l.0.loc = ground arith in
    let f : n.binary.loc ≡ l.1.loc = ground arith in
    let u : n.name.text ≡ l.0.text = p ∙ ap text e ∙ sym a in
    let v : n.binary.text ≡ l.1.text = q ∙ ap text f ∙ sym b in rw (u, v) refl

module _ (text : ℕ → Bytes) (k : Function) (ct : Calltree) (x : Visit) where
  -- What an operation does to the tree: its texts stay, and the function gains `d` calls.
  abbrev pub Gains : ℕ → Option Calltree → Type 0
  Gains d o =
      (c : Calltree) × (o ≡ some c)
      × AllText text c.tree
      × (calls_to k c.tree ≡ calls_to k ct.tree + d)

  push_slot-tree : (c : Calltree) (p : NodePtr) → (push_slot c x p).tree ≡ c.tree
  unfolding push_slot
  push_slot-tree c p = ground arith

  push-Gains :
      (s : SymEntry)
      → IsSafe ct
      → AllText text ct.tree
      → x.grown ≡ true
      → SymText text (some s)
      → Gains (if same_text k (s.name, s.binary) then 1 else 0) (calltree_push ct x s)
  push-Gains s safe a g t =
      let (y, h, e) = push_live ct x s safe in
      let l : Key = (s.name, s.binary) in
      let z = (ct_find_or_add_child x.grown y l.0 l.1).0 in
      let (i, n, p) = find_or_add_grown (λ n. n.count) count_IsTally l x.grown y g in
      let az =
        AllText-find_or_add text x.grown y l.0 l.1
          (AllText-node_at text (path_of ct.top) ct.tree y a h) t.0 t.1 in
      let base = with_node ct ct.top z in
      let ab = AllText-replace_at text (path_of ct.top) ct.tree z y a az h in
      let ptr = child_ptr ct z i in
      let live = child_ptr-IsLive ct z y i h (find_or_add_below x.grown y l.0 l.1 i n) in
      let (c, hc, ec) = enter_child_live base x ptr live in
      let ac = AllText-node_at text (path_of ptr) base.tree c ab hc in
      let next = with_node base ptr (enter_node x.tsc c) in
      let an =
        AllText-replace_at text (path_of ptr) base.tree (enter_node x.tsc c) c ab
          (AllText-enter_node text x.tsc c ac) hc in
      let (d, there) = p.there in
      let hd =
        node_at-append (path_of ct.top) i base.tree z d
          (node_at-replace_at (path_of ct.top) z ct.tree y h) there in
      let same : some d ≡ some c = sym hd ∙ hc in
      let dc : c ≡ d = ground arith in
      let own = ap (is_node_of l.0 l.1) dc ∙ find_child_is l i d _ p.found there in
      let name = own_text text k l c t.0 t.1 ac own in
      let v1 = calls_to-replace_at k (path_of ct.top) ct.tree z y h in
      let v2 = calls_to-find_or_add k x.grown y l.0 l.1 in
      let v3 = calls_to-replace_at k (path_of ptr) base.tree (enter_node x.tsc c) c hc in
      let v4 = rw name at (calls_to-enter_node k x.tsc c) in
      let tree = push_slot-tree next ptr in
      (push_slot next x ptr, rw e (rw n ec), rw tree an, rw tree (omega (arith, v1, v2, v3, v4)))

  push_if-Gains :
      (o : Option SymEntry)
      → IsSafe ct
      → AllText text ct.tree
      → x.grown ≡ true
      → SymText text o
      → Gains (entry_of k ct.prev_class x o) (push_if ct x o)
  unfolding push_if
  push_if-Gains none safe a g t = (ct, refl, a, omega arith)
  push_if-Gains (some s) safe a g t = elim (Bool-cases (enters ct.prev_class x s)) [
    | inl e ↦ rw e (push-Gains s safe a g t)
    | inr e ↦ rw e (ct, refl, a, omega arith)
  ]

  pop_to-Gains :
      (ps : List NodePtr) → IsSafe ct → AllText text ct.tree → Gains 0 (pop_to ct x.tsc ps)
  unfolding pop_to IsSafe AllLive
  pop_to-Gains [] safe a = (ct, refl, a, omega arith)
  pop_to-Gains (p ∷ ps) safe a =
      let (y, h, e) = pop_live ct x.tsc p ps safe.1 in
      let v1 = calls_to-replace_at k (path_of ct.top) ct.tree (leave_node x.tsc y) y h in
      let v2 = calls_to-leave_node k x.tsc y in
      let b =
        AllText-replace_at text (path_of ct.top) ct.tree (leave_node x.tsc y) y a
          (AllText-leave_node text x.tsc y (AllText-node_at text (path_of ct.top) ct.tree y a h))
          h in
      (_, e, b, omega (arith, v1, v2))

  pop_if-Gains : IsSafe ct → AllText text ct.tree → Gains 0 (pop_if x ct)
  unfolding pop_if calltree_pop
  pop_if-Gains safe a = elim (Bool-cases (is_return x.iclass)) [
    | inl e ↦ rw e (pop_to-Gains ct.below safe a)
    | inr e ↦ rw e (ct, refl, a, omega arith)
  ]

some_inj : {a b : Calltree} → some a ≡ some b → a ≡ b
some_inj h = ground arith

-- The tree that calltree_init() makes.
fresh :
    (text : ℕ → Bytes) (k : Function)
    → HasText text root_name
    → HasText text root_binary
    → (c : Calltree) × (calltree_init true ≡ some c)
      × (c.prev_class ≡ InsnClass.plain)
      × IsSafe c
      × AllText text c.tree
      × (calls_to k c.tree ≡ 0)
unfolding calltree_init IsSafe AllLive IsLive AllText ct_node_init
fresh text k p q =
    (_, refl, refl, (refl, tt, tt), (p, q, tt), calls_to-init k root_name root_binary)

record_step-Gains :
    (text : ℕ → Bytes) (k : Function) (ct : Calltree) (x : Visit)
    → IsSafe ct
    → AllText text ct.tree
    → x.grown ≡ true
    → SymText text x.sym
    → (c : Calltree) × (calltree_record ct x ≡ some c)
      × IsSafe c
      × AllText text c.tree
      × (c.prev_class ≡ x.iclass)
      × (calls_to k c.tree ≡ calls_to k ct.tree + entry_of k ct.prev_class x x.sym)
unfolding calltree_record IsSafe
record_step-Gains text k ct x safe a g t =
    let (b, e, ab, vb) = push_if-Gains text k ct x x.sym safe a g t in
    let (b1, e1, sb1) = push_if-Stays ct x x.sym safe in
    let eb : some b1 ≡ some b = sym e1 ∙ e in
    let sb : IsSafe b = subst IsSafe (some_inj eb) sb1 in
    let (d, f, ad, vd) = pop_if-Gains text k b x sb ab in
    let (d1, f1, sd1) = pop_if-Stays x b sb in
    let ed : some d1 ≡ some d = sym f1 ∙ f in
    let sd : IsSafe d = subst IsSafe (some_inj ed) sd1 in
    (
      record d { prev_class = x.iclass },
      rw (e, calltree_record, f) refl,
      unfold IsSafe in sd,
      ad,
      refl,
      omega (arith, vb, vd),
    )

calltree_all-entries :
    (text : ℕ → Bytes) (k : Function) (ct : Calltree) (xs : List Visit)
    → IsSafe ct
    → AllText text ct.tree
    → HasMemory xs
    → VisitsText text xs
    → (c : Calltree) × (calltree_all ct xs ≡ some c)
      × (calls_to k c.tree ≡ calls_to k ct.tree + entries_of k ct.prev_class xs)
unfolding calltree_all HasMemory VisitsText entries_of
calltree_all-entries text k ct [] safe a m t = (ct, refl, omega arith)
calltree_all-entries text k ct (x ∷ xs) safe a m t =
    let (b, e, sb, ab, p, vb) = record_step-Gains text k ct x safe a m.0 t.0 in
    let (c, f, v) = calltree_all-entries text k b xs sb ab m.2 t.1 in
    let w = rw p at v in (c, rw (e, calltree_all) f, omega (arith, vb, w))

-- While there is memory, and the strings of the symbols do not change: for every sequence of decoded
-- instructions and every function, told by the text of its names, the total that the view of
-- callers and callees shows for it is the number of instructions that enter a function of these
-- names, the first instruction of a symbol behind a call.
pub callers-entries :
    (text : ℕ → Bytes) (k : Function) (xs : List Visit)
    → HasMemory xs
    → VisitsText text xs
    → HasText text root_name
    → HasText text root_binary
    → (start : Calltree) × (ct : Calltree) × (calltree_init true ≡ some start)
      × (calltree_all start xs ≡ some ct)
      × (of_summary (λ f. f.total_calls) k (ct_collect_edges none ct.tree [])
          ≡ entries_of k InsnClass.plain xs)
callers-entries text k xs m t p q =
    let (start, i, c, safe, a, z) = fresh text k p q in
    let (ct, e, v) = calltree_all-entries text k start xs safe a m t in
    let w = rw (c, z) at v in
    (start, ct, i, e, (ct_collect_edges-calls k k ct.tree).0 ∙ omega (arith, w))

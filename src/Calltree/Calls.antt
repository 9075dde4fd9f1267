-- ===== src/Calltree/Calls.antt =====
-- The call tree counts the calls of the trace.
use observable_bsd.Prelude.{
  ℕ, suc, ◌+◌, ◌≡◌, refl, ap, sym, ◌∙◌, inl, inr, true, Option, none, some, List, [], ◌∷◌, length,
  arith, Bool-cases,
}
use mathlib.Core.Path.{subst}
use observable_bsd.Symbols.{SymEntry}
use observable_bsd.Decode.{InsnClass}
use observable_bsd.Collapsed.{is_return}
use observable_bsd.Calltree.{
  root_name, root_binary, NodePtr, Calltree, path_of, ct_find_or_add_child, enter_node, leave_node,
  Visit, push_slot, calltree_push, pop_to, calltree_pop, push_if, pop_if, calltree_record,
  calltree_all, calltree_init,
}
use observable_bsd.Calltree.Memory.{IsLive, AllLive}
use observable_bsd.Calltree.Live.{
  IsSafe, with_node, child_ptr, push_live, enter_child_live, child_ptr-IsLive, find_or_add_below,
  calltree_push-Stays,
}
use observable_bsd.Calltree.Safe.{pop_live, pop_to-Stays}
use observable_bsd.Calltree.Names.{Key, Leads, replace_at-Leads, value_at-replace_at}
use observable_bsd.Calltree.Added.{value_at-init, find_or_add_grown}
use observable_bsd.Calltree.Counts.{
  outermost, tail, enters, entered, left, call_of, calls_at, HasMemory, AllLead, Follows,
  AllLead-kept, under-nothing, count_at, count_IsTally, leave_node-SameName, leave_node-Leads,
  count_at-leave_node, key, Pushed, push_slot_grown, parent_stored, child_counted,
}

some_inj : {a b : Calltree} → some a ≡ some b → a ≡ b
some_inj h = ground arith

module _ (ct : Calltree) (x : Visit) (callee : SymEntry) (ks : List Key) where
  slot-Follows :
      (c : Calltree) (child : NodePtr)
      → x.stack_grown ≡ true
      → IsSafe (push_slot c x child)
      → length c.below ≡ length ks
      → AllLead c.tree (child ∷ c.top ∷ c.below) (key ct x callee ks ∷ ks)
      → Follows (push_slot c x child) (key ct x callee ks ∷ ks)
  slot-Follows c child g s d l =
      let (t, p, b) = push_slot_grown ct x callee ks c child g in
      record { safe = s; deep = rw b (ap suc d); leads = rw (t, p, b) l }

  push-Pushed :
      Follows ct ks
      → x.grown ≡ true
      → x.stack_grown ≡ true
      → Pushed ct x callee ks (calltree_push ct x callee)
  unfolding AllLead
  push-Pushed f g m =
      let (y, h, e) = push_live ct x callee f.safe in
      let k = key ct x callee ks in
      let z = (ct_find_or_add_child x.grown y k.0 k.1).0 in
      let (i, n, p) = find_or_add_grown (λ n. n.count) count_IsTally k x.grown y g in
      let (l, q, v) = parent_stored ct x callee ks y z i f h p in
      let live = child_ptr-IsLive ct z y i h (find_or_add_below x.grown y k.0 k.1 i n) in
      let base = with_node ct ct.top z in
      let ptr = child_ptr ct z i in
      let (c, hc, ec) = enter_child_live base x ptr live in
      let (keeps, w) = child_counted ct x callee ks base.tree c (path_of ptr) q hc in
      let next = with_node base ptr (enter_node x.tsc c) in
      let eq : calltree_push ct x callee ≡ some (push_slot next x ptr) = rw e (rw n ec) in
      let (c', e', s) = calltree_push-Stays ct x callee f.safe in
      let same : some c' ≡ some (push_slot next x ptr) = sym e' ∙ eq in
      let safe : IsSafe (push_slot next x ptr) = subst IsSafe (some_inj same) s in
      let t = (push_slot_grown ct x callee ks next ptr m).0 in
      (
        push_slot next x ptr,
        eq,
        slot-Follows next ptr m safe f.deep (
          keeps (outermost (k ∷ ks)) (path_of ptr) q,
          AllLead-kept base.tree next.tree (ct.top ∷ ct.below) ks keeps l,
        ),
        λ ls. rw t (w ls ∙ omega (arith, v ls)),
      )

-- A return, from a state that follows the call stack.
pop-Follows :
    (ct : Calltree) (tsc : ℕ) (ps : List NodePtr) (ks : List Key)
    → ct.below ≡ ps
    → Follows ct ks
    → (c : Calltree) × (pop_to ct tsc ps ≡ some c)
      × Follows c (tail ks)
      × ((ls : List Key) → count_at ls c.tree ≡ count_at ls ct.tree)
unfolding pop_to AllLead IsSafe AllLive
pop-Follows ct tsc [] [] b f = (ct, refl, f, λ ls. refl)
pop-Follows ct tsc [] (k ∷ ks) b f = let d = f.deep in let e = ap length b in absurd (omega arith)
pop-Follows ct tsc (p ∷ ps) [] b f = let d = f.deep in let e = ap length b in absurd (omega arith)
pop-Follows ct tsc (p ∷ ps) (k ∷ ks) b f =
    let (y, h, e) = pop_live ct tsc p ps f.safe.1 in
    let v = leave_node tsc y in
    let (c', e', s) = pop_to-Stays ct tsc (p ∷ ps) b f.safe in
    let c : Calltree = record (with_node ct ct.top v) { top = p; below = ps } in
    let same : some c' ≡ some c = sym e' ∙ e in
    let o = outermost (k ∷ ks) in
    let keeps =
      replace_at-Leads (path_of ct.top) ct.tree v y h (leave_node-SameName tsc y)
        (leave_node-Leads tsc y) in
    let l : AllLead ct.tree (p ∷ ps) ks = rw b at f.leads.1 in
    (
      c,
      e,
      record {
        safe = subst IsSafe (some_inj same) s;
        deep = let d = f.deep in let n = ap length b in omega arith;
        leads = AllLead-kept ct.tree c.tree (p ∷ ps) ks keeps l;
      },
      λ ls.
          value_at-replace_at (λ n. n.count) (λ _. 0) o (path_of ct.top) ct.tree v y f.leads.0 h
            (leave_node-SameName tsc y) (count_at-leave_node tsc y) ls
          ∙ omega (arith, under-nothing o ls),
    )

push_if-Follows :
    (ct : Calltree) (x : Visit) (o : Option SymEntry) (ks : List Key)
    → Follows ct ks
    → x.grown ≡ true
    → x.stack_grown ≡ true
    → (c : Calltree) × (push_if ct x o ≡ some c)
      × Follows c (entered ct.prev_class x o ks)
      × ((ls : List Key)
          → count_at ls c.tree ≡ count_at ls ct.tree + call_of ct.prev_class x o ks ls)
unfolding push_if
push_if-Follows ct x none ks f g m = (ct, refl, f, λ ls. omega arith)
push_if-Follows ct x (some sym) ks f g m = elim (Bool-cases (enters ct.prev_class x sym)) [
  | inl e ↦ rw e (push-Pushed ct x sym ks f g m)
  | inr e ↦ rw e (ct, refl, f, λ ls. omega arith)
]

pop_if-Follows :
    (x : Visit) (ct : Calltree) (ks : List Key)
    → Follows ct ks
    → (c : Calltree) × (pop_if x ct ≡ some c)
      × Follows c (left x ks)
      × ((ls : List Key) → count_at ls c.tree ≡ count_at ls ct.tree)
unfolding pop_if calltree_pop
pop_if-Follows x ct ks f = elim (Bool-cases (is_return x.iclass)) [
  | inl e ↦ rw e (pop-Follows ct x.tsc ct.below ks refl f)
  | inr e ↦ rw e (ct, refl, f, λ ls. refl)
]

calltree_all-Follows :
    (ct : Calltree) (ks : List Key) (xs : List Visit)
    → Follows ct ks
    → HasMemory xs
    → (c : Calltree) × (calltree_all ct xs ≡ some c)
      × ((ls : List Key)
          → count_at ls c.tree ≡ count_at ls ct.tree + calls_at ls ct.prev_class ks xs)
unfolding calltree_all calltree_record calls_at HasMemory
calltree_all-Follows ct ks [] f h = (ct, refl, λ ls. omega arith)
calltree_all-Follows ct ks (x ∷ xs) f h =
    let (a, e, fa, va) = push_if-Follows ct x x.sym ks f h.0 h.1 in
    let (b, r, fb, vb) = pop_if-Follows x a (entered ct.prev_class x x.sym ks) fa in
    let b' : Calltree = record b { prev_class = x.iclass } in
    let fb' : Follows b' (left x (entered ct.prev_class x x.sym ks)) = record {
      safe = unfold IsSafe in fb.safe;
      deep = fb.deep;
      leads = fb.leads;
    } in
    let (c, q, v) =
      calltree_all-Follows b' (left x (entered ct.prev_class x x.sym ks)) xs fb' h.2 in
    (c, rw (e, calltree_all, calltree_record, r) q, λ ls. omega (arith, v ls, vb ls, va ls))

start_Follows :
    (start : Calltree) × (calltree_init true ≡ some start)
    × (start.prev_class ≡ InsnClass.plain)
    × Follows start []
    × ((ls : List Key) → count_at ls start.tree ≡ 0)
unfolding calltree_init IsSafe AllLive IsLive AllLead Leads outermost
start_Follows = (
  _,
  refl,
  refl,
  record { safe = (refl, tt, tt); deep = refl; leads = (tt, tt) },
  value_at-init (λ n. n.count) root_name root_binary (count_IsTally.starts root_name root_binary),
)

-- While there is memory, for every sequence of decoded instructions and every path of functions,
-- the outermost first: the `count` of the node that the path leads to, 0 where there is none, is the
-- number of instructions that enter the last function of the path, its first instruction behind a
-- call, with just this path on the call stack, where a return leaves the innermost function.
pub calltree_all-calls :
    (ls : List Key) (xs : List Visit)
    → HasMemory xs
    → (start : Calltree) × (ct : Calltree) × (calltree_init true ≡ some start)
      × (calltree_all start xs ≡ some ct)
      × (count_at ls ct.tree ≡ calls_at ls InsnClass.plain [] xs)
calltree_all-calls ls xs h =
    let (start, i, p, f, z) = start_Follows in
    let (ct, e, v) = calltree_all-Follows start [] xs f h in
    (
      start,
      ct,
      i,
      e,
      v ls ∙ ap (λ n. n + calls_at ls start.prev_class [] xs) (z ls) ∙ rw p (omega arith),
    )

-- ===== src/Tests/Calling.antt =====
-- Examples for the call tree and the view of callers and callees.
use observable_bsd.Prelude.{
  ℕ, ◌≡◌, refl, true, none, some, Option, List, [], ◌∷◌, Bytes, codes, ◌==◌, if◌then◌else◌,
}
use observable_bsd.Types.{CStr}
use observable_bsd.Symbols.{SymEntry}
use observable_bsd.Decode.{InsnClass, call, return, plain}
use observable_bsd.Calltree.{
  CtNode, node, nil, cons, info_of, ct_node_init, enter_node, Calltree, Visit, calltree_init,
  calltree_all,
}
use observable_bsd.Calltree.Live.{IsSafe}
use observable_bsd.Calltree.Safe.{calltree_all-IsSafe}
use observable_bsd.Calltree.Names.{Key}
use observable_bsd.Calltree.Counts.{HasMemory, count_at, calls_at, outermost}
use observable_bsd.Calltree.Calls.{calltree_all-calls}
use observable_bsd.Callers.{ct_collect_edges}
use observable_bsd.Callers.Edges.{of_summary, of_edge}
use observable_bsd.Callers.Totals.{calls_to, calls_between, ct_collect_edges-calls}
use observable_bsd.Callers.Trace.{entries_of, VisitsText, callers-entries}

abbrev binary : CStr
binary = record { loc = 2; text = codes "bin" }

abbrev outer : SymEntry
outer = record {
  addr = 16;
  size = 16;
  slide = 0;
  name = record { loc = 10; text = codes "outer" };
  binary = binary;
}

abbrev inner : SymEntry
inner = record {
  addr = 32;
  size = 16;
  slide = 0;
  name = record { loc = 11; text = codes "inner" };
  binary = binary;
}

abbrev visit : Option SymEntry → ℕ → InsnClass → ℕ → Visit
visit sym ip iclass tsc = record {
  sym = sym;
  ip = ip;
  iclass = iclass;
  tsc = tsc;
  grown = true;
  stack_grown = true;
}

-- A call of the outer function, which calls the inner one twice and returns.
abbrev visits : List Visit
visits =
    visit none 4 call 1
    ∷ visit (some outer) 16 call 2
    ∷ visit (some inner) 32 return 5
    ∷ visit (some outer) 18 call 6
    ∷ visit (some inner) 32 return 9
    ∷ visit (some outer) 20 return 10
    ∷ []

visits-HasMemory : HasMemory visits
unfolding HasMemory
visits-HasMemory =
    (refl, refl, (refl, refl, (refl, refl, (refl, refl, (refl, refl, (refl, refl, tt))))))

abbrev inner_path : List Key
inner_path = (outer.name, outer.binary) ∷ (inner.name, inner.binary) ∷ []

inner_calls : calls_at inner_path plain [] visits ≡ 2
unfolding calls_at outermost
inner_calls = refl

calltree_all-IsSafe_example :
    (start : Calltree) × (ct : Calltree) × (calltree_init true ≡ some start)
    × (calltree_all start visits ≡ some ct)
    × IsSafe ct
calltree_all-IsSafe_example = calltree_all-IsSafe visits

calltree_all-calls_example :
    (start : Calltree) × (ct : Calltree) × (calltree_init true ≡ some start)
    × (calltree_all start visits ≡ some ct)
    × (count_at inner_path ct.tree ≡ calls_at inner_path plain [] visits)
calltree_all-calls_example = calltree_all-calls inner_path visits visits-HasMemory

-- A node of the outer function with one of the inner function, which is called twice.
abbrev small_tree : CtNode
small_tree =
    node (info_of (enter_node 3 (ct_node_init outer.name outer.binary)))
      (cons (enter_node 7 (enter_node 4 (ct_node_init inner.name inner.binary))) nil)

ct_collect_edges-calls_example :
    (of_summary
        (λ f. f.total_calls)
        (inner.name, inner.binary)
        (ct_collect_edges none small_tree [])
      ≡ calls_to (inner.name, inner.binary) small_tree)
    × (of_summary
          (λ f. of_edge (outer.name, outer.binary) f.callers)
          (inner.name, inner.binary)
          (ct_collect_edges none small_tree [])
        ≡ calls_between (outer.name, outer.binary) (inner.name, inner.binary) none small_tree)
    × (of_summary
          (λ f. of_edge (inner.name, inner.binary) f.callees)
          (outer.name, outer.binary)
          (ct_collect_edges none small_tree [])
        ≡ calls_between (outer.name, outer.binary) (inner.name, inner.binary) none small_tree)
ct_collect_edges-calls_example =
    ct_collect_edges-calls (outer.name, outer.binary) (inner.name, inner.binary) small_tree

-- The strings at the addresses above.
abbrev strings : ℕ → Bytes
strings l =
    if l == 0
    then codes "<root>"
    else if l == 1
    then []
    else if l == 2
    then codes "bin"
    else if l == 10
    then codes "outer"
    else codes "inner"

visits-VisitsText : VisitsText strings visits
unfolding VisitsText
visits-VisitsText =
    (tt, ((refl, refl), ((refl, refl), ((refl, refl), ((refl, refl), ((refl, refl), tt))))))

callers-entries_example :
    (start : Calltree) × (ct : Calltree) × (calltree_init true ≡ some start)
    × (calltree_all start visits ≡ some ct)
    × (of_summary (λ f. f.total_calls) (inner.name, inner.binary) (ct_collect_edges none ct.tree [])
        ≡ entries_of (inner.name, inner.binary) plain visits)
callers-entries_example =
    callers-entries strings (inner.name, inner.binary) visits visits-HasMemory visits-VisitsText
      refl refl

-- ===== src/Callers/Totals.antt =====
-- The totals, callers and callees of a function are sums over the call tree, and the two views agree.
use observable_bsd.Prelude.{
  ℕ, ◌+◌, ◌≡◌, refl, ◌∙◌, Option, none, some, [], if◌then◌else◌, arith, if-both,
}
use observable_bsd.Calltree.{CtInfo, CtNode, CtNodes, node, nil, cons, info_of}
use observable_bsd.Callers.{new_summary, count_summary, count_callee, ct_collect_edges}
use observable_bsd.Callers.Sums.{own_nodes, own_edges, of_summary-collected}
use observable_bsd.Callers.Edges.{
  Function, same_text, function_of, of_summary, of_edge, sum_nodes, sum_children, Adds,
  of_edge-callers_add_edge,
}

-- The specification: how often a function is called, as the sum of the counts of its nodes; and how
-- often by another one, as the sum over its nodes below a node of that.
unfoldable pub counted : Function → CtInfo → ℕ
counted k n = if same_text k (function_of n) then n.count else 0

unfoldable pub counted_from : Function → Function → Option CtInfo → CtInfo → ℕ
unfolding counted
counted_from c k none n = 0
counted_from c k (some p) n = if same_text c (function_of p) then counted k n else 0

unfoldable mutual
  unfolding counted

  pub calls_to : Function → CtNode → ℕ
  calls_to k (node n cs) = counted k n + calls_to_children k cs

  pub calls_to_children : Function → CtNodes → ℕ
  calls_to_children k nil = 0
  calls_to_children k (cons c cs) = calls_to k c + calls_to_children k cs

unfoldable mutual
  unfolding counted_from

  pub calls_between : Function → Function → Option CtInfo → CtNode → ℕ
  calls_between c k parent (node n cs) = counted_from c k parent n + calls_between_children c k n cs

  pub calls_between_children : Function → Function → CtInfo → CtNodes → ℕ
  calls_between_children c k n nil = 0
  calls_between_children c k n (cons d cs) =
      calls_between c k (some n) d + calls_between_children c k n cs

nothing : CtInfo → CtInfo → ℕ
nothing n c = 0

total_Adds :
    (parent : Option CtInfo) (n : CtInfo)
    → Adds (λ f. f.total_calls) (count_summary parent n) n.count
unfolding count_summary new_summary
total_Adds none n = record {
  starts = λ a b. refl;
  adds = λ f. refl;
  name = λ f. refl;
  binary = λ f. refl;
}
total_Adds (some p) n = record {
  starts = λ a b. refl;
  adds = λ f. refl;
  name = λ f. refl;
  binary = λ f. refl;
}

total_edge_Adds : (n c : CtInfo) → Adds (λ f. f.total_calls) (count_callee c) (nothing n c)
unfolding count_callee new_summary nothing
total_edge_Adds n c = record {
  starts = λ a b. refl;
  adds = λ f. omega arith;
  name = λ f. refl;
  binary = λ f. refl;
}

mutual
  unfolding sum_nodes calls_to counted nothing

  sum_nodes-calls_to :
      (k : Function) (parent : Option CtInfo) (t : CtNode)
      → sum_nodes (own_nodes k (λ p n. n.count)) (own_edges k nothing) parent t ≡ calls_to k t
  sum_nodes-calls_to k parent (node n cs) = omega (arith, sum_children-calls_to k n cs)

  sum_children-calls_to :
      (k : Function) (n : CtInfo) (cs : CtNodes)
      → sum_children (own_nodes k (λ p n. n.count)) (own_edges k nothing) n cs
        ≡ calls_to_children k cs
  sum_children-calls_to k n nil = refl
  sum_children-calls_to k n (cons c cs) =
      ground (arith, sum_nodes-calls_to k (some n) c, sum_children-calls_to k n cs)

-- The calls of a node by the function `c`, as an edge to the parent and as one to the node.
from_parent : Function → Option CtInfo → CtInfo → ℕ
from_parent c none n = 0
from_parent c (some p) n = if same_text c (function_of p) then n.count else 0

no_node : Option CtInfo → CtInfo → ℕ
no_node p n = 0

abbrev to_child : Function → CtInfo → CtInfo → ℕ
to_child k n c = counted k c

callers_Adds :
    (c : Function) (parent : Option CtInfo) (n : CtInfo)
    → Adds (λ f. of_edge c f.callers) (count_summary parent n) (from_parent c parent n)
unfolding count_summary new_summary from_parent of_edge
callers_Adds c none n = record {
  starts = λ a b. refl;
  adds = λ f. omega arith;
  name = λ f. refl;
  binary = λ f. refl;
}
callers_Adds c (some p) n = record {
  starts = λ a b. refl;
  adds = λ f. of_edge-callers_add_edge c p n.count n.total_tsc f.callers;
  name = λ f. refl;
  binary = λ f. refl;
}

callers_edge_Adds :
    (c : Function) (n m : CtInfo) → Adds (λ f. of_edge c f.callers) (count_callee m) (nothing n m)
unfolding count_callee new_summary nothing of_edge
callers_edge_Adds c n m = record {
  starts = λ a b. refl;
  adds = λ f. omega arith;
  name = λ f. refl;
  binary = λ f. refl;
}

callees_Adds :
    (k : Function) (parent : Option CtInfo) (n : CtInfo)
    → Adds (λ f. of_edge k f.callees) (count_summary parent n) (no_node parent n)
unfolding count_summary new_summary no_node of_edge
callees_Adds k none n = record {
  starts = λ a b. refl;
  adds = λ f. omega arith;
  name = λ f. refl;
  binary = λ f. refl;
}
callees_Adds k (some p) n = record {
  starts = λ a b. refl;
  adds = λ f. omega arith;
  name = λ f. refl;
  binary = λ f. refl;
}

callees_edge_Adds :
    (k : Function) (n m : CtInfo)
    → Adds (λ f. of_edge k f.callees) (count_callee m) (to_child k n m)
unfolding count_callee new_summary of_edge counted
callees_edge_Adds k n m = record {
  starts = λ a b. refl;
  adds = λ f. of_edge-callers_add_edge k m m.count m.total_tsc f.callees;
  name = λ f. refl;
  binary = λ f. refl;
}

from_parent-counted_from :
    (c k : Function) (parent : Option CtInfo) (n : CtInfo)
    → own_nodes k (from_parent c) parent n ≡ counted_from c k parent n
unfolding from_parent counted_from counted
from_parent-counted_from c k none n = ground arith
from_parent-counted_from c k (some p) n = ground arith

mutual
  unfolding sum_nodes calls_between nothing

  callers-calls_between :
      (c k : Function) (parent : Option CtInfo) (t : CtNode)
      → sum_nodes (own_nodes k (from_parent c)) (own_edges k nothing) parent t
        ≡ calls_between c k parent t
  callers-calls_between c k parent (node n cs) =
      omega (arith, from_parent-counted_from c k parent n, callers_children c k n cs)

  callers_children :
      (c k : Function) (n : CtInfo) (cs : CtNodes)
      → sum_children (own_nodes k (from_parent c)) (own_edges k nothing) n cs
        ≡ calls_between_children c k n cs
  callers_children c k n nil = refl
  callers_children c k n (cons d cs) =
      ground (arith, callers-calls_between c k (some n) d, callers_children c k n cs)

mutual
  unfolding sum_nodes calls_between counted_from no_node

  callees-calls_between :
      (c k : Function) (parent : Option CtInfo) (t : CtNode)
      → sum_nodes (own_nodes c no_node) (own_edges c (to_child k)) parent t
          + counted_from c k parent (info_of t)
        ≡ calls_between c k parent t
  callees-calls_between c k parent (node n cs) =
      let z =
        if-both (λ v. v ≡ 0) (same_text c (function_of n)) {x = no_node parent n} {y = 0} refl
          refl in
      omega (arith, z, callees_children c k n cs)

  callees_children :
      (c k : Function) (n : CtInfo) (cs : CtNodes)
      → sum_children (own_nodes c no_node) (own_edges c (to_child k)) n cs
        ≡ calls_between_children c k n cs
  callees_children c k n nil = refl
  callees_children c k n (cons d cs) =
      omega (arith, callees-calls_between c k (some n) d, callees_children c k n cs)

-- For every call tree and any two functions, told apart by the text of their names: in the view
-- that ct_collect_edges() collects, the total of the one is the sum of the counts of all its nodes;
-- the caller edge that it has from the other is the sum over its nodes whose parent is the
-- other's; and this is also the callee edge that the other has to it.
pub ct_collect_edges-calls :
    (c k : Function) (t : CtNode)
    → (let funcs = ct_collect_edges none t [] in
        (of_summary (λ f. f.total_calls) k funcs ≡ calls_to k t)
        × (of_summary (λ f. of_edge c f.callers) k funcs ≡ calls_between c k none t)
        × (of_summary (λ f. of_edge k f.callees) c funcs ≡ calls_between c k none t))
unfolding counted_from
ct_collect_edges-calls c k t = (
  of_summary-collected (λ f. f.total_calls) k (λ p n. n.count) nothing total_Adds total_edge_Adds t
      ∙ sum_nodes-calls_to k none t,
  of_summary-collected (λ f. of_edge c f.callers) k (from_parent c) nothing (callers_Adds c)
        (callers_edge_Adds c) t
      ∙ callers-calls_between c k none t,
  of_summary-collected (λ f. of_edge k f.callees) c no_node (to_child k) (callees_Adds k)
        (callees_edge_Adds k) t
      ∙ omega (arith, callees-calls_between c k none t),
)

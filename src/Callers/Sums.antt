-- ===== src/Callers/Sums.antt =====
-- A number that ct_collect_edges() adds up is a sum over the call tree.
use observable_bsd.Prelude.{ℕ, ◌+◌, ◌≡◌, ◌∙◌, Option, none, some, List, [], if◌then◌else◌, arith}
use observable_bsd.Calltree.{CtInfo, CtNode, CtNodes, node, nil, cons, info_of}
use observable_bsd.Callers.{
  FuncSummary, callers_find_or_add, count_summary, count_callee, ct_collect_edges, collect_children,
}
use observable_bsd.Callers.Edges.{
  Function, same_text, function_of, of_summary, sum_nodes, sum_children, Adds,
  of_summary-find_or_add,
}

-- What of the sums belongs to a function.
abbrev pub own_nodes : Function → (Option CtInfo → CtInfo → ℕ) → Option CtInfo → CtInfo → ℕ
own_nodes k s parent n = if same_text k (function_of n) then s parent n else 0

abbrev pub own_edges : Function → (CtInfo → CtInfo → ℕ) → CtInfo → CtInfo → ℕ
own_edges k u n c = if same_text k (function_of n) then u n c else 0

module _ (g : FuncSummary → ℕ) (k : Function) (s : Option CtInfo → CtInfo → ℕ)
    (u : CtInfo → CtInfo → ℕ)
    (node_Adds : (parent : Option CtInfo) (n : CtInfo)
      → Adds g (count_summary parent n) (s parent n))
    (edge_Adds : (n c : CtInfo) → Adds g (count_callee c) (u n c)) where
  mutual
    unfolding ct_collect_edges sum_nodes

    of_summary-collect :
        (parent : Option CtInfo) (t : CtNode) (fs : List FuncSummary)
        → of_summary g k (ct_collect_edges parent t fs)
          ≡ of_summary g k fs + sum_nodes (own_nodes k s) (own_edges k u) parent t
    of_summary-collect parent (node n cs) fs =
        let first = callers_find_or_add n.name n.binary (count_summary parent n) fs in
        let a =
          of_summary-find_or_add g (count_summary parent n) (s parent n) (node_Adds parent n) k
            (function_of n) fs in
        let b = of_summary-children n cs first in omega (arith, a, b)

    of_summary-children :
        (n : CtInfo) (cs : CtNodes) (fs : List FuncSummary)
        → of_summary g k (collect_children n cs fs)
          ≡ of_summary g k fs + sum_children (own_nodes k s) (own_edges k u) n cs
    of_summary-children n nil fs = omega arith
    of_summary-children n (cons c cs) fs =
        let first = callers_find_or_add n.name n.binary (count_callee (info_of c)) fs in
        let second = ct_collect_edges (some n) c first in
        let a =
          of_summary-find_or_add g (count_callee (info_of c)) (u n (info_of c))
            (edge_Adds n (info_of c)) k (function_of n) fs in
        let b = of_summary-collect (some n) c first in
        let d = of_summary-children n cs second in omega (arith, a, b, d)

  pub of_summary-collected :
      (t : CtNode)
      → of_summary g k (ct_collect_edges none t [])
        ≡ sum_nodes (own_nodes k s) (own_edges k u) none t
  unfolding of_summary
  of_summary-collected t = of_summary-collect none t [] ∙ omega arith

-- ===== src/Callers.antt =====
-- Sources/bsdtrace/decode.c: the view of callers and callees, which is collected from the call tree.
-- Names are compared by content here. No name of a node is NULL, and realloc(), whose result is not
-- tested, is taken to succeed.
pub mod Edges
pub mod Sums
pub mod Totals
pub mod Stored
pub mod Trace
use observable_bsd.Prelude.{
  ℕ, zero, suc, ◌+◌, Bool, true, false, ◌&&◌, Option, none, some, List, [], ◌∷◌, ◌++◌, Bytes,
  bytes_eq, if◌then◌else◌, length,
}
use observable_bsd.Types.{CStr, add64}
use observable_bsd.Calltree.{CtInfo, CtNode, CtNodes, node, nil, cons, info_of, count_nodes}

-- struct caller_edge
pub record CallerEdge : Type 0 where
  pub name : CStr
  pub binary : CStr
  pub count : ℕ
  pub tsc : ℕ

-- struct func_summary; ncallers and ncallees are the lengths of the lists.
pub record FuncSummary : Type 0 where
  pub name : CStr
  pub binary : CStr
  pub total_calls : ℕ
  pub total_tsc : ℕ
  pub callers : List CallerEdge
  pub callees : List CallerEdge

-- strcmp() of both names
abbrev pub is_edge_of : CStr → CStr → CallerEdge → Bool
is_edge_of name binary e = bytes_eq e.name.text name.text && bytes_eq e.binary.text binary.text

abbrev pub is_summary_of : CStr → CStr → FuncSummary → Bool
is_summary_of name binary f = bytes_eq f.name.text name.text && bytes_eq f.binary.text binary.text

-- What callers_find_or_add() makes, and what is then done through the pointer that it returns.
unfoldable pub new_summary : CStr → CStr → FuncSummary
new_summary name binary = record {
  name = name;
  binary = binary;
  total_calls = 0;
  total_tsc = 0;
  callers = [];
  callees = [];
}

unfoldable pub callers_find_or_add :
    CStr → CStr → (FuncSummary → FuncSummary) → List FuncSummary → List FuncSummary
unfolding new_summary
callers_find_or_add name binary change [] = change (new_summary name binary) ∷ []
callers_find_or_add name binary change (f ∷ fs) =
    let rest = callers_find_or_add name binary change fs in
    if is_summary_of name binary f then change f ∷ fs else f ∷ rest

-- callers_add_edge() with the count and the ticks of a node.
unfoldable pub callers_add_edge : CtInfo → ℕ → ℕ → List CallerEdge → List CallerEdge
callers_add_edge n count tsc [] =
    record { name = n.name; binary = n.binary; count = count; tsc = tsc } ∷ []
callers_add_edge n count tsc (e ∷ es) =
    let rest = callers_add_edge n count tsc es in
    if is_edge_of n.name n.binary e
    then record e { count = e.count + count; tsc = add64 e.tsc tsc } ∷ es
    else e ∷ rest

-- The first `if` of ct_collect_edges(): the node's own summary; the parent is none for the root.
unfoldable pub count_summary : Option CtInfo → CtInfo → FuncSummary → FuncSummary
unfolding callers_add_edge
count_summary parent n f =
    let f' : FuncSummary = record f {
      total_calls = f.total_calls + n.count;
      total_tsc = add64 f.total_tsc n.total_tsc;
    } in
    elim parent [
      | none ↦ f'
      | some p ↦ record f' { callers = callers_add_edge p n.count n.total_tsc f.callers }
    ]

-- The `if` in its loop: the child as a callee of the node.
unfoldable pub count_callee : CtInfo → FuncSummary → FuncSummary
unfolding callers_add_edge
count_callee child f = record f {
  callees = callers_add_edge child child.count child.total_tsc f.callees;
}

-- ct_collect_edges(), and its loop over the children of a node.
unfoldable mutual
  unfolding count_summary count_callee callers_find_or_add

  pub ct_collect_edges : Option CtInfo → CtNode → List FuncSummary → List FuncSummary
  ct_collect_edges parent (node n cs) funcs =
      collect_children n cs (callers_find_or_add n.name n.binary (count_summary parent n) funcs)

  pub collect_children : CtInfo → CtNodes → List FuncSummary → List FuncSummary
  collect_children n nil funcs = funcs
  collect_children n (cons c cs) funcs = collect_children n cs (
      ct_collect_edges (some n) c
        (callers_find_or_add n.name n.binary (count_callee (info_of c)) funcs))

-- ct_node_count(), and its loop.
unfoldable mutual
  pub ct_node_count : CtNode → ℕ
  ct_node_count (node n cs) = count_nodes cs + count_below cs

  pub count_below : CtNodes → ℕ
  count_below nil = 0
  count_below (cons c cs) = ct_node_count c + count_below cs

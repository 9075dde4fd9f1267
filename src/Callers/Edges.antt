-- ===== src/Callers/Edges.antt =====
-- What the view of callers and callees says of the call tree.
use observable_bsd.Prelude.{
  ℕ, ◌+◌, ◌≡◌, refl, ap, ◌∙◌, inl, inr, Bool, true, false, ◌&&◌, Option, some, List, [], ◌∷◌, Bytes,
  bytes_eq, bytes_eq_refl, bytes_eq_sound, if◌then◌else◌, arith, Bool-cases,
}
use observable_bsd.Types.{CStr}
use observable_bsd.Calltree.{CtInfo, CtNode, CtNodes, node, nil, cons, info_of}
use observable_bsd.Callers.{
  CallerEdge, FuncSummary, is_edge_of, is_summary_of, new_summary, callers_find_or_add,
  callers_add_edge,
}

-- The names of a function, compared by content.
abbrev pub Function : Type 0
Function = CStr × CStr

abbrev pub same_text : Function → Function → Bool
same_text k l = bytes_eq k.0.text l.0.text && bytes_eq k.1.text l.1.text

abbrev pub function_of : CtInfo → Function
function_of n = (n.name, n.binary)

-- A number of the first summary of a function, and the count of the first edge to it; 0 where there
-- is none.
unfoldable pub of_summary : (FuncSummary → ℕ) → Function → List FuncSummary → ℕ
of_summary g k [] = 0
of_summary g k (f ∷ fs) = if is_summary_of k.0 k.1 f then g f else of_summary g k fs

unfoldable pub of_edge : Function → List CallerEdge → ℕ
of_edge k [] = 0
of_edge k (e ∷ es) = if is_edge_of k.0 k.1 e then e.count else of_edge k es

-- The specification: a sum over the nodes below a parent, and over the edges between them.
unfoldable mutual
  pub sum_nodes : (Option CtInfo → CtInfo → ℕ) → (CtInfo → CtInfo → ℕ) → Option CtInfo → CtNode → ℕ
  sum_nodes s u parent (node n cs) = s parent n + sum_children s u n cs

  pub sum_children : (Option CtInfo → CtInfo → ℕ) → (CtInfo → CtInfo → ℕ) → CtInfo → CtNodes → ℕ
  sum_children s u n nil = 0
  sum_children s u n (cons c cs) =
      u n (info_of c) + sum_nodes s u (some n) c + sum_children s u n cs

-- The text that two strings have in common.
bytes_eq_sides : (a b c : Bytes) → bytes_eq b c ≡ true → bytes_eq a b ≡ bytes_eq a c
bytes_eq_sides a b c h = ap (bytes_eq a) (bytes_eq_sound b c h)

and_true : (a b : Bool) → (a && b) ≡ true → (a ≡ true) × (b ≡ true)
and_true a b h = ground arith

same_text_sides :
    (a b : Bytes) (k l : Function)
    → same_text k l ≡ true
    → (bytes_eq a k.0.text && bytes_eq b k.1.text) ≡ (bytes_eq a l.0.text && bytes_eq b l.1.text)
same_text_sides a b k l h =
    let (p, q) = and_true (bytes_eq k.0.text l.0.text) (bytes_eq k.1.text l.1.text) h in
    rw (bytes_eq_sides a k.0.text l.0.text p, bytes_eq_sides b k.1.text l.1.text q) refl

bytes_eq_comm : (a b : Bytes) → bytes_eq a b ≡ bytes_eq b a
unfolding bytes_eq
bytes_eq_comm [] [] = refl
bytes_eq_comm [] (y ∷ ys) = refl
bytes_eq_comm (x ∷ xs) [] = refl
bytes_eq_comm (x ∷ xs) (y ∷ ys) = ground (arith, bytes_eq_comm xs ys)

-- Which function something with the names `a` and `b` is of: of `l` exactly if of `k`, where these are
-- the same.
own_same :
    (a b : CStr) (k l : Function)
    → (bytes_eq a.text k.0.text && bytes_eq b.text k.1.text) ≡ true
    → (bytes_eq a.text l.0.text && bytes_eq b.text l.1.text) ≡ same_text l k
own_same a b k l h =
    let (p, q) = and_true (bytes_eq a.text k.0.text) (bytes_eq b.text k.1.text) h in
    rw
      (
        bytes_eq_sound a.text k.0.text p,
        bytes_eq_sound b.text k.1.text q,
        bytes_eq_comm l.0.text k.0.text,
        bytes_eq_comm l.1.text k.1.text,
      )
      refl

own_other :
    (a b : CStr) (k l : Function)
    → (bytes_eq a.text k.0.text && bytes_eq b.text k.1.text) ≡ false
    → (bytes_eq a.text l.0.text && bytes_eq b.text l.1.text) ≡ true
    → same_text l k ≡ false
own_other a b k l h m = elim (Bool-cases (same_text l k)) [
  | inl e ↦ let s = same_text_sides a.text b.text l k e in absurd (ground arith)
  | inr e ↦ e
]

-- A change that keeps the names and adds `d` to a number that a new summary does not have.
pub record Adds (g : FuncSummary → ℕ) (change : FuncSummary → FuncSummary) (d : ℕ) : Type 0 where
  pub starts : (name binary : CStr) → g (new_summary name binary) ≡ 0
  pub adds : (f : FuncSummary) → g (change f) ≡ g f + d
  pub name : (f : FuncSummary) → (change f).name ≡ f.name
  pub binary : (f : FuncSummary) → (change f).binary ≡ f.binary

module _ (g : FuncSummary → ℕ) (change : FuncSummary → FuncSummary) (d : ℕ)
    (c : Adds g change d) where
  of_summary-head :
      (k l : Function) (f : FuncSummary) (fs : List FuncSummary)
      → is_summary_of l.0 l.1 f ≡ true
      → of_summary g k (change f ∷ fs) ≡ of_summary g k (f ∷ fs) + (if same_text k l then d else 0)
  unfolding of_summary
  of_summary-head k l f fs h =
      let n : is_summary_of k.0 k.1 f ≡ same_text k l = own_same f.name f.binary l k h in
      let m : is_summary_of k.0 k.1 (change f) ≡ same_text k l = rw (c.name f, c.binary f) n in
      elim (Bool-cases (same_text k l)) [
        | inl e ↦ let a = m ∙ e in let b = n ∙ e in rw (e, a, b) (c.adds f)
        | inr e ↦ let a = m ∙ e in let b = n ∙ e in rw (e, a, b) (omega arith)
      ]

  pub of_summary-find_or_add :
      (k l : Function) (fs : List FuncSummary)
      → of_summary g k (callers_find_or_add l.0 l.1 change fs)
        ≡ of_summary g k fs + (if same_text k l then d else 0)
  unfolding of_summary callers_find_or_add
  of_summary-find_or_add k l [] =
      let x = new_summary l.0 l.1 in
      let own : is_summary_of l.0 l.1 x ≡ true =
        unfold new_summary in ground (arith, bytes_eq_refl l.0.text, bytes_eq_refl l.1.text) in
      let s = c.starts l.0 l.1 in of_summary-head k l x [] own ∙ ground arith
  of_summary-find_or_add k l (f ∷ fs) = elim (Bool-cases (is_summary_of l.0 l.1 f)) [
    | inl e ↦ rw e (of_summary-head k l f fs e)
    | inr e ↦ elim (Bool-cases (is_summary_of k.0 k.1 f)) [
      | inl m ↦ let o = own_other f.name f.binary l k e m in rw (e, m, o) (omega arith)
      | inr m ↦ rw (e, m) (of_summary-find_or_add k l fs)
    ]
  ]

-- An edge that is added, to the summary's first edge of the same function.
pub of_edge-callers_add_edge :
    (k : Function) (n : CtInfo) (count tsc : ℕ) (es : List CallerEdge)
    → of_edge k (callers_add_edge n count tsc es)
      ≡ of_edge k es + (if same_text k (function_of n) then count else 0)
unfolding of_edge callers_add_edge
of_edge-callers_add_edge k n count tsc [] =
    rw (bytes_eq_comm k.0.text n.name.text, bytes_eq_comm k.1.text n.binary.text) (ground arith)
of_edge-callers_add_edge k n count tsc (e ∷ es) = elim (Bool-cases (is_edge_of n.name n.binary e)) [
  | inl h ↦ rw (h, own_same e.name e.binary (function_of n) k h) (ground arith)
  | inr h ↦ elim (Bool-cases (is_edge_of k.0 k.1 e)) [
    | inl m ↦ let o = own_other e.name e.binary (function_of n) k h m in rw (h, m, o) (omega arith)
    | inr m ↦ rw (h, m) (of_edge-callers_add_edge k n count tsc es)
  ]
]

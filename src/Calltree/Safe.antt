-- ===== src/Calltree/Safe.antt =====
-- No pointer of the shadow stack dangles, whatever realloc() answers.
use observable_bsd.Prelude.{
  ℕ, ◌≡◌, refl, true, ◌&&◌, Option, none, some, List, [], ◌∷◌, ◌==◌, if-both,
}
use observable_bsd.Symbols.{SymEntry}
use observable_bsd.Profile.{after_call}
use observable_bsd.Collapsed.{is_return}
use observable_bsd.Calltree.{
  CtNode, NodePtr, Calltree, node_at, path_of, leave_node, pop_to, calltree_pop, Visit, push_if,
  pop_if, calltree_record, calltree_all, calltree_init,
}
use observable_bsd.Calltree.Memory.{IsLive, AllLive, deref-IsLive, store-IsLive}
use observable_bsd.Calltree.Live.{
  IsSafe, Stays, with_node, leave_node-children, leave_node-block, fields-AllLive,
  calltree_push-Stays,
}

-- calltree_pop() from a safe state with a frame to leave.
pub pop_live :
    (ct : Calltree) (tsc : ℕ) (p : NodePtr) (ps : List NodePtr)
    → IsLive ct.tree ct.top
    → (y : CtNode) × (node_at (path_of ct.top) ct.tree ≡ some y)
      × (pop_to ct tsc (p ∷ ps)
          ≡ some (record (with_node ct ct.top (leave_node tsc y)) { top = p; below = ps }))
unfolding pop_to
pop_live ct tsc p ps l =
    let (y, e, f) = deref-IsLive ct.tree ct.top l in
    (y, f, rw (e, pop_to, store-IsLive ct.tree (leave_node tsc y) ct.top l) refl)

pub pop_to-Stays :
    (ct : Calltree) (tsc : ℕ) (ps : List NodePtr)
    → ct.below ≡ ps
    → IsSafe ct
    → Stays (pop_to ct tsc ps)
unfolding pop_to IsSafe AllLive
pop_to-Stays ct tsc [] b s = (ct, refl, s)
pop_to-Stays ct tsc (p ∷ ps) b (d, v, l) =
    let (y, f, e) = pop_live ct tsc p ps v in
    let kept =
      fields-AllLive ct.tree (leave_node tsc y) y (path_of ct.top) (p ∷ ps) f
        (leave_node-children tsc y) (leave_node-block tsc y) (rw b at l) in
    (_, e, kept)

calltree_pop-Stays : (ct : Calltree) (tsc : ℕ) → IsSafe ct → Stays (calltree_pop ct tsc)
unfolding calltree_pop
calltree_pop-Stays ct tsc s = pop_to-Stays ct tsc ct.below refl s

pub push_if-Stays :
    (ct : Calltree) (x : Visit) (sym : Option SymEntry) → IsSafe ct → Stays (push_if ct x sym)
unfolding push_if
push_if-Stays ct x none s = (ct, refl, s)
push_if-Stays ct x (some sym) s =
    if-both Stays (x.ip == sym.addr && after_call ct.prev_class) (calltree_push-Stays ct x sym s)
      (ct, refl, s)

pub pop_if-Stays : (x : Visit) (ct : Calltree) → IsSafe ct → Stays (pop_if x ct)
unfolding pop_if
pop_if-Stays x ct s =
    if-both Stays (is_return x.iclass) (calltree_pop-Stays ct x.tsc s) (ct, refl, s)

pub calltree_record-Stays : (ct : Calltree) (x : Visit) → IsSafe ct → Stays (calltree_record ct x)
unfolding calltree_record IsSafe
calltree_record-Stays ct x s =
    let (a, e, u) = push_if-Stays ct x x.sym s in
    let (b, f, v) = pop_if-Stays x a u in
    rw (e, calltree_record, f) (record b { prev_class = x.iclass }, refl, v)

calltree_all-Stays : (ct : Calltree) (xs : List Visit) → IsSafe ct → Stays (calltree_all ct xs)
unfolding calltree_all
calltree_all-Stays ct [] s = (ct, refl, s)
calltree_all-Stays ct (x ∷ xs) s =
    let (a, e, u) = calltree_record-Stays ct x s in
    let (b, f, v) = calltree_all-Stays a xs u in rw (e, calltree_all, f) (b, refl, v)

-- For every sequence of decoded instructions, whatever realloc() answers for the arrays of children
-- and for the stack: calltree_record() never follows a pointer of the shadow stack into an array
-- that realloc() has freed, or beyond the children of its owner, and in the end each slot up to the
-- top names a node, as deep in the tree as the slot lies in the stack. The calloc() of
-- calltree_init() has to succeed.
pub calltree_all-IsSafe :
    (xs : List Visit)
    → (start : Calltree) × (ct : Calltree) × (calltree_init true ≡ some start)
      × (calltree_all start xs ≡ some ct)
      × IsSafe ct
unfolding calltree_init IsSafe AllLive IsLive
calltree_all-IsSafe xs =
    let (start, e, s) : Stays (calltree_init true) = (_, refl, (refl, tt, tt)) in
    let (ct, f, u) = calltree_all-Stays start xs s in (start, ct, e, f, u)

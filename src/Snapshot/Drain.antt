-- ===== src/Snapshot/Drain.antt =====
-- The drain after a stop ends, and no record that it polls is lost.
use observable_bsd.Prelude.{
  ℕ, zero, suc, ◌+◌, ◌*◌, ◌<◌, ◌≡◌, refl, ap, ◌∙◌, true, false, Option, none, some, List, [], ◌∷◌,
  ◌++◌, ltb, length, arith,
}
use observable_bsd.Trace.{TraceState, trace_state_process}
use observable_bsd.Snapshot.{
  Polled, post_stop_empty_polls, process_batch, drain_loop, trace_state_drain_post_stop,
}

-- The records that the polls deliver before the first error or the fortieth empty poll in a row,
-- where `left` more empty polls in a row are allowed.
unfoldable pub delivered : ℕ → List (Option (List Polled)) → List Polled
delivered zero polls = []
delivered (suc left) [] = []
delivered (suc left) (none ∷ polls) = []
delivered (suc left) (some [] ∷ polls) = delivered left polls
delivered (suc left) (some (r ∷ rs) ∷ polls) = r ∷ rs ++ delivered post_stop_empty_polls polls

process_batch-append :
    (rs qs : List Polled) (ts : TraceState) (total : ℕ)
    → process_batch (rs ++ qs) ts total
      ≡ process_batch qs (process_batch rs ts total).0 (process_batch rs ts total).1
unfolding process_batch
process_batch-append [] qs ts total = refl
process_batch-append ((r, grown) ∷ rs) qs ts total =
    process_batch-append rs qs (trace_state_process ts grown r) (total + 1)

process_batch-total :
    (rs : List Polled) (ts : TraceState) (total : ℕ)
    → (process_batch rs ts total).1 ≡ total + length rs
unfolding process_batch
process_batch-total [] ts total = omega arith
process_batch-total ((r, grown) ∷ rs) ts total =
    process_batch-total rs (trace_state_process ts grown r) (total + 1) ∙ omega arith

delivered-nil : (left : ℕ) → delivered left [] ≡ []
unfolding delivered
delivered-nil zero = refl
delivered-nil (suc left) = refl

drain_loop-delivered :
    (fuel : ℕ) (polls : List (Option (List Polled))) (empty left : ℕ) (ts : TraceState) (total : ℕ)
    → empty + left ≡ 40
    → length polls * 41 + left < fuel
    → drain_loop fuel polls empty ts total ≡ some (process_batch (delivered left polls) ts total)
unfolding drain_loop delivered
drain_loop-delivered zero polls empty left ts total h k = absurd (omega arith)
drain_loop-delivered (suc fuel) [] empty zero ts total h k =
    let e : ltb empty 40 ≡ false = ground arith in rw e (unfold process_batch in refl)
drain_loop-delivered (suc fuel) (none ∷ polls) empty zero ts total h k =
    unfold process_batch in refl
drain_loop-delivered (suc fuel) (some [] ∷ polls) empty zero ts total h k =
    let e : ltb empty 40 ≡ false = ground arith in rw e (unfold process_batch in refl)
drain_loop-delivered (suc fuel) (some (r ∷ rs) ∷ polls) empty zero ts total h k =
    let e : ltb empty 40 ≡ false = ground arith in rw e (unfold process_batch in refl)
drain_loop-delivered (suc fuel) [] empty (suc left) ts total h k =
    let e : ltb empty 40 ≡ true = ground arith in
    rw e (
      drain_loop-delivered fuel [] (empty + 1) left ts total (omega arith) (omega arith)
      ∙ ap (λ rs. some (process_batch rs ts total)) (delivered-nil left))
drain_loop-delivered (suc fuel) (none ∷ polls) empty (suc left) ts total h k =
    unfold process_batch in refl
drain_loop-delivered (suc fuel) (some [] ∷ polls) empty (suc left) ts total h k =
    let e : ltb empty 40 ≡ true = ground arith in
    rw e (drain_loop-delivered fuel polls (empty + 1) left ts total (omega arith) (omega arith))
drain_loop-delivered (suc fuel) (some (r ∷ rs) ∷ polls) empty (suc left) ts total h k =
    let e : ltb empty 40 ≡ true = ground arith in
    rw (e, process_batch-append (r ∷ rs) (delivered post_stop_empty_polls polls) ts total)
      (drain_loop-delivered fuel polls 0 40 (process_batch (r ∷ rs) ts total).0
        (process_batch (r ∷ rs) ts total).1 refl (omega arith))

-- With forty-one rounds of fuel for each poll and one more set, the drain ends; it has processed,
-- in order, exactly the records that the polls delivered before the first error or the fortieth
-- empty poll in a row, and it returns their number.
pub trace_state_drain_post_stop-delivered :
    (fuel : ℕ) (polls : List (Option (List Polled))) (ts : TraceState)
    → length polls * 41 + 40 < fuel
    → (trace_state_drain_post_stop fuel polls ts ≡ some (process_batch (delivered 40 polls) ts 0))
      × ((process_batch (delivered 40 polls) ts 0).1 ≡ length (delivered 40 polls))
unfolding trace_state_drain_post_stop
trace_state_drain_post_stop-delivered fuel polls ts h = (
  drain_loop-delivered fuel polls 0 40 ts 0 refl h,
  process_batch-total (delivered 40 polls) ts 0 ∙ omega arith,
)

-- ===== src/Finalize/Whole.antt =====
-- Sources/bsdtrace/trace.c: snapshot_and_decode() and trace_finalize() as a whole, with the drain
-- after the stop on the context.
use observable_bsd.Prelude.{
  ℕ, zero, suc, ◌+◌, ◌/◌, ◌%◌, true, false, not, ◌&&◌, ◌||◌, Option, none, some, List, [], ◌∷◌,
  Bytes, ltb, ◌==◌, if◌then◌else◌, length, ℤ, pos, negsuc, is_empty,
}
use observable_bsd.Types.{page_size, to_int}
use observable_bsd.Trace.{
  TraceState, process_all, trace_state_ensure_kernel, trace_state_reset_sections,
}
use observable_bsd.Snapshot.{known_end, choose_snapshot_len, post_stop_empty_polls}
use observable_bsd.Hwt.Process.{Os}
use observable_bsd.Hwt.{HwtThreadCtx, Session, Kernel, hwt_ctx_close}
use observable_bsd.Hwt.Operations.{
  hwt_ctx_stop, hwt_ctx_bufptr_get, hwt_ctx_map_buffer, hwt_ctx_poll_records,
}
use observable_bsd.Hwt.Buffer.{Saved, nothing, failed, saved, stuck, hwt_ctx_snapshot_buffer}
use observable_bsd.Poll.{emit_all}
use observable_bsd.Finalize.{Answers, ThreadFile, snapshot_threads}

-- What snapshot_and_decode() leaves: its value, what it has saved of the primary thread, and the
-- files of the others.
pub record SnapshotResult : Type 0 where
  pub session : Session
  pub value : ℤ
  pub primary : Saved
  pub files : List ThreadFile

-- What trace_finalize() leaves: its value, none where it returns -1, and the snapshot.
pub record Finalized : Type 0 where
  pub session : Session
  pub trace : TraceState
  pub value : Option ℕ
  pub snapshot : SnapshotResult

-- if (saved >= 0) saved += thread_saved;
unfoldable pub add_saved : List ThreadFile → ℤ → ℤ
add_saved [] n = n
add_saved (f ∷ fs) (pos n) = add_saved fs (pos (n + length f.bytes))
add_saved (f ∷ fs) (negsuc n) = add_saved fs (negsuc n)

module _ (k : Kernel) (a : Answers) (pt_output : Bytes) where
  unfoldable pub with_files :
      Session
      → ℤ
      → Saved
      → Option (List HwtThreadCtx × Os × List ThreadFile)
      → Option SnapshotResult
  with_files s n primary none = none
  with_files s n primary (some (us, os, fs)) = some (record {
    session = record { ctx = record s.ctx { threads = us }; os = os };
    value = add_saved fs n;
    primary = primary;
    files = fs;
  })

  -- From the further threads on.
  unfoldable pub other_threads : TraceState → Session → ℤ → Saved → Option SnapshotResult
  unfolding with_files
  other_threads ts s n primary =
      if (s.ctx.all_threads || not (is_empty s.ctx.requested_tids)) && not (is_empty s.ctx.threads)
      then with_files s n primary (snapshot_threads k a pt_output s.ctx ts s.ctx.threads s.os)
      else some (record { session = s; value = n; primary = primary; files = [] })

  -- From the result of hwt_ctx_snapshot_buffer() on.
  unfoldable pub after_primary : TraceState → Session → Saved → Option SnapshotResult
  unfolding other_threads
  after_primary ts s nothing = other_threads ts s (pos 0) nothing
  after_primary ts s failed = other_threads ts s (negsuc 0) failed
  after_primary ts s (saved n file) = other_threads ts s (pos n) (saved n file)
  after_primary ts s stuck = none

  -- From the test of the buffer on.
  unfoldable pub from_buffer : TraceState → Session → ℕ → Option ℕ → Option SnapshotResult
  unfolding after_primary
  from_buffer ts s base_len none =
      some (record { session = s; value = negsuc 0; primary = failed; files = [] })
  from_buffer ts s base_len (some p) =
      let actual_len =
        choose_snapshot_len (a.primary_probe ts.sections) (some (k.memory p)) base_len
          (not (is_empty ts.sections)) in
      let (s', r) =
        hwt_ctx_snapshot_buffer k a.primary_write a.fuel s (to_int (actual_len / page_size))
          (actual_len % page_size) in
      if actual_len == 0
      then some (record { session = s; value = pos 0; primary = nothing; files = [] })
      else after_primary ts s' r

  -- None: the fuel did not suffice.
  unfoldable pub snapshot_and_decode : TraceState → Session → Option SnapshotResult
  unfolding from_buffer
  snapshot_and_decode ts s =
      let (s', bufptr) = hwt_ctx_bufptr_get k s in
      let (s'', p) = hwt_ctx_map_buffer k s' in
      from_buffer ts s'' (known_end ts s.ctx.bufsize bufptr) p

  -- trace_state_drain_post_stop() on the context. None: the fuel did not suffice.
  unfoldable pub drain : ℕ → Session → ℕ → TraceState → ℕ → Option (Session × TraceState × ℕ)
  drain zero s empty ts total = none
  drain (suc fuel) s empty ts total =
      let (s', polled) = hwt_ctx_poll_records k s 256 false in
      let next : Option (Session × TraceState × ℕ) = elim polled [
        | none ↦ some (s', ts, total)
        | some rs ↦ elim rs [
          | [] ↦ drain fuel s' (empty + 1) ts total
          | r ∷ rs' ↦
              drain fuel s' 0 (process_all ts (a.grown s.os) (r ∷ rs')) (total + length (r ∷ rs'))
        ]
      ] in
      if ltb empty post_stop_empty_polls then next else some (s, ts, total)

  -- The final drain before the stop, with the number of its records.
  unfoldable pub final_drain : Session → TraceState → (Session × TraceState) × ℕ
  final_drain s ts =
      let (s', polled) = hwt_ctx_poll_records k s 256 false in
      elim polled [
        | none ↦ ((s', ts), 0)
        | some rs ↦ (emit_all k true (a.grown s.os) rs (s', ts), length rs)
      ]

  unfoldable pub closed : TraceState → ℕ → Option SnapshotResult → Option Finalized
  closed ts total none = none
  closed ts total (some shot) = some (record {
    session = hwt_ctx_close shot.session;
    trace = trace_state_reset_sections ts;
    value = elim shot.value [ pos n ↦ some total | negsuc n ↦ none ];
    snapshot = shot;
  })

  -- From the end of the drain after the stop on.
  unfoldable pub after_drain : ℕ → Option (Session × TraceState × ℕ) → Option Finalized
  unfolding closed
  after_drain total none = none
  after_drain total (some (s, ts, late)) =
      let ts' : TraceState =
        if s.ctx.os_trace then trace_state_ensure_kernel ts (a.grown s.os 0) a.kbase else ts in
      closed ts' (total + late) (snapshot_and_decode ts' s)

  unfoldable pub trace_finalize : ℕ → Session → TraceState → ℕ → Option Finalized
  unfolding after_drain
  trace_finalize fuel s ts totalrecords =
      let ((s', ts'), n) = final_drain s ts in
      after_drain (totalrecords + n) (drain fuel (hwt_ctx_stop k s').0 0 ts' 0)

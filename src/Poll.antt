-- ===== src/Poll.antt =====
-- Sources/bsdtrace/trace.c: what cmd_exec.c and cmd_trace.c share around their polling loops.
pub mod Woken
use observable_bsd.Prelude.{
  ℕ, suc, ◌+◌, ◌-◌, Bool, true, false, not, ◌&&◌, ◌||◌, Option, none, some, List, [], ◌∷◌, ◌++◌,
  Bytes, codes, bytes_eq, ltb, if◌then◌else◌, length, take, drop, ℤ, eq_ℤ,
}
use observable_bsd.Types.{RecordType, BsdtraceRecord, thread_create, is_mmap, is_executable}
use observable_bsd.Trace.{TraceState, trace_state_process}
use observable_bsd.Hwt.Process.{Os}
use observable_bsd.Hwt.{Session, HwtCtx, Kernel}
use observable_bsd.Hwt.Operations.{hwt_ctx_wakeup, hwt_ctx_open_thread}
use observable_bsd.Hwt.Detect.{hwt_available, hwt_hooks_enabled, hwt_detect_backend}

-- rec->type == HWT_RECORD_MMAP || rec->type == HWT_RECORD_EXECUTABLE
abbrev pub pauses : BsdtraceRecord → Bool
pauses rec = is_mmap rec.type || is_executable rec.type

is_thread_create : RecordType → Bool
is_thread_create thread_create = true
is_thread_create _ = false

is_requested : List ℤ → ℤ → Bool
is_requested [] tid = false
is_requested (t ∷ ts) tid = eq_ℤ t tid || is_requested ts tid

-- `want`, where the record is of a new thread.
unfoldable pub wants_thread : HwtCtx → BsdtraceRecord → Bool
unfolding is_thread_create is_requested
wants_thread ctx rec =
    is_thread_create rec.type
    && not (eq_ℤ rec.thread_id ctx.tid)
    && (ctx.all_threads || is_requested ctx.requested_tids rec.thread_id)

-- The first half of emit_and_process(): the target is woken.
unfoldable pub wake_for : Kernel → Bool → BsdtraceRecord → Session → Session
wake_for k pause_on_mmap rec s = if pause_on_mmap && pauses rec then (hwt_ctx_wakeup k s).0 else s

-- The second: the device of a new thread is opened.
unfoldable pub open_for : Kernel → BsdtraceRecord → Session → Session
unfolding wants_thread
open_for k rec s = if wants_thread s.ctx rec then (hwt_ctx_open_thread k s rec.thread_id).0 else s

-- emit_and_process(), less the output of the record. `grown` answers the realloc().
unfoldable pub emit_and_process :
    Kernel → Bool → Bool → BsdtraceRecord → Session × TraceState → Session × TraceState
unfolding wake_for open_for
emit_and_process k pause_on_mmap grown rec (s, ts) =
    (open_for k rec (wake_for k pause_on_mmap rec s), trace_state_process ts grown rec)

-- for (i = 0; i < nrecs; i++) of the polling loops and of trace_finalize().
unfoldable pub emit_all :
    Kernel → Bool → (ℕ → Bool) → List BsdtraceRecord → Session × TraceState → Session × TraceState
emit_all k pause_on_mmap grown [] st = st
emit_all k pause_on_mmap grown (r ∷ rs) st =
    emit_all k pause_on_mmap (λ i. grown (i + 1)) rs
      (emit_and_process k pause_on_mmap (grown 0) r st)

-- The process afterwards, and the name, none where resolve_backend() returns NULL.
unfoldable pub resolve_backend : Kernel → (Bytes → Bool) → Option Bytes → Os → Os × Option Bytes
resolve_backend k loaded explicit_name os =
    let (os', available) = hwt_available k os in
    (
      os',
      if available
          then elim explicit_name [ some name ↦ some name | none ↦ hwt_detect_backend loaded ]
          else none,
    )

-- Does check_hwt_hooks() return 0?
unfoldable pub check_hwt_hooks : Option Bytes → Bool → Bool
check_hwt_hooks conftxt dryrun = elim (hwt_hooks_enabled conftxt) [
  | none ↦ true
  | some enabled ↦ enabled || dryrun
]

-- What snprintf() leaves in meta_path, for a size that is not 0.
unfoldable pub derive_meta_path : Bytes → ℕ → Bytes
derive_meta_path pt_output size =
    let plen = length pt_output in
    let stem : Bytes =
      if ltb 3 plen && bytes_eq (drop (plen - 3) pt_output) (codes ".pt")
      then take (plen - 3) pt_output
      else pt_output in
    take (size - 1) (stem ++ codes ".meta")

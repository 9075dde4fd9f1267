-- ===== src/Tests/Finishing.antt =====
-- Examples for the end of a trace.
use observable_bsd.Prelude.{
  ℕ, ◌≡◌, refl, inr, true, false, none, some, [], codes, length, ◌≤◌, arith,
}
use observable_bsd.Trace.{trace_state_init}
use observable_bsd.Hwt.{Session}
use observable_bsd.Hwt.Operations.{poll_result, hwt_ctx_poll_records}
use observable_bsd.Hwt.Held.{IsReleased}
use observable_bsd.Hwt.Broken.{IsWrite}
use observable_bsd.Hwt.Kept.{with_settings}
use observable_bsd.Hwt.Lifecycle.{Reach, later, settings}
use observable_bsd.Finalize.{Answers}
use observable_bsd.Finalize.Whole.{Finalized, trace_finalize}
use observable_bsd.Finalize.Released.{IsQuiet, trace_finalize-IsReleased}
use observable_bsd.Tests.Device.{process, kernel, threaded, threaded-Reach}

-- write() takes one byte each time.
abbrev answers : Answers
answers = record {
  primary_probe = λ ss n. none;
  primary_write = λ off len. some 1;
  grown = λ os i. true;
  kbase = none;
  probe = λ tid ss n. none;
  write = λ tid off len. some 1;
  memory = λ tid. true;
  fuel = 3;
}

-- A session that follows all threads.
abbrev followed : Session
followed =
    with_settings
      (record {
        filter = [];
        psb_freq = 0;
        mtc_freq = 3;
        cyc_thresh = 1;
        ptwrite = false;
        os_trace = true;
        all_threads = true;
        requested_tids = [];
      })
      threaded

followed-Reach : Reach kernel process followed
followed-Reach = later threaded-Reach (settings _)

one_byte-IsWrite : IsWrite (λ off len. some 1)
one_byte-IsWrite off len h = inr (1, refl, omega arith, h)

small_memory : (p : ℕ) → length (kernel.memory p) ≤ answers.fuel
small_memory p = omega arith

kernel-IsQuiet : IsQuiet kernel (λ os. 0)
unfolding IsQuiet hwt_ctx_poll_records poll_result
kernel-IsQuiet s = (omega arith, λ x xs e. ground arith)

trace_finalize-IsReleased_example :
    (f : Finalized) × (trace_finalize kernel answers
        (codes "out.pt")
        41
        followed
        (trace_state_init none)
        7
      ≡ some f)
    × IsReleased process f.session
trace_finalize-IsReleased_example =
    trace_finalize-IsReleased kernel answers (codes "out.pt") process one_byte-IsWrite
      (λ tid. one_byte-IsWrite) small_memory (λ os. 0) 41 followed (trace_state_init none) 7
      kernel-IsQuiet (λ os. omega arith) followed-Reach

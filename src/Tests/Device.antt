-- ===== src/Tests/Device.antt =====
-- Examples for the HWT context.
use observable_bsd.Prelude.{
  ◌/◌, ◌%◌, ◌^◌, ℕ, ◌≡◌, refl, true, false, Option, none, some, [], ◌∷◌, codes, length, pos, arith,
}
use observable_bsd.Decode.{DecodeProbeResult}
use observable_bsd.Trace.{trace_state_init}
use observable_bsd.Tests.{records}
use observable_bsd.Hwt.Process.{Os}
use observable_bsd.Hwt.{
  Session, Kernel, AllocArgs, hwt_pt_default_timing, hwt_ctx_alloc, hwt_ctx_close,
}
use observable_bsd.Hwt.Operations.{
  map_field, hwt_ctx_map_buffer, hwt_ctx_bufptr_get, hwt_ctx_open_thread,
}
use observable_bsd.Snapshot.{extent, pt_scan_last_nonzero, known_end, choose_snapshot_len}
use observable_bsd.Hwt.Held.{IsReleased, Allocated}
use observable_bsd.Hwt.Alloc.{hwt_ctx_alloc-Allocated}
use observable_bsd.Hwt.Numbers.{
  IsLowest, hwt_pt_default_timing-IsLowest, IsRounded, hwt_ctx_alloc-IsRounded,
}
use observable_bsd.Hwt.Buffer.{saved, snapshot_primary}
use observable_bsd.Hwt.Write.{IsProgress, snapshot_primary-whole}
use observable_bsd.Hwt.Kept.{Inv, map_thread_buffers}
use observable_bsd.Hwt.Lifecycle.{
  Reach, allocated, later, map_all, add, Reach-Inv, hwt_ctx_close-Reach,
}

-- A process that has the standard streams open, and a system that gives each new descriptor the
-- number behind those that are open.
abbrev pub process : Os
process = record { fds = 0 ∷ 1 ∷ 2 ∷ []; maps = []; ioctls = []; faults = 0 }

abbrev pub kernel : Kernel
kernel = record {
  open_path = λ os path. some (length os.fds);
  kqueue = λ os. some (length os.fds);
  alloc_ident = λ os ha. some (pos 7);
  accepts = λ os fd q. true;
  bufptr = λ os fd. some (pos 0, 2);
  mmap = λ os n fd. some 4096;
  memory = λ p. 5 ∷ 6 ∷ 0 ∷ [];
  records = λ os n. some [];
  create = λ os. some 9;
  maxnamelen = 16;
}

abbrev args : AllocArgs
args = record { mode = pos 1; pid = pos 100; tid = pos 0; bufsize = 5000; backend = codes "pt" }

abbrev session : Session
session = (hwt_ctx_alloc kernel args process).0

session-Reach : Reach kernel process session
unfolding hwt_ctx_alloc
session-Reach = allocated args refl

-- The session with a second thread, its buffers mapped.
abbrev pub threaded : Session
threaded = map_thread_buffers kernel (hwt_ctx_open_thread kernel session (pos 3)).0

pub threaded-Reach : Reach kernel process threaded
threaded-Reach = later (later session-Reach (add (pos 3))) map_all

hwt_ctx_alloc-Allocated_example : Allocated process (hwt_ctx_alloc kernel args process)
hwt_ctx_alloc-Allocated_example = hwt_ctx_alloc-Allocated kernel process args

Reach-Inv_example : Inv process threaded
Reach-Inv_example = Reach-Inv kernel process threaded threaded-Reach

hwt_ctx_close-Reach_example :
    IsReleased process (hwt_ctx_close threaded)
    × IsReleased process (hwt_ctx_close (hwt_ctx_close threaded))
hwt_ctx_close-Reach_example = hwt_ctx_close-Reach kernel process threaded threaded-Reach

hwt_ctx_alloc-IsRounded_example : IsRounded 5000 (hwt_ctx_alloc kernel args process).0.ctx.bufsize
unfolding hwt_ctx_alloc
hwt_ctx_alloc-IsRounded_example = hwt_ctx_alloc-IsRounded kernel args process (omega arith) refl

hwt_pt_default_timing-IsLowest_example :
    IsLowest (589824 / 2 ^ 16 % 2 ^ 16) 1 16 (hwt_pt_default_timing 589824 1).0
    × IsLowest (1 % 2 ^ 16) 1 16 (hwt_pt_default_timing 589824 1).1
hwt_pt_default_timing-IsLowest_example = hwt_pt_default_timing-IsLowest 589824 1

-- A session with a small buffer.
abbrev small : Session
small = record {
  ctx = record {
    ctl_fd = some 3;
    ctx_fd = some 5;
    kq_fd = some 4;
    ident = pos 7;
    mode = pos 1;
    tid = pos 0;
    pid = pos 100;
    backend_name = codes "pt";
    bufsize = 3;
    trace_buf = some 4096;
    filter = [];
    psb_freq = 0;
    mtc_freq = 0;
    cyc_thresh = 0;
    ptwrite = false;
    os_trace = false;
    all_threads = false;
    requested_tids = [];
    threads = [];
  };
  os = record process { fds = 5 ∷ 4 ∷ 3 ∷ 2 ∷ 1 ∷ 0 ∷ []; maps = 4096 ∷ [] };
}

-- A write() that takes one byte each time.
abbrev one_byte : ℕ → ℕ → Option ℕ
one_byte off len = some 1

one_byte-IsProgress : IsProgress one_byte
one_byte-IsProgress off len h = (1, refl, omega arith, h)

abbrev no_probe : ℕ → Option DecodeProbeResult
no_probe n = none

snapshot_primary-whole_example :
    (snapshot_primary kernel one_byte 3 no_probe (trace_state_init none) small false).1
    ≡ saved 2 (5 ∷ 6 ∷ [])
unfolding hwt_ctx_bufptr_get hwt_ctx_map_buffer map_field known_end choose_snapshot_len
    trace_state_init extent pt_scan_last_nonzero
snapshot_primary-whole_example =
    snapshot_primary-whole kernel one_byte 3 one_byte-IsProgress no_probe (trace_state_init none)
      small false 4096 9 refl refl (omega arith) (omega arith) (omega arith) refl

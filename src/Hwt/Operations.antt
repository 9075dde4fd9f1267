-- ===== src/Hwt/Operations.antt =====
-- The operations of hwt.c on a context that is allocated.
use observable_bsd.Prelude.{
  ℕ, ◌+◌, ◌^◌, Bool, true, false, ◌||◌, Option, none, some, List, [], ◌∷◌, ◌++◌, map, codes, ltb,
  leb, if◌then◌else◌, length, take, ℤ, pos, eq_ℤ, is_empty, bytes_eq, strlcpy,
}
use observable_bsd.Types.{
  BsdtraceRecord, mmap, munmap, executable, kernel, thread_create, thread_set_name, buffer,
  overflow, other, maxpathlen,
}
use observable_bsd.Hwt.Process.{
  PtCpuConfig, Request, set_config, start, stop, wakeup, bufptr_get, record_get, opened_fd, mapped,
  ioctl,
}
use observable_bsd.Hwt.{max_threads, HwtThreadCtx, HwtCtx, Session, Kernel, device_path}

-- rtit_ctl: the bits of bsdtrace.h, which are different ones, so that `|` adds them.
unfoldable pub rtit_flags : HwtCtx → ℕ
rtit_flags ctx =
    2 ^ 3
    + 2 ^ 13
    + (if ctx.ptwrite then 2 ^ 12 + 2 ^ 5 else 0)
    + (if ctx.os_trace then 2 ^ 2 else 0)
    + (if ltb 0 ctx.mtc_freq || ltb 0 ctx.cyc_thresh then 2 ^ 10 else 0)

-- The struct pt_cpu_config that hwt_ctx_set_config_on_fd() sends.
unfoldable pub pt_config : HwtCtx → PtCpuConfig
unfolding rtit_flags
pt_config ctx = record {
  rtit_ctl = rtit_flags ctx;
  psb_freq = ctx.psb_freq;
  mtc_freq = ctx.mtc_freq;
  cyc_thresh = ctx.cyc_thresh;
  nranges = length ctx.filter;
  ip_ranges = take 2 ctx.filter;
}

-- Is the thread among them?
unfoldable pub has_thread : ℤ → List HwtThreadCtx → Bool
has_thread tid [] = false
has_thread tid (t ∷ ts) = eq_ℤ t.thread_id tid || has_thread tid ts

module _ (k : Kernel) where
  -- An ioctl() on the context's device, and whether it succeeds.
  unfoldable pub request : Session → Request → Session × Bool
  request s q = (record s { os = ioctl s.ctx.ctx_fd q s.os }, k.accepts s.os s.ctx.ctx_fd q)

  unfoldable pub hwt_ctx_set_config : Session → Bool → Session × Bool
  unfolding request
  hwt_ctx_set_config s pause_on_mmap =
      if is_empty s.ctx.backend_name
      then (s, false)
      else if bytes_eq s.ctx.backend_name (codes "pt")
      then request s (set_config (pt_config s.ctx) pause_on_mmap)
      else (s, false)

  unfoldable pub hwt_ctx_start : Session → Session × Bool
  unfolding request
  hwt_ctx_start s = request s start

  unfoldable pub stop_on : Session → Option ℕ → Session × Bool
  unfolding request
  stop_on s none = (s, true)
  stop_on s (some fd) = request s stop

  unfoldable pub hwt_ctx_stop : Session → Session × Bool
  unfolding stop_on
  hwt_ctx_stop s = stop_on s s.ctx.ctx_fd

  unfoldable pub hwt_ctx_wakeup : Session → Session × Bool
  unfolding request
  hwt_ctx_wakeup s = request s wakeup

  -- The position that the kernel reports, none where the request fails.
  unfoldable pub hwt_ctx_bufptr_get : Session → Session × Option (ℤ × ℕ)
  hwt_ctx_bufptr_get s =
      (record s { os = ioctl s.ctx.ctx_fd bufptr_get s.os }, k.bufptr s.os s.ctx.ctx_fd)

  unfoldable pub map_field : Session → Option ℕ → Session × Option ℕ
  map_field s (some p) = (s, some p)
  map_field s none =
      let p = k.mmap s.os s.ctx.bufsize s.ctx.ctx_fd in
      (record { ctx = record s.ctx { trace_buf = p }; os = mapped s.os p }, p)

  unfoldable pub hwt_ctx_map_buffer : Session → Session × Option ℕ
  unfolding map_field
  hwt_ctx_map_buffer s = map_field s s.ctx.trace_buf

  unfoldable pub add_thread : Session → ℤ → Option ℕ → Session × Bool
  add_thread s thread_id none = (s, false)
  add_thread s thread_id (some fd) =
      let t : HwtThreadCtx = record { fd = some fd; thread_id = thread_id; trace_buf = none } in
      (
        record {
          ctx = record s.ctx { threads = s.ctx.threads ++ t ∷ [] };
          os = opened_fd s.os (some fd);
        },
        true,
      )

  unfoldable pub hwt_ctx_open_thread : Session → ℤ → Session × Bool
  unfolding add_thread
  hwt_ctx_open_thread s thread_id =
      if leb max_threads (length s.ctx.threads)
      then (s, false)
      else if has_thread thread_id s.ctx.threads
      then (s, true)
      else add_thread s thread_id (k.open_path s.os (device_path s.ctx.ident thread_id))

-- What poll_records makes of an entry, whose union has the fields of a record: those that belong to
-- its type, and zeroes.
unfoldable pub poll_entry : BsdtraceRecord → BsdtraceRecord
poll_entry e =
    let r : BsdtraceRecord = record {
      type = e.type;
      fullpath = [];
      addr = 0;
      baseaddr = 0;
      buf_id = pos 0;
      curpage = pos 0;
      offset = 0;
      thread_id = pos 0;
    } in
    let image : BsdtraceRecord = record r {
      fullpath = strlcpy e.fullpath maxpathlen;
      addr = e.addr;
      baseaddr = e.baseaddr;
    } in
    let extent : BsdtraceRecord = record r {
      buf_id = e.buf_id;
      curpage = e.curpage;
      offset = e.offset;
    } in
    let thread : BsdtraceRecord = record r { thread_id = e.thread_id } in
    elim e.type [
      | mmap ↦ image
      | executable ↦ image
      | kernel ↦ image
      | munmap ↦ record r { addr = e.addr }
      | buffer ↦ extent
      | overflow ↦ extent
      | thread_create ↦ thread
      | thread_set_name ↦ thread
      | other n ↦ r
    ]

unfoldable pub poll_result : Option (List BsdtraceRecord) → Option (List BsdtraceRecord)
unfolding poll_entry
poll_result none = none
poll_result (some es) = some (map poll_entry es)

-- The records of a poll, none where it fails; calloc() is taken to succeed.
unfoldable pub hwt_ctx_poll_records :
    Kernel → Session → ℕ → Bool → Session × Option (List BsdtraceRecord)
unfolding poll_result
hwt_ctx_poll_records k s maxrecords wait =
    let n = if ltb 1024 maxrecords then 1024 else maxrecords in
    (record s { os = ioctl s.ctx.ctx_fd (record_get n wait) s.os }, poll_result (k.records s.os n))

-- ===== src/Hwt.antt =====
-- Sources/bsdtrace/hwt.c: the HWT context, which owns the descriptors and mappings of a session.
pub mod Process
pub mod Balance
pub mod Operations
pub mod Detect
pub mod Held
pub mod Alloc
pub mod Buffer
pub mod Threads
pub mod Numbers
pub mod Write
pub mod Broken
pub mod Kept
pub mod Lifecycle
pub mod Open
use observable_bsd.Prelude.{
  ℕ, zero, suc, ◌+◌, ◌-◌, ◌*◌, ◌/◌, ◌%◌, ◌^◌, Bool, true, false, not, ◌&&◌, ◌||◌, Option, none,
  some, List, [], ◌∷◌, ◌++◌, map, Bytes, codes, ltb, leb, ◌==◌, if◌then◌else◌, length, take, ℤ, pos,
  leb_ℤ, eq_ℤ, is_empty, bytes_eq, strlcpy,
}
use observable_bsd.Types.{
  BsdtraceRecord, mmap, munmap, executable, kernel, thread_create, thread_set_name, buffer,
  overflow, other, maxpathlen, u64, page_size, trunc_page,
}
use observable_bsd.Stdio.{print_int}
use observable_bsd.Hwt.Process.{
  Os, IpRange, PtCpuConfig, HwtAlloc, Request, alloc, set_config, start, stop, wakeup, bufptr_get,
  record_get, opened_fd, mapped, ioctl, close_field, munmap_field,
}

abbrev pub max_threads : ℕ
max_threads = 64

-- struct hwt_thread_ctx. A descriptor is none where it is negative, and a buffer where it is NULL.
pub record HwtThreadCtx : Type 0 where
  pub fd : Option ℕ
  pub thread_id : ℤ
  pub trace_buf : Option ℕ

-- struct ip_filter, its modes with their ranges; nranges is the length.
abbrev pub IpFilter : Type 0
IpFilter = List IpRange

-- struct hwt_ctx. The threads and the requested ids are the first entries of their arrays, as many as
-- nthreads and nrequested say: the others are unused.
pub record HwtCtx : Type 0 where
  pub ctl_fd : Option ℕ
  pub ctx_fd : Option ℕ
  pub kq_fd : Option ℕ
  pub ident : ℤ
  pub mode : ℤ
  pub tid : ℤ
  pub pid : ℤ
  pub backend_name : Bytes
  pub bufsize : ℕ
  pub trace_buf : Option ℕ
  pub filter : IpFilter
  pub psb_freq : ℕ
  pub mtc_freq : ℕ
  pub cyc_thresh : ℕ
  pub ptwrite : Bool
  pub os_trace : Bool
  pub all_threads : Bool
  pub requested_tids : List ℤ
  pub threads : List HwtThreadCtx

-- The context, and the process that holds it.
pub record Session : Type 0 where
  pub ctx : HwtCtx
  pub os : Os

-- What the system answers, from what has happened: open() of a device, kqueue(), ioctl(), mmap(),
-- which shows the bytes of `memory` at its address, and open() of the file of a snapshot; and
-- HWT_BACKEND_MAXNAMELEN of <sys/hwt.h>.
pub record Kernel : Type 0 where
  pub open_path : Os → Bytes → Option ℕ
  pub kqueue : Os → Option ℕ
  pub alloc_ident : Os → HwtAlloc → Option ℤ
  pub accepts : Os → Option ℕ → Request → Bool
  pub bufptr : Os → Option ℕ → Option (ℤ × ℕ)
  pub mmap : Os → ℕ → Option ℕ → Option ℕ
  pub memory : ℕ → Bytes
  pub records : Os → ℕ → Option (List BsdtraceRecord)
  pub create : Os → Option ℕ
  pub maxnamelen : ℕ

-- for (i = 1; i < 16; i++) if (bitmap & (1 << i)) ... break; with `left` rounds left.
lowest_from : ℕ → ℕ → ℕ → ℕ
lowest_from zero i bitmap = 0
lowest_from (suc left) i bitmap =
    let rest = lowest_from left (suc i) bitmap in if bitmap / 2 ^ i % 2 == 1 then i else rest

-- The frequencies, from EAX and EBX of leaf 0x14 of CPUID.
unfoldable pub hwt_pt_default_timing : ℕ → ℕ → ℕ × ℕ
unfolding lowest_from
hwt_pt_default_timing eax ebx =
    (lowest_from 15 1 (eax / 2 ^ 16 % 2 ^ 16), lowest_from 15 1 (ebx % 2 ^ 16))

-- if (bufsize == 0) ...; (bufsize + PAGE_SIZE - 1) & ~(PAGE_SIZE - 1)
unfoldable pub round_bufsize : ℕ → ℕ
round_bufsize bufsize =
    trunc_page (((if bufsize == 0 then 64 * 1024 * 1024 else bufsize) + page_size - 1) % u64)

-- snprintf("/dev/hwt_%d_%d")
unfoldable pub device_path : ℤ → ℤ → Bytes
device_path ident tid = codes "/dev/hwt_" ++ print_int ident ++ codes "_" ++ print_int tid

-- for (i = 0; i < ctx->nthreads; i++) of hwt_ctx_close().
unfoldable pub close_threads : List HwtThreadCtx → Os → Os
close_threads [] os = os
close_threads (t ∷ ts) os = close_threads ts (close_field t.fd (munmap_field t.trace_buf os))

pub stop_field : Option ℕ → Os → Os
stop_field none os = os
stop_field (some fd) os = ioctl (some fd) stop os

unfoldable pub hwt_ctx_close : Session → Session
unfolding stop_field
hwt_ctx_close s = record {
  ctx = record s.ctx { threads = []; trace_buf = none; ctx_fd = none; kq_fd = none; ctl_fd = none };
  os = close_field s.ctx.ctl_fd (
      close_field s.ctx.kq_fd (
        close_field s.ctx.ctx_fd (
          munmap_field s.ctx.trace_buf
            (close_threads s.ctx.threads (stop_field s.ctx.ctx_fd s.os)))));
}

-- The arguments of hwt_ctx_alloc(); an empty `backend` is also a null one.
pub record AllocArgs : Type 0 where
  pub mode : ℤ
  pub pid : ℤ
  pub tid : ℤ
  pub bufsize : ℕ
  pub backend : Bytes

-- The context after the assignments at the head of hwt_ctx_alloc().
abbrev pub fresh_ctx : AllocArgs → HwtCtx
fresh_ctx a = record {
  ctl_fd = none;
  ctx_fd = none;
  kq_fd = none;
  ident = pos 0;
  mode = a.mode;
  tid = a.tid;
  pid = a.pid;
  backend_name = [];
  bufsize = 0;
  trace_buf = none;
  filter = [];
  psb_freq = 0;
  mtc_freq = 0;
  cyc_thresh = 0;
  ptwrite = false;
  os_trace = false;
  all_threads = false;
  requested_tids = [];
  threads = [];
}

module _ (k : Kernel) where
  -- open(devpath), with the device in the context.
  open_device : Session → Session × Bool
  open_device s =
      let fd = k.open_path s.os (device_path s.ctx.ident s.ctx.tid) in
      let s' : Session = record { ctx = record s.ctx { ctx_fd = fd }; os = opened_fd s.os fd } in
      elim fd [ none ↦ (hwt_ctx_close s', false) | some n ↦ (s', true) ]

  -- ioctl(HWT_IOC_ALLOC) on the control device, with a kqueue.
  request_alloc : Session → ℕ → Session × Bool
  unfolding open_device
  request_alloc s kq =
      let ha : HwtAlloc = record {
        bufsize = s.ctx.bufsize;
        mode = s.ctx.mode;
        pid = s.ctx.pid;
        backend_name = s.ctx.backend_name;
        kqueue_fd = kq;
      } in
      let os = ioctl s.ctx.ctl_fd (alloc ha) s.os in
      elim (k.alloc_ident s.os ha) [
        | none ↦ (hwt_ctx_close (record s { os = os }), false)
        | some ident ↦ open_device (record { ctx = record s.ctx { ident = ident }; os = os })
      ]

  open_kqueue : Session → Session × Bool
  unfolding request_alloc
  open_kqueue s =
      let fd = k.kqueue s.os in
      let s' : Session = record { ctx = record s.ctx { kq_fd = fd }; os = opened_fd s.os fd } in
      elim fd [ none ↦ (hwt_ctx_close s', false) | some kq ↦ request_alloc s' kq ]

  open_control : Session → Session × Bool
  unfolding open_kqueue
  open_control s =
      let fd = k.open_path s.os (codes "/dev/hwt") in
      let s' : Session = record { ctx = record s.ctx { ctl_fd = fd }; os = opened_fd s.os fd } in
      elim fd [ none ↦ (s', false) | some n ↦ open_kqueue s' ]

  -- The session, and whether hwt_ctx_alloc() returns 0.
  unfoldable pub hwt_ctx_alloc : AllocArgs → Os → Session × Bool
  unfolding open_control
  hwt_ctx_alloc a os =
      let named = record (fresh_ctx a) { backend_name = strlcpy a.backend k.maxnamelen } in
      if is_empty a.backend
      then (record { ctx = fresh_ctx a; os = os }, false)
      else if leb k.maxnamelen (length a.backend)
      then (record { ctx = named; os = os }, false)
      else open_control
          (record { ctx = record named { bufsize = round_bufsize a.bufsize }; os = os })

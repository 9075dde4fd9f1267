-- ===== src/Hwt/Lifecycle.antt =====
-- A session from hwt_ctx_alloc() to hwt_ctx_close(), as a step relation: what holds of its context
-- in between, and what is left of it in the end.
use observable_bsd.Prelude.{ℕ, ◌≡◌, Bool, true, inl, inr, Option, ℤ, arith}
use observable_bsd.Hwt.Process.{Os, start, wakeup, bufptr_get}
use observable_bsd.Hwt.{Session, Kernel, AllocArgs, hwt_ctx_alloc, hwt_ctx_close}
use observable_bsd.Hwt.Operations.{
  request, hwt_ctx_set_config, hwt_ctx_start, hwt_ctx_stop, hwt_ctx_wakeup, hwt_ctx_bufptr_get,
  hwt_ctx_poll_records, hwt_ctx_map_buffer, hwt_ctx_open_thread,
}
use observable_bsd.Hwt.Held.{
  IsReleased, IsReady, hwt_ctx_close-IsGivenBack, hwt_ctx_close-IsReleased,
}
use observable_bsd.Hwt.Alloc.{hwt_ctx_alloc-Allocated}
use observable_bsd.Hwt.Buffer.{hwt_ctx_snapshot_buffer}
use observable_bsd.Hwt.Threads.{IsDistinct}
use observable_bsd.Hwt.Kept.{
  map_thread_buffers, Settings, with_settings, Inv, request-Inv, set_config-Inv, stop_on-Inv,
  map_buffer-Inv, open_thread-Inv, map_thread_buffers-Inv, snapshot_buffer-Inv,
}

-- What a command may do with a context, in any order, with any answers of the system.
pub data Step (k : Kernel) (s : Session) : Session → Type 0 where
  settings : (c : Settings) → Step k s (with_settings c s)
  configure : (pause : Bool) → Step k s (hwt_ctx_set_config k s pause).0
  begin : Step k s (hwt_ctx_start k s).0
  halt : Step k s (hwt_ctx_stop k s).0
  resume : Step k s (hwt_ctx_wakeup k s).0
  poll : (maxrecords : ℕ) (wait : Bool) → Step k s (hwt_ctx_poll_records k s maxrecords wait).0
  query : Step k s (hwt_ctx_bufptr_get k s).0
  add : (thread_id : ℤ) → Step k s (hwt_ctx_open_thread k s thread_id).0
  map : Step k s (hwt_ctx_map_buffer k s).0
  save :
      (write : ℕ → ℕ → Option ℕ) (fuel : ℕ) (last_page : ℤ) (last_offset : ℕ)
      → Step k s (hwt_ctx_snapshot_buffer k write fuel s last_page last_offset).0
  map_all : Step k s (map_thread_buffers k s)

-- The sessions that a successful hwt_ctx_alloc() leads to.
pub data Reach (k : Kernel) (base : Os) : Session → Type 0 where
  allocated :
      (a : AllocArgs) → (hwt_ctx_alloc k a base).1 ≡ true → Reach k base (hwt_ctx_alloc k a base).0
  later : {s t : Session} → Reach k base s → Step k s t → Reach k base t

pub Step-Inv : (k : Kernel) {base : Os} {s t : Session} → Step k s t → Inv base s → Inv base t
unfolding hwt_ctx_start hwt_ctx_stop hwt_ctx_wakeup hwt_ctx_poll_records hwt_ctx_bufptr_get request
Step-Inv k (settings c) i = record {
  owned = i.owned;
  device = i.device;
  in_array = i.in_array;
  distinct = i.distinct;
}
Step-Inv k (configure pause) i = set_config-Inv k i pause
Step-Inv k begin i = request-Inv k i start
Step-Inv k {s = s} halt i = stop_on-Inv k i s.ctx.ctx_fd
Step-Inv k resume i = request-Inv k i wakeup
Step-Inv k (poll maxrecords wait) i = request-Inv k i _
Step-Inv k query i = request-Inv k i bufptr_get
Step-Inv k (add tid) i = open_thread-Inv k i tid
Step-Inv k map i = map_buffer-Inv k i
Step-Inv k {s = s} (save write fuel page offset) i =
    snapshot_buffer-Inv k write fuel s page offset i
Step-Inv k map_all i = map_thread_buffers-Inv k i

ready-Inv : {base : Os} (s : Session) → IsReady base s → Inv base s
unfolding IsDistinct
ready-Inv s r = record {
  owned = r.owned;
  device = r.device;
  in_array = rw r.no_threads (omega arith);
  distinct = rw r.no_threads tt;
}

-- The invariant holds from a successful hwt_ctx_alloc() on, whatever the commands do and the system
-- answers: the descriptors and mappings that the process has gained are exactly those that the
-- context holds, no call has used a stale one, the device is open, at most 64 further threads are,
-- and none of them twice.
pub Reach-Inv : (k : Kernel) (base : Os) (s : Session) → Reach k base s → Inv base s
Reach-Inv k base _ (allocated a e) = elim (hwt_ctx_alloc-Allocated k base a) [
  | inl (t, r) ↦ ready-Inv _ r
  | inr (f, g) ↦ ground arith
]
Reach-Inv k base _ (later r step) = Step-Inv k step (Reach-Inv k base _ r)

-- After hwt_ctx_close(), at any point of a session, the process has open exactly the descriptors
-- and mappings that it had before hwt_ctx_alloc(), each of them closed once, and the context holds
-- none, so that a second hwt_ctx_close() closes nothing.
pub hwt_ctx_close-Reach :
    (k : Kernel) (base : Os) (s : Session)
    → Reach k base s
    → IsReleased base (hwt_ctx_close s) × IsReleased base (hwt_ctx_close (hwt_ctx_close s))
hwt_ctx_close-Reach k base s r =
    let g = hwt_ctx_close-IsGivenBack base s (Reach-Inv k base s r).owned in
    (g.released, hwt_ctx_close-IsReleased base _ g.holds_none)

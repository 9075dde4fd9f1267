-- ===== src/Hwt/Kept.antt =====
-- Each operation keeps the invariant of a context that is in use.
use observable_bsd.Prelude.{
  ℕ, List, ◌+◌, ◌≤◌, ◌≡◌, refl, Bool, false, inl, inr, Option, none, some, [], ◌∷◌, ◌++◌, Bytes,
  codes, leb, length, length-append, ℤ, arith, Bool-cases, Option-cases, is_empty, bytes_eq,
  if-both,
}
use observable_bsd.Hwt.Process.{Os, Request, stop, opened_fd, ioctl, close_field, close}
use observable_bsd.Hwt.Balance.{
  one_of, recount, opened_fd-Balanced, mapped-Balanced, ioctl-Balanced, close_field-Balanced,
  one_self,
}
use observable_bsd.Hwt.{HwtThreadCtx, Session, Kernel, IpFilter, max_threads, device_path}
use observable_bsd.Hwt.Operations.{
  request, stop_on, hwt_ctx_set_config, map_field, hwt_ctx_map_buffer, hwt_ctx_open_thread,
  add_thread, has_thread,
}
use observable_bsd.Hwt.Held.{IsOwned}
use observable_bsd.Hwt.Buffer.{Saved, save_file, save_mapped, hwt_ctx_snapshot_buffer, map_threads}
use observable_bsd.Hwt.Threads.{
  IsDistinct, append-IsDistinct, thread_fds-append, thread_maps-append, length-map_threads,
  map_threads-IsDistinct, map_threads-Balanced,
}

-- tc->trace_buf = mmap(...) for the threads of a context.
abbrev pub map_thread_buffers : Kernel → Session → Session
map_thread_buffers k s =
    let r = map_threads k s.ctx.bufsize s.ctx.threads s.os in
    record { ctx = record s.ctx { threads = r.0 }; os = r.1 }

-- What cmd_exec.c and cmd_trace.c set of a context that is allocated.
pub record Settings : Type 0 where
  pub filter : IpFilter
  pub psb_freq : ℕ
  pub mtc_freq : ℕ
  pub cyc_thresh : ℕ
  pub ptwrite : Bool
  pub os_trace : Bool
  pub all_threads : Bool
  pub requested_tids : List ℤ

abbrev pub with_settings : Settings → Session → Session
with_settings c s = record {
  ctx = record s.ctx {
    filter = c.filter;
    psb_freq = c.psb_freq;
    mtc_freq = c.mtc_freq;
    cyc_thresh = c.cyc_thresh;
    ptwrite = c.ptwrite;
    os_trace = c.os_trace;
    all_threads = c.all_threads;
    requested_tids = c.requested_tids;
  };
  os = s.os;
}

-- The invariant of a context that is in use: it owns what the process has open on top of `base`, it
-- has a device, and the entries of threads[] are within the array and of different threads.
pub record Inv (base : Os) (s : Session) : Type 0 where
  pub owned : IsOwned base s
  pub device : (n : ℕ) × (s.ctx.ctx_fd ≡ some n)
  pub in_array : length s.ctx.threads ≤ max_threads
  pub distinct : IsDistinct s.ctx.threads

module _ (k : Kernel) {base : Os} {s : Session} (i : Inv base s) where
  pub request-Inv : (q : Request) → Inv base (record s { os = ioctl s.ctx.ctx_fd q s.os })
  request-Inv q =
      let (n, e) = i.device in
      record {
        owned = ioctl-Balanced i.owned s.ctx.ctx_fd q n e (rw e (omega (arith, one_self n)));
        device = i.device;
        in_array = i.in_array;
        distinct = i.distinct;
      }

  pub set_config-Inv : (pause : Bool) → Inv base (hwt_ctx_set_config k s pause).0
  unfolding hwt_ctx_set_config request
  set_config-Inv pause =
      let P : Session × Bool → Type 0 = λ r. Inv base r.0 in
      if-both P (is_empty s.ctx.backend_name) i
        (if-both P (bytes_eq s.ctx.backend_name (codes "pt")) (request-Inv _) i)

  pub stop_on-Inv : (fd : Option ℕ) → Inv base (stop_on k s fd).0
  unfolding stop_on request
  stop_on-Inv none = i
  stop_on-Inv (some fd) = request-Inv stop

  map_field-Inv : (o : Option ℕ) → s.ctx.trace_buf ≡ o → Inv base (map_field k s o).0
  unfolding map_field
  map_field-Inv (some p) e = i
  map_field-Inv none e = record {
    owned =
        recount (mapped-Balanced i.owned (k.mmap s.os s.ctx.bufsize s.ctx.ctx_fd)) (λ x. refl)
          (λ x. rw e (omega arith));
    device = i.device;
    in_array = i.in_array;
    distinct = i.distinct;
  }

  pub map_buffer-Inv : Inv base (hwt_ctx_map_buffer k s).0
  unfolding hwt_ctx_map_buffer
  map_buffer-Inv = map_field-Inv s.ctx.trace_buf refl

  opened :
      (t : HwtThreadCtx) (fd : ℕ)
      → t.fd ≡ some fd
      → t.trace_buf ≡ none
      → leb max_threads (length s.ctx.threads) ≡ false
      → has_thread t.thread_id s.ctx.threads ≡ false
      → Inv base (record {
        ctx = record s.ctx { threads = s.ctx.threads ++ t ∷ [] };
        os = opened_fd s.os (some fd);
      })
  opened t fd e f room new = record {
    owned =
        recount (opened_fd-Balanced i.owned (some fd))
          (λ x. rw (thread_fds-append s.ctx.threads t x, e) (omega arith))
          (λ x. rw (thread_maps-append s.ctx.threads t x, f) (omega arith));
    device = i.device;
    in_array = rw (length-append s.ctx.threads (t ∷ [])) (ground arith);
    distinct = append-IsDistinct s.ctx.threads t i.distinct new;
  }

  pub open_thread-Inv : (thread_id : ℤ) → Inv base (hwt_ctx_open_thread k s thread_id).0
  unfolding hwt_ctx_open_thread add_thread
  open_thread-Inv tid = elim (Bool-cases (leb max_threads (length s.ctx.threads))) [
    | inl e ↦ rw e i
    | inr e ↦ elim (Bool-cases (has_thread tid s.ctx.threads)) [
      | inl f ↦ rw (e, f) i
      | inr f ↦ elim (Option-cases (k.open_path s.os (device_path s.ctx.ident tid))) [
        | inl g ↦ rw (e, f, g) i
        | inr (fd, g) ↦ rw (e, f, g) (opened _ fd refl refl e f)
      ]
    ]
  ]

  pub map_thread_buffers-Inv : Inv base (map_thread_buffers k s)
  map_thread_buffers-Inv =
      let c = s.ctx in
      record {
        owned =
            recount
              (map_threads-Balanced k c.bufsize
                (λ x. one_of c.ctl_fd x + (one_of c.kq_fd x + one_of c.ctx_fd x)) c.threads
                (one_of c.trace_buf) (recount i.owned (λ x. omega arith) (λ x. refl)))
              (λ x. omega arith) (λ x. refl);
        device = i.device;
        in_array = rw (length-map_threads k c.bufsize c.threads s.os) i.in_array;
        distinct = map_threads-IsDistinct k c.bufsize c.threads s.os i.distinct;
      }

  save_file-Inv :
      (write : ℕ → ℕ → Option ℕ) (fuel : ℕ) (buf : Bytes) (total : ℕ)
      → Inv base (save_file k write fuel s buf total).0
  unfolding save_file close_field close
  save_file-Inv write fuel buf total = elim (Option-cases (k.create s.os)) [
    | inl e ↦ rw (e, save_file) i
    | inr (fd, e) ↦
        rw (e, save_file)
          (record {
            owned = close_field-Balanced (some fd) (opened_fd-Balanced i.owned (some fd));
            device = i.device;
            in_array = i.in_array;
            distinct = i.distinct;
          })
  ]

  save_mapped-Inv :
      (write : ℕ → ℕ → Option ℕ) (fuel : ℕ) (p : Option ℕ) (end : ℕ)
      → Inv base (save_mapped k write fuel s p end).0
  unfolding save_mapped
  save_mapped-Inv write fuel none end = i
  save_mapped-Inv write fuel (some p) end =
      if-both (λ (r : Session × Saved). Inv base r.0) _ i (save_file-Inv write fuel (k.memory p) _)

pub snapshot_buffer-Inv :
    (k : Kernel) (write : ℕ → ℕ → Option ℕ) (fuel : ℕ) {base : Os} (s : Session) (page : ℤ)
    (offset : ℕ)
    → Inv base s
    → Inv base (hwt_ctx_snapshot_buffer k write fuel s page offset).0
unfolding hwt_ctx_snapshot_buffer
snapshot_buffer-Inv k write fuel {base = base} s page offset i =
    if-both (λ (r : Session × Saved). Inv base r.0) _ i
      (save_mapped-Inv k (map_buffer-Inv k i) write fuel _ _)

-- ===== src/Hwt/Open.antt =====
-- The devices of the further threads are open as long as the context is in use.
use observable_bsd.Prelude.{
  ℕ, ◌≡◌, refl, Bool, inl, inr, Option, none, some, List, [], ◌∷◌, ◌++◌, Bytes, codes, leb, length,
  ℤ, pos, ltb_ℤ, is_empty, bytes_eq, arith, if-both, Option-cases,
}
use observable_bsd.Snapshot.{extent}
use observable_bsd.Hwt.Process.{Os}
use observable_bsd.Hwt.{HwtThreadCtx, Session, Kernel, max_threads, device_path}
use observable_bsd.Hwt.Operations.{
  request, stop_on, hwt_ctx_set_config, hwt_ctx_start, hwt_ctx_stop, hwt_ctx_wakeup,
  hwt_ctx_bufptr_get, hwt_ctx_poll_records, map_field, hwt_ctx_map_buffer, hwt_ctx_open_thread,
  add_thread, has_thread,
}
use observable_bsd.Hwt.Alloc.{hwt_ctx_alloc-Allocated}
use observable_bsd.Hwt.Buffer.{
  Saved, nothing, map_threads, save_file, save_mapped, hwt_ctx_snapshot_buffer,
}
use observable_bsd.Hwt.Lifecycle.{
  Step, Reach, settings, configure, begin, halt, resume, poll, query, add, map, save, map_all,
  allocated, later,
}

-- Each thread's device is open.
unfoldable pub AllOpen : List HwtThreadCtx → Type 0
AllOpen [] = Unit
AllOpen (t ∷ ts) = ((fd : ℕ) × (t.fd ≡ some fd)) × AllOpen ts

append-AllOpen :
    (ts : List HwtThreadCtx) (t : HwtThreadCtx) (fd : ℕ)
    → AllOpen ts
    → t.fd ≡ some fd
    → AllOpen (ts ++ t ∷ [])
unfolding AllOpen
append-AllOpen [] t fd o e = ((fd, e), tt)
append-AllOpen (u ∷ ts) t fd (x, o) e = (x, append-AllOpen ts t fd o e)

module _ (k : Kernel) where
  map_threads-AllOpen :
      (n : ℕ) (ts : List HwtThreadCtx) (os : Os) → AllOpen ts → AllOpen (map_threads k n ts os).0
  unfolding map_threads AllOpen
  map_threads-AllOpen n [] os o = tt
  map_threads-AllOpen n (t ∷ ts) os (x, o) = (x, map_threads-AllOpen n ts _ o)

  module _ (s : Session) (o : AllOpen s.ctx.threads) where
    add_thread-AllOpen : (tid : ℤ) (fd : Option ℕ) → AllOpen (add_thread k s tid fd).0.ctx.threads
    unfolding add_thread
    add_thread-AllOpen tid none = o
    add_thread-AllOpen tid (some fd) = append-AllOpen s.ctx.threads _ fd o refl

    open_thread-AllOpen : (tid : ℤ) → AllOpen (hwt_ctx_open_thread k s tid).0.ctx.threads
    unfolding hwt_ctx_open_thread
    open_thread-AllOpen tid =
        let P : Session × Bool → Type 0 = λ r. AllOpen r.0.ctx.threads in
        if-both P (leb max_threads (length s.ctx.threads)) o (
          if-both P (has_thread tid s.ctx.threads) o
            (add_thread-AllOpen tid (k.open_path s.os (device_path s.ctx.ident tid))))

    set_config-AllOpen : (pause : Bool) → AllOpen (hwt_ctx_set_config k s pause).0.ctx.threads
    unfolding hwt_ctx_set_config request
    set_config-AllOpen pause =
        let P : Session × Bool → Type 0 = λ r. AllOpen r.0.ctx.threads in
        if-both P (is_empty s.ctx.backend_name) o
          (if-both P (bytes_eq s.ctx.backend_name (codes "pt")) o o)

    stop_on-AllOpen : (fd : Option ℕ) → AllOpen (stop_on k s fd).0.ctx.threads
    unfolding stop_on request
    stop_on-AllOpen none = o
    stop_on-AllOpen (some fd) = o

    map_field-AllOpen : (p : Option ℕ) → AllOpen (map_field k s p).0.ctx.threads
    unfolding map_field
    map_field-AllOpen none = o
    map_field-AllOpen (some p) = o

    save_file-AllOpen :
        (write : ℕ → ℕ → Option ℕ) (fuel : ℕ) (buf : Bytes) (total : ℕ)
        → AllOpen (save_file k write fuel s buf total).0.ctx.threads
    unfolding save_file
    save_file-AllOpen write fuel buf total = elim (Option-cases (k.create s.os)) [
      | inl e ↦ rw (e, save_file) o
      | inr (fd, e) ↦ rw (e, save_file) o
    ]

    save_mapped-AllOpen :
        (write : ℕ → ℕ → Option ℕ) (fuel : ℕ) (p : Option ℕ) (end : ℕ)
        → AllOpen (save_mapped k write fuel s p end).0.ctx.threads
    unfolding save_mapped
    save_mapped-AllOpen write fuel none end = o
    save_mapped-AllOpen write fuel (some p) end =
        if-both (λ (r : Session × Saved). AllOpen r.0.ctx.threads) _ o
          (save_file-AllOpen write fuel (k.memory p) _)

  snapshot_buffer-AllOpen :
      (write : ℕ → ℕ → Option ℕ) (fuel : ℕ) (s : Session) (page : ℤ) (offset : ℕ)
      → AllOpen s.ctx.threads
      → AllOpen (hwt_ctx_snapshot_buffer k write fuel s page offset).0.ctx.threads
  unfolding hwt_ctx_snapshot_buffer hwt_ctx_map_buffer
  snapshot_buffer-AllOpen write fuel s page offset o =
      let (s', p) = hwt_ctx_map_buffer k s in
      let mapped : AllOpen s'.ctx.threads = map_field-AllOpen s o s.ctx.trace_buf in
      if-both (λ (r : Session × Saved). AllOpen r.0.ctx.threads) (ltb_ℤ page (pos 0))
        {x = (s, nothing)} {y = save_mapped k write fuel s' p (extent page offset)} o
        (save_mapped-AllOpen s' mapped write fuel p (extent page offset))

  Step-AllOpen : {s t : Session} → Step k s t → AllOpen s.ctx.threads → AllOpen t.ctx.threads
  unfolding hwt_ctx_start hwt_ctx_stop hwt_ctx_wakeup hwt_ctx_poll_records hwt_ctx_bufptr_get
      request hwt_ctx_map_buffer
  Step-AllOpen (settings c) o = o
  Step-AllOpen {s = s} (configure pause) o = set_config-AllOpen s o pause
  Step-AllOpen begin o = o
  Step-AllOpen {s = s} halt o = stop_on-AllOpen s o s.ctx.ctx_fd
  Step-AllOpen resume o = o
  Step-AllOpen (poll maxrecords wait) o = o
  Step-AllOpen query o = o
  Step-AllOpen {s = s} (add tid) o = open_thread-AllOpen s o tid
  Step-AllOpen {s = s} map o = map_field-AllOpen s o s.ctx.trace_buf
  Step-AllOpen {s = s} (save write fuel page offset) o =
      snapshot_buffer-AllOpen write fuel s page offset o
  Step-AllOpen {s = s} map_all o = map_threads-AllOpen s.ctx.bufsize s.ctx.threads s.os o

  pub Reach-AllOpen : (base : Os) (s : Session) → Reach k base s → AllOpen s.ctx.threads
  unfolding AllOpen
  Reach-AllOpen base _ (allocated a e) = elim (hwt_ctx_alloc-Allocated k base a) [
    | inl (t, r) ↦ rw r.no_threads tt
    | inr (f, g) ↦ ground arith
  ]
  Reach-AllOpen base _ (later r step) = Step-AllOpen step (Reach-AllOpen base _ r)

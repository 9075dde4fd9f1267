-- ===== src/Hwt/Alloc.antt =====
-- hwt_ctx_alloc() accounts for every descriptor that it opens.
use observable_bsd.Prelude.{
  ℕ, ◌≡◌, refl, ap, ◌∙◌, inl, inr, Option, none, some, [], codes, leb, length, arith, Bool-cases,
  Option-cases, is_empty,
}
use observable_bsd.Hwt.Process.{Os, HwtAlloc, alloc, opened_fd, ioctl}
use observable_bsd.Hwt.Balance.{Balanced, recount, opened_fd-Balanced, ioctl-Balanced, one_self}
use observable_bsd.Hwt.{
  HwtCtx, Session, Kernel, AllocArgs, device_path, open_device, request_alloc, open_kqueue,
  open_control, hwt_ctx_alloc,
}
use observable_bsd.Hwt.Held.{
  thread_fds, thread_maps, held_fds, held_maps, IsOwned, IsGivenBack, Allocated,
  hwt_ctx_close-IsGivenBack,
}

-- A context under construction: what it will hold later is not there yet.
record IsStarted (base : Os) (s : Session) : Type 0 where
  owned : IsOwned base s
  no_device : s.ctx.ctx_fd ≡ none
  no_buffer : s.ctx.trace_buf ≡ none
  no_threads : s.ctx.threads ≡ []

module _ {base : Os} (s : Session) (b : IsStarted base s) (fd : Option ℕ) where
  with_device : IsOwned base (record { ctx = record s.ctx { ctx_fd = fd }; os = opened_fd s.os fd })
  with_device =
      recount (opened_fd-Balanced b.owned fd) (λ x. rw b.no_device (omega arith)) (λ x. refl)

  with_kqueue :
      s.ctx.kq_fd ≡ none
      → IsOwned base (record { ctx = record s.ctx { kq_fd = fd }; os = opened_fd s.os fd })
  with_kqueue e = recount (opened_fd-Balanced b.owned fd) (λ x. rw e (omega arith)) (λ x. refl)

  with_control :
      s.ctx.ctl_fd ≡ none
      → IsOwned base (record { ctx = record s.ctx { ctl_fd = fd }; os = opened_fd s.os fd })
  with_control e = recount (opened_fd-Balanced b.owned fd) (λ x. rw e (omega arith)) (λ x. refl)

module _ (k : Kernel) (base : Os) where
  open_device-Allocated : (s : Session) → IsStarted base s → Allocated base (open_device k s)
  unfolding open_device
  open_device-Allocated s b =
      elim (Option-cases (k.open_path s.os (device_path s.ctx.ident s.ctx.tid))) [
        | inl e ↦
            rw (e, open_device) (inr (refl, hwt_ctx_close-IsGivenBack base _ (with_device s b _)))
        | inr (n, e) ↦
            rw (e, open_device)
              (inl (
                refl,
                record { owned = with_device s b _; device = (n, e); no_threads = b.no_threads },
              ))
      ]

  request_alloc-Allocated :
      (s : Session) (kq c : ℕ)
      → IsStarted base s
      → s.ctx.ctl_fd ≡ some c
      → Allocated base (request_alloc k s kq)
  unfolding request_alloc
  request_alloc-Allocated s kq c b e =
      let ha : HwtAlloc = record {
        bufsize = s.ctx.bufsize;
        mode = s.ctx.mode;
        pid = s.ctx.pid;
        backend_name = s.ctx.backend_name;
        kqueue_fd = kq;
      } in
      let o : Balanced base (ioctl s.ctx.ctl_fd (alloc ha) s.os) (held_fds s.ctx)
          (held_maps s.ctx) =
        ioctl-Balanced b.owned s.ctx.ctl_fd (alloc ha) c e (rw e (omega (arith, one_self c))) in
      elim (Option-cases (k.alloc_ident s.os ha)) [
        | inl f ↦ rw (f, request_alloc) (inr (refl, hwt_ctx_close-IsGivenBack base _ o))
        | inr (ident, f) ↦
            rw (f, request_alloc)
              (open_device-Allocated _ (record {
                owned = o;
                no_device = b.no_device;
                no_buffer = b.no_buffer;
                no_threads = b.no_threads;
              }))
      ]

  open_kqueue-Allocated :
      (s : Session) (c : ℕ)
      → IsStarted base s
      → s.ctx.ctl_fd ≡ some c
      → s.ctx.kq_fd ≡ none
      → Allocated base (open_kqueue k s)
  unfolding open_kqueue
  open_kqueue-Allocated s c b e f = elim (Option-cases (k.kqueue s.os)) [
    | inl g ↦
        rw (g, open_kqueue) (inr (refl, hwt_ctx_close-IsGivenBack base _ (with_kqueue s b _ f)))
    | inr (kq, g) ↦
        rw (g, open_kqueue)
          (request_alloc-Allocated _ kq c
            (record {
              owned = with_kqueue s b _ f;
              no_device = b.no_device;
              no_buffer = b.no_buffer;
              no_threads = b.no_threads;
            })
            e)
  ]

  open_control-Allocated :
      (s : Session)
      → IsStarted base s
      → s.os ≡ base
      → s.ctx.ctl_fd ≡ none
      → s.ctx.kq_fd ≡ none
      → Allocated base (open_control k s)
  unfolding open_control opened_fd
  open_control-Allocated s b o e f = elim (Option-cases (k.open_path s.os (codes "/dev/hwt"))) [
    | inl g ↦
        let u : opened_fd s.os (k.open_path s.os (codes "/dev/hwt")) ≡ base =
          ap (opened_fd s.os) g ∙ o in
        rw (g, open_control)
          (inr (
            refl,
            record {
              released = record {
                fds = λ x. rw u (omega arith);
                maps = λ x. rw u (omega arith);
                faults = rw u refl;
              };
              holds_none = with_control s b _ e;
            },
          ))
    | inr (c, g) ↦
        rw (g, open_control)
          (open_kqueue-Allocated _ c
            (record {
              owned = with_control s b _ e;
              no_device = b.no_device;
              no_buffer = b.no_buffer;
              no_threads = b.no_threads;
            })
            g f)
  ]

  started :
      (c : HwtCtx)
      → c.ctl_fd ≡ none
      → c.kq_fd ≡ none
      → c.ctx_fd ≡ none
      → c.trace_buf ≡ none
      → c.threads ≡ []
      → IsStarted base (record { ctx = c; os = base })
  unfolding thread_fds thread_maps
  started c e f g h i = record {
    owned = record {
      fds = λ x. rw (e, f, g, i) (omega arith);
      maps = λ x. rw (h, i) (omega arith);
      faults = refl;
    };
    no_device = g;
    no_buffer = h;
    no_threads = i;
  }

  released_unchanged :
      (c : HwtCtx)
      → IsStarted base (record { ctx = c; os = base })
      → IsGivenBack base (record { ctx = c; os = base })
  released_unchanged c b = record {
    released = record { fds = λ x. omega arith; maps = λ x. omega arith; faults = refl };
    holds_none = b.owned;
  }

  -- Whatever the system answers, hwt_ctx_alloc() either returns 0 with a device open, no threads,
  -- and a context that holds exactly the descriptors and mappings that the process has gained, or
  -- fails with all of them given back, each once, and a context that holds none.
  pub hwt_ctx_alloc-Allocated : (a : AllocArgs) → Allocated base (hwt_ctx_alloc k a base)
  unfolding hwt_ctx_alloc
  hwt_ctx_alloc-Allocated a = elim (Bool-cases (is_empty a.backend)) [
    | inl e ↦ rw e (inr (refl, released_unchanged _ (started _ refl refl refl refl refl)))
    | inr e ↦ elim (Bool-cases (leb k.maxnamelen (length a.backend))) [
      | inl l ↦ rw (e, l) (inr (refl, released_unchanged _ (started _ refl refl refl refl refl)))
      | inr l ↦
          rw (e, l) (open_control-Allocated _ (started _ refl refl refl refl refl) refl refl refl)
    ]
  ]

-- ===== src/Hwt/Held.antt =====
-- What a context holds, and what hwt_ctx_close() gives back.
use observable_bsd.Prelude.{
  ℕ, ◌+◌, ◌≡◌, refl, ◌⊎◌, Bool, true, false, Option, none, some, List, [], ◌∷◌, arith,
}
use observable_bsd.Hwt.Process.{Os, stop}
use observable_bsd.Hwt.Balance.{
  one_of, Balanced, recount, ioctl-Balanced, close_field-Balanced, munmap_field-Balanced, one_self,
}
use observable_bsd.Hwt.{HwtThreadCtx, HwtCtx, Session, close_threads, stop_field, hwt_ctx_close}

-- How often the threads hold a descriptor, and a mapping.
unfoldable pub thread_fds : List HwtThreadCtx → ℕ → ℕ
thread_fds [] x = 0
thread_fds (t ∷ ts) x = one_of t.fd x + thread_fds ts x

unfoldable pub thread_maps : List HwtThreadCtx → ℕ → ℕ
thread_maps [] x = 0
thread_maps (t ∷ ts) x = one_of t.trace_buf x + thread_maps ts x

-- How often a context holds them.
abbrev pub held_fds : HwtCtx → ℕ → ℕ
held_fds c x = one_of c.ctl_fd x + (one_of c.kq_fd x + (one_of c.ctx_fd x + thread_fds c.threads x))

abbrev pub held_maps : HwtCtx → ℕ → ℕ
held_maps c x = one_of c.trace_buf x + thread_maps c.threads x

-- What the process has open, on top of `base`, is what the context holds.
abbrev pub IsOwned : Os → Session → Type 0
IsOwned base s = Balanced base s.os (held_fds s.ctx) (held_maps s.ctx)

-- The process has open what `base` had, and no call has failed for a stale descriptor or address.
abbrev pub IsReleased : Os → Session → Type 0
IsReleased base s = Balanced base s.os (λ x. 0) (λ x. 0)

close_threads-Balanced :
    {base : Os} {h m : ℕ → ℕ} (ts : List HwtThreadCtx) {os : Os}
    → Balanced base os (λ x. thread_fds ts x + h x) (λ x. thread_maps ts x + m x)
    → Balanced base (close_threads ts os) h m
unfolding close_threads thread_fds thread_maps
close_threads-Balanced [] b = recount b (λ x. omega arith) (λ x. omega arith)
close_threads-Balanced (t ∷ ts) b = close_threads-Balanced ts (
    close_field-Balanced t.fd
      (munmap_field-Balanced t.trace_buf (recount b (λ x. omega arith) (λ x. omega arith))))

stop_field-Balanced :
    {base os : Os} (h : ℕ → ℕ) {m : ℕ → ℕ} (fd : Option ℕ)
    → Balanced base os (λ x. one_of fd x + h x) m
    → Balanced base (stop_field fd os) (λ x. one_of fd x + h x) m
unfolding stop_field
stop_field-Balanced h none b = b
stop_field-Balanced h (some fd) b =
    ioctl-Balanced b (some fd) stop fd refl (omega (arith, one_self fd))

-- A context that owns what the process has open gives all of it back when it is closed, with no
-- descriptor closed and no mapping undone twice.
pub hwt_ctx_close-IsReleased :
    (base : Os) (s : Session) → IsOwned base s → IsReleased base (hwt_ctx_close s)
unfolding hwt_ctx_close
hwt_ctx_close-IsReleased base s b = close_field-Balanced s.ctx.ctl_fd (
    close_field-Balanced s.ctx.kq_fd (
      close_field-Balanced s.ctx.ctx_fd (
        munmap_field-Balanced s.ctx.trace_buf (
          close_threads-Balanced s.ctx.threads (
            recount
              (stop_field-Balanced
                (λ x. one_of s.ctx.ctl_fd x + (one_of s.ctx.kq_fd x + thread_fds s.ctx.threads x))
                s.ctx.ctx_fd (recount b (λ x. omega arith) (λ x. refl)))
              (λ x. omega arith) (λ x. omega arith))))))

-- What hwt_ctx_alloc() leaves. Where it returns 0, the context owns what the process has open, has
-- a device and no threads; where it fails, all is given back, and the context holds nothing.
pub record IsReady (base : Os) (s : Session) : Type 0 where
  pub owned : IsOwned base s
  pub device : (n : ℕ) × (s.ctx.ctx_fd ≡ some n)
  pub no_threads : s.ctx.threads ≡ []

pub record IsGivenBack (base : Os) (s : Session) : Type 0 where
  pub released : IsReleased base s
  pub holds_none : IsOwned base s

abbrev pub Allocated : Os → Session × Bool → Type 0
Allocated base r = ((r.1 ≡ true) × IsReady base r.0) ⊎ ((r.1 ≡ false) × IsGivenBack base r.0)

pub hwt_ctx_close-IsGivenBack :
    (base : Os) (s : Session) → IsOwned base s → IsGivenBack base (hwt_ctx_close s)
unfolding hwt_ctx_close thread_fds thread_maps
hwt_ctx_close-IsGivenBack base s b =
    let r = hwt_ctx_close-IsReleased base s b in
    record {
      released = r;
      holds_none = recount (unfold hwt_ctx_close in r) (λ x. omega arith) (λ x. omega arith);
    }

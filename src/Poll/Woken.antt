-- ===== src/Poll/Woken.antt =====
-- A polling loop wakes the target for each record that paused it, and loses no record.
use observable_bsd.Prelude.Lists.{replicate}
use observable_bsd.Types.{
  RecordType, mmap, munmap, executable, kernel, thread_create, thread_set_name, buffer, overflow,
  other, is_mmap, is_executable,
}
use observable_bsd.Prelude.{
  zero, ◌++◌, ap, ◌∙◌, ◌||◌, ℕ, suc, ◌+◌, ◌<◌, ◌≡◌, refl, inl, inr, Bool, true, false, ◌&&◌, Option,
  none, some, List, [], ◌∷◌, ltb, leb, if◌then◌else◌, length, arith, Bool-cases, if-both, ℤ,
}
use observable_bsd.Types.{BsdtraceRecord}
use observable_bsd.Trace.{TraceState, trace_state_process, process_all}
use observable_bsd.Hwt.Process.{Os, Request, wakeup, count, ioctl, opened_fd}
use observable_bsd.Hwt.{Session, Kernel, max_threads, device_path}
use observable_bsd.Hwt.Operations.{
  request, hwt_ctx_wakeup, hwt_ctx_open_thread, add_thread, has_thread,
}
use observable_bsd.Hwt.Balance.{one_self}
use observable_bsd.Hwt.Held.{held_fds}
use observable_bsd.Hwt.Lifecycle.{Reach, later, resume, add, Reach-Inv}
use observable_bsd.Poll.{pauses, wants_thread, wake_for, open_for, emit_and_process, emit_all}

-- An MMAP or an EXEC record.
is_pausing : RecordType → Bool
is_pausing mmap = true
is_pausing executable = true
is_pausing _ = false

-- How many of the records are MMAP or EXEC records.
unfoldable pub pausing : List BsdtraceRecord → ℕ
unfolding is_pausing
pausing [] = 0
pausing (r ∷ rs) = (if is_pausing r.type then 1 else 0) + pausing rs

-- `n` requests to resume the target, on the descriptor `fd`.
unfoldable pub wakeups : ℕ → ℕ → List (ℕ × Request)
wakeups fd n = replicate n (fd, wakeup)

pauses-is_pausing : (r : BsdtraceRecord) → pauses r ≡ is_pausing r.type
unfolding is_pausing
pauses-is_pausing r = on_type r.type
  where
    on_type : (type : RecordType) → (is_mmap type || is_executable type) ≡ is_pausing type
    on_type mmap = refl
    on_type munmap = refl
    on_type executable = refl
    on_type kernel = refl
    on_type thread_create = refl
    on_type thread_set_name = refl
    on_type buffer = refl
    on_type overflow = refl
    on_type (other n) = refl

-- One more request, sent before the others.
wakeups-cons :
    (fd n : ℕ) (qs : List (ℕ × Request))
    → wakeups fd n ++ ((fd, wakeup) ∷ qs) ≡ (fd, wakeup) ∷ (wakeups fd n ++ qs)
unfolding wakeups
wakeups-cons fd zero qs = refl
wakeups-cons fd (suc n) qs = ap (λ l. (fd, wakeup) ∷ l) (wakeups-cons fd n qs)

wakeups-both :
    (pause paused : Bool) (fd n : ℕ) (qs : List (ℕ × Request))
    → wakeups fd (if pause then n else 0) ++ (wakeups fd (if pause && paused then 1 else 0) ++ qs)
      ≡ wakeups fd (if pause then (if paused then 1 else 0) + n else 0) ++ qs
unfolding wakeups
wakeups-both false paused fd n qs = refl
wakeups-both true false fd n qs = ap (λ i. replicate i (fd, wakeup) ++ qs) (omega arith)
wakeups-both true true fd n qs = let e : 1 + n ≡ suc n = omega arith in rw e (wakeups-cons fd n qs)

-- The session has the device `fd`, and its process has sent `qs`.
HasSent : ℕ → List (ℕ × Request) → Session → Type 0
HasSent fd qs s = (s.os.ioctls ≡ qs) × (s.ctx.ctx_fd ≡ some fd)

add-HasSent :
    (k : Kernel) (s : Session) (tid : ℤ) (fd : ℕ) (opened : Option ℕ)
    → s.ctx.ctx_fd ≡ some fd
    → HasSent fd s.os.ioctls (add_thread k s tid opened).0
unfolding add_thread opened_fd HasSent
add-HasSent k s tid fd none e = (refl, e)
add-HasSent k s tid fd (some n) e = (refl, e)

module _ (k : Kernel) (base : Os) where
  wake_for-Reach :
      (pause : Bool) (r : BsdtraceRecord) (s : Session)
      → Reach k base s
      → Reach k base (wake_for k pause r s)
  unfolding wake_for
  wake_for-Reach pause r s h = if-both (Reach k base) (pause && pauses r) (later h resume) h

  open_for-Reach :
      (r : BsdtraceRecord) (s : Session) → Reach k base s → Reach k base (open_for k r s)
  unfolding open_for
  open_for-Reach r s h = if-both (Reach k base) (wants_thread s.ctx r) (later h (add r.thread_id)) h

  -- Waking is one request, on the device, which is open.
  wakeup-HasSent :
      (s : Session) (fd : ℕ)
      → Reach k base s
      → s.ctx.ctx_fd ≡ some fd
      → HasSent fd ((fd, wakeup) ∷ s.os.ioctls) (hwt_ctx_wakeup k s).0
  unfolding hwt_ctx_wakeup request ioctl HasSent
  wakeup-HasSent s fd h e =
      let i = Reach-Inv k base s h in
      let held : 0 < held_fds s.ctx fd = rw e (omega (arith, one_self fd)) in
      let t : ltb 0 (count fd s.os.fds) ≡ true = ground (arith, i.owned.fds fd) in
      (rw (e, ioctl, t) refl, e)

  open-HasSent :
      (s : Session) (tid : ℤ) (fd : ℕ)
      → s.ctx.ctx_fd ≡ some fd
      → HasSent fd s.os.ioctls (hwt_ctx_open_thread k s tid).0
  unfolding hwt_ctx_open_thread HasSent
  open-HasSent s tid fd e =
      let P : Session × Bool → Type 0 = λ r. HasSent fd s.os.ioctls r.0 in
      if-both P (leb max_threads (length s.ctx.threads)) (refl, e)
        (if-both P (has_thread tid s.ctx.threads) (refl, e)
          (add-HasSent k s tid fd (k.open_path s.os (device_path s.ctx.ident tid)) e))

  wake_for-HasSent :
      (pause : Bool) (r : BsdtraceRecord) (s : Session) (fd : ℕ)
      → Reach k base s
      → s.ctx.ctx_fd ≡ some fd
      → HasSent fd
          (wakeups fd (if pause && is_pausing r.type then 1 else 0) ++ s.os.ioctls)
          (wake_for k pause r s)
  unfolding wake_for HasSent wakeups
  wake_for-HasSent pause r s fd h e =
      let q = pauses-is_pausing r in
      elim (Bool-cases (pause && is_pausing r.type)) [
        | inl t ↦ rw (wake_for, q, t) (wakeup-HasSent s fd h e)
        | inr t ↦ rw (wake_for, q, t) (refl, e)
      ]

  open_for-HasSent :
      (r : BsdtraceRecord) (s : Session) (fd : ℕ)
      → s.ctx.ctx_fd ≡ some fd
      → HasSent fd s.os.ioctls (open_for k r s)
  unfolding open_for HasSent
  open_for-HasSent r s fd e =
      if-both (HasSent fd s.os.ioctls) (wants_thread s.ctx r) (open-HasSent s r.thread_id fd e)
        (refl, e)

pub emit_all-woken :
    (k : Kernel) (base : Os) (pause : Bool) (grown : ℕ → Bool) (rs : List BsdtraceRecord)
    (s : Session) (ts : TraceState) (fd : ℕ)
    → Reach k base s
    → s.ctx.ctx_fd ≡ some fd
    → (let r = emit_all k pause grown rs (s, ts) in
        (r.1 ≡ process_all ts grown rs)
        × (r.0.os.ioctls ≡ wakeups fd (if pause then pausing rs else 0) ++ s.os.ioctls)
        × (r.0.ctx.ctx_fd ≡ some fd)
        × Reach k base r.0)
unfolding emit_all emit_and_process process_all pausing wakeups HasSent
emit_all-woken k base pause grown [] s ts fd h d = (refl, ground arith, d, h)
emit_all-woken k base pause grown (r ∷ rs) s ts fd h d =
    let awake = wake_for-Reach k base pause r s h in
    let next = open_for-Reach k base r (wake_for k pause r s) awake in
    let a = wake_for-HasSent k base pause r s fd h d in
    let b = open_for-HasSent k base r (wake_for k pause r s) fd a.1 in
    let (e, w, c, l) =
      emit_all-woken k base pause (λ i. grown (i + 1)) rs (open_for k r (wake_for k pause r s))
        (trace_state_process ts (grown 0) r) fd next b.1 in
    let sent = b.0 ∙ a.0 in
    (
      e,
      w
          ∙ ap (λ qs. wakeups fd (if pause then pausing rs else 0) ++ qs) sent
          ∙ wakeups-both pause (is_pausing r.type) fd (pausing rs) s.os.ioctls,
      c,
      l,
    )

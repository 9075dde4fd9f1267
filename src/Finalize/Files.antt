-- ===== src/Finalize/Files.antt =====
-- The snapshots of the further threads: the loop ends, each thread has its files or a reason why it
-- has none, and the process gains only the buffers.
use observable_bsd.Prelude.{
  ◌<◌, is_empty, not, ◌∙◌, ℕ, ◌+◌, ◌-◌, ◌≤◌, ◌≡◌, refl, inl, inr, Bool, Option, none, some, List,
  [], ◌∷◌, Bytes, ◌==◌, length, ℤ, arith, Bool-cases, if-both,
}
use observable_bsd.Decode.{DecodeProbeResult}
use observable_bsd.Meta.{MetaWriter}
use observable_bsd.Trace.{TraceState}
use observable_bsd.Snapshot.{choose_snapshot_len}
use observable_bsd.Snapshot.Extent.{choose_snapshot_len-IsChoice}
use observable_bsd.Hwt.Process.{Os, opened_fd, close, close_field, bufptr_get, ioctl}
use observable_bsd.Hwt.Balance.{
  one_of, Balanced, recount, opened_fd-Balanced, ioctl-Balanced, close_field-Balanced, one_self,
}
use observable_bsd.Hwt.Held.{thread_fds, thread_maps}
use observable_bsd.Hwt.{HwtThreadCtx, HwtCtx, Kernel}
use observable_bsd.Hwt.Threads.{map_thread-Balanced}
use observable_bsd.Hwt.Broken.{IsWrite, write_loop-ends}
use observable_bsd.Hwt.Buffer.{map_thread}
use observable_bsd.Hwt.Open.{AllOpen}
use observable_bsd.Finalize.Shots.{
  IsEnd, IsShot, unmapped, empty, refused, broken, shot, Shots, done, round, map_thread-IsBuffer,
  thread_len-IsEnd,
}
use observable_bsd.Finalize.{
  Answers, ThreadFile, opened_meta, thread_meta, after_write, write_thread, thread_len,
  snapshot_mapped_thread, snapshot_thread, add_file, snapshot_threads,
}

pub choose_snapshot_len-bound :
    (probe : ℕ → Option DecodeProbeResult) (buf : Bytes) (n : ℕ) (hs : Bool)
    → choose_snapshot_len probe (some buf) n hs ≤ length buf
choose_snapshot_len-bound probe buf n hs = elim (Bool-cases (length buf == 0)) [
  | inl z ↦ unfold choose_snapshot_len in rw z (omega arith)
  | inr z ↦ (choose_snapshot_len-IsChoice probe buf n hs (ground arith)).in_buffer
]

module _ (k : Kernel) (a : Answers) (pt_output : Bytes) (ctx : HwtCtx) (ts : TraceState) where
  thread_len-bound :
      (tid : ℤ) (buf : Bytes) (at : Option (ℤ × ℕ))
      → thread_len k a pt_output ctx ts tid buf at ≤ length buf
  unfolding thread_len
  thread_len-bound tid buf at = choose_snapshot_len-bound _ buf _ _

  module _ {base : Os} {h m : ℕ → ℕ} where
    -- A file is opened and closed.
    file-Balanced :
        (fd : ℕ) {os : Os}
        → Balanced base os h m
        → Balanced base (close fd (opened_fd os (some fd))) h m
    file-Balanced fd b =
        unfold close_field in close_field-Balanced (some fd) (opened_fd-Balanced b (some fd))

    opened_meta-Balanced :
        (tid : ℤ) (fd : Option ℕ) {os : Os}
        → Balanced base os h m
        → Balanced base (opened_meta k a pt_output ctx ts tid os fd).0 h m
    unfolding opened_meta
    opened_meta-Balanced tid none b = b
    opened_meta-Balanced tid (some fd) b = file-Balanced fd b

    thread_meta-Balanced :
        (tid : ℤ) {os : Os}
        → Balanced base os h m
        → Balanced base (thread_meta k a pt_output ctx ts tid os).0 h m
    unfolding thread_meta
    thread_meta-Balanced tid {os = os} b =
        if-both (λ (r : Os × MetaWriter). Balanced base r.0 h m) (a.memory tid)
          (opened_meta-Balanced tid (k.create os) b) b

  -- A round ends; the process has what it had, and the files are as they have to be.
  abbrev Done :
      Os
      → (ℕ → ℕ)
      → (ℕ → ℕ)
      → ℤ
      → Option (ℤ × ℕ)
      → Os
      → Option ℕ
      → Option (Os × Option ThreadFile)
      → Type 0
  Done base h m tid at os p r =
      (x : Os × Option ThreadFile) × (r ≡ some x)
      × Balanced base x.0 h m
      × IsShot k a pt_output ctx ts tid at os p x.1 x.0

  module _ (progress : (tid : ℤ) → IsWrite (a.write tid))
      (enough : (p : ℕ) → length (k.memory p) ≤ a.fuel) {base : Os} {h m : ℕ → ℕ} where
    write_thread-Done :
        (tid : ℤ) (q end n : ℕ) (at : Option (ℤ × ℕ)) (fd : Option ℕ) {os : Os}
        → IsEnd k a pt_output ctx ts at end
        → choose_snapshot_len
            (a.probe tid ts.sections)
            (some (k.memory q))
            end
            (not (is_empty ts.sections))
          ≡ n
        → 0 < n
        → n ≤ length (k.memory q)
        → k.create os ≡ fd
        → Balanced base os h m
        → Done base h m tid at os
            (some q)
            (write_thread k a pt_output ctx ts tid os (k.memory q) n fd)
    unfolding write_thread after_write
    write_thread-Done tid q end n at none {os = os} i c z l e b =
        ((os, none), refl, b, refused q end n i c z e)
    write_thread-Done tid q end n at (some fd) {os = os} i c z l e b =
        let o : n - 0 ≡ n = omega arith in
        elim (write_loop-ends a.fuel (a.write tid) (k.memory q) 0 n [] (progress tid) (omega arith)
          (omega (arith, l, enough q))) [
            | inl (w, v) ↦
                rw (w, o)
                  (
                    _,
                    refl,
                    thread_meta-Balanced tid (file-Balanced fd b),
                    shot q end n fd _ _ i c z e v refl,
                  )
            | inr (w, v) ↦ rw w (_, refl, file-Balanced fd b, broken q end n fd i c z e v)
          ]

    snapshot_mapped_thread-Done :
        (tid : ℤ) (at : Option (ℤ × ℕ)) (p : Option ℕ) {os : Os}
        → Balanced base os h m
        → Done base h m tid at os p (snapshot_mapped_thread k a pt_output ctx ts tid os at p)
    unfolding snapshot_mapped_thread
    snapshot_mapped_thread-Done tid at none {os = os} b = ((os, none), refl, b, unmapped)
    snapshot_mapped_thread-Done tid at (some q) {os = os} b =
        let n = thread_len k a pt_output ctx ts tid (k.memory q) at in
        let (end, i, c) = thread_len-IsEnd k a pt_output ctx ts tid (k.memory q) at in
        elim (Bool-cases (n == 0)) [
          | inl z ↦ rw z ((os, none), refl, b, empty q end i (c ∙ ground arith))
          | inr z ↦ rw z (
              write_thread-Done tid q end n at (k.create os) i c (ground arith)
                (thread_len-bound tid (k.memory q) at) refl b)
        ]

  -- The loop over the threads.
  abbrev pub AllDone :
      Os
      → (ℕ → ℕ)
      → (ℕ → ℕ)
      → List HwtThreadCtx
      → Os
      → Option (List HwtThreadCtx × Os × List ThreadFile)
      → Type 0
  AllDone base h m before start r =
      (us : List HwtThreadCtx) × (os : Os) × (fs : List ThreadFile) × (r ≡ some (us, os, fs))
      × Balanced base os (λ x. h x + thread_fds us x) (λ x. m x + thread_maps us x)
      × Shots k a pt_output ctx ts before start us fs os

  module _ (progress : (tid : ℤ) → IsWrite (a.write tid))
      (enough : (p : ℕ) → length (k.memory p) ≤ a.fuel) {base : Os} where
    snapshot_thread-Done :
        (h m : ℕ → ℕ) (t : HwtThreadCtx) (fd : ℕ) {os : Os}
        → t.fd ≡ some fd
        → Balanced base os (λ x. one_of t.fd x + h x) (λ x. one_of t.trace_buf x + m x)
        → (let r = snapshot_thread k a pt_output ctx ts t os in
            Done base
              (λ x. one_of t.fd x + h x)
              (λ x. one_of r.0 x + m x)
              t.thread_id
              (k.bufptr os t.fd)
              (map_thread k ctx.bufsize t.fd t.trace_buf (ioctl t.fd bufptr_get os)).1
              r.0
              r.1)
    unfolding snapshot_thread
    snapshot_thread-Done h m t fd {os = os} e b =
        let asked = ioctl-Balanced b t.fd bufptr_get fd e (rw e (omega (arith, one_self fd))) in
        snapshot_mapped_thread-Done progress enough t.thread_id (k.bufptr os t.fd) _
          (map_thread-Balanced k ctx.bufsize m t.fd t.trace_buf asked)

    pub snapshot_threads-AllDone :
        (h m : ℕ → ℕ) (us : List HwtThreadCtx) {os : Os}
        → AllOpen us
        → Balanced base os (λ x. h x + thread_fds us x) (λ x. m x + thread_maps us x)
        → AllDone base h m us os (snapshot_threads k a pt_output ctx ts us os)
    unfolding snapshot_threads snapshot_thread AllOpen thread_fds thread_maps
    snapshot_threads-AllDone h m [] {os = os} o b = ([], os, [], refl, b, done os)
    snapshot_threads-AllDone h m (t ∷ us) {os = os} ((fd, e), o) b =
        let p = (snapshot_thread k a pt_output ctx ts t os).0 in
        let ((os', f), z, c, i) =
          snapshot_thread-Done (λ x. h x + thread_fds us x) (λ x. m x + thread_maps us x) t fd e
            (recount b (λ x. omega arith) (λ x. omega arith)) in
        let (vs, os'', fs, y, d, j) =
          snapshot_threads-AllDone (λ x. h x + one_of t.fd x) (λ x. m x + one_of p x) us o
            (recount c (λ x. omega arith) (λ x. omega arith)) in
        rw (z, snapshot_threads, y)
          (
            record t { trace_buf = p } ∷ vs,
            os'',
            add_file k a pt_output ctx ts f fs,
            refl,
            recount d (λ x. omega arith) (λ x. omega arith),
            round t us vs fs os _ os' os'' p f
                (map_thread-IsBuffer k a pt_output ctx ts t (ioctl t.fd bufptr_get os)) i j,
          )

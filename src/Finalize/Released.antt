-- ===== src/Finalize/Released.antt =====
-- The end of a trace ends, and gives back all that the trace has taken of the process.
use observable_bsd.Prelude.{
  ℕ, zero, suc, ◌+◌, ◌-◌, ◌*◌, ◌/◌, ◌%◌, ◌≤◌, ◌<◌, ◌≡◌, refl, inl, inr, true, false, Option, none,
  some, List, [], ◌∷◌, Bytes, ltb, ◌==◌, length, ℤ, pos, negsuc, ltb_ℤ, arith, Bool-cases,
  Option-cases, if◌then◌else◌, if-both, ◌||◌, ◌&&◌, not, is_empty,
}
use observable_bsd.Types.{BsdtraceRecord, page_size, to_int}
use observable_bsd.Trace.{TraceState, process_all}
use observable_bsd.Snapshot.{extent, to_size, choose_snapshot_len}
use observable_bsd.Hwt.Process.{Os}
use observable_bsd.Hwt.Balance.{one_of, recount}
use observable_bsd.Hwt.{Session, Kernel}
use observable_bsd.Hwt.Operations.{hwt_ctx_stop, hwt_ctx_map_buffer, hwt_ctx_poll_records}
use observable_bsd.Hwt.Held.{IsOwned, IsReleased, hwt_ctx_close-IsReleased}
use observable_bsd.Hwt.Buffer.{
  Saved, nothing, failed, saved, stuck, saved_as, save_file, save_mapped, hwt_ctx_snapshot_buffer,
}
use observable_bsd.Hwt.Broken.{IsWrite, write_loop-ends}
use observable_bsd.Hwt.Lifecycle.{Reach, later, halt, poll, query, map, save, Reach-Inv}
use observable_bsd.Hwt.Open.{Reach-AllOpen}
use observable_bsd.Poll.Woken.{emit_all-woken}
use observable_bsd.Finalize.{Answers, snapshot_threads}
use observable_bsd.Finalize.Files.{choose_snapshot_len-bound, snapshot_threads-AllDone}
use observable_bsd.Finalize.Whole.{
  SnapshotResult, with_files, other_threads, after_primary, from_buffer, snapshot_and_decode, drain,
  final_drain, Finalized, closed, after_drain, trace_finalize,
}

IsEnded : Saved → Type 0
IsEnded nothing = Unit
IsEnded failed = Unit
IsEnded (saved n file) = Unit
IsEnded stuck = true ≡ false

-- A page that is not negative and an offset give at most the length that they are made of.
extent-bound : (n j : ℕ) → to_int (n / page_size) ≡ pos j → extent (pos j) (n % page_size) ≤ n
unfolding extent to_size to_int
extent-bound n j e = let b : j ≤ n / page_size = ground (arith, e) in omega arith

module _ (k : Kernel) (write : ℕ → ℕ → Option ℕ) (fuel : ℕ) (progress : IsWrite write) where
  save_file-IsEnded :
      (s : Session) (buf : Bytes) (total : ℕ)
      → total ≤ fuel
      → IsEnded (save_file k write fuel s buf total).1
  unfolding save_file IsEnded
  save_file-IsEnded s buf total h = elim (Option-cases (k.create s.os)) [
    | inl e ↦ rw (e, save_file) tt
    | inr (fd, e) ↦
        elim (write_loop-ends fuel write buf 0 total [] progress (omega arith) (omega arith)) [
          | inl (w, v) ↦ unfold saved_as in rw (e, save_file, w) tt
          | inr (w, v) ↦ unfold saved_as in rw (e, save_file, w) tt
        ]
  ]

  save_mapped-IsEnded :
      (s : Session) (p : Option ℕ) (end : ℕ)
      → end ≤ fuel
      → IsEnded (save_mapped k write fuel s p end).1
  unfolding save_mapped IsEnded
  save_mapped-IsEnded s none end h = tt
  save_mapped-IsEnded s (some p) end h =
      let total = if ltb s.ctx.bufsize end then s.ctx.bufsize else end in
      let bounded : total ≤ fuel = ground arith in
      if-both (λ (r : Session × Saved). IsEnded r.1) (total == 0) {x = (s, nothing)}
        {y = save_file k write fuel s (k.memory p) total} tt
        (save_file-IsEnded s (k.memory p) total bounded)

  snapshot_page-IsEnded :
      (s : Session) (n : ℕ) (page : ℤ)
      → to_int (n / page_size) ≡ page
      → n ≤ fuel
      → IsEnded (hwt_ctx_snapshot_buffer k write fuel s page (n % page_size)).1
  unfolding hwt_ctx_snapshot_buffer IsEnded
  snapshot_page-IsEnded s n (negsuc j) e h =
      let t : ltb_ℤ (negsuc j) (pos 0) ≡ true = ground arith in rw t tt
  snapshot_page-IsEnded s n (pos j) e h =
      let (s', p) = hwt_ctx_map_buffer k s in
      let end = extent (pos j) (n % page_size) in
      if-both (λ (r : Session × Saved). IsEnded r.1) (ltb_ℤ (pos j) (pos 0)) {x = (s, nothing)}
        {y = save_mapped k write fuel s' p end} tt
        (save_mapped-IsEnded s' p end (omega (arith, extent-bound n j e)))

  snapshot_buffer-IsEnded :
      (s : Session) (n : ℕ)
      → n ≤ fuel
      → IsEnded (hwt_ctx_snapshot_buffer k write fuel s (to_int (n / page_size)) (n % page_size)).1
  snapshot_buffer-IsEnded s n h = snapshot_page-IsEnded s n (to_int (n / page_size)) refl h

-- The polls after the stop find records only so often: `late` bounds how often, and an empty poll
-- does not raise it.
unfoldable pub IsQuiet : Kernel → (Os → ℕ) → Type 0
IsQuiet k late =
    (s : Session)
    → (let r = hwt_ctx_poll_records k s 256 false in
        (late r.0.os ≤ late s.os)
        × ((x : BsdtraceRecord) (xs : List BsdtraceRecord)
            → r.1 ≡ some (x ∷ xs)
            → late r.0.os < late s.os))

module _ (k : Kernel) (a : Answers) (pt_output : Bytes) (base : Os) where
  -- The drain ends, and its context is still in use.
  abbrev Drained : Option (Session × TraceState × ℕ) → Type 0
  Drained r = (x : Session × TraceState × ℕ) × (r ≡ some x) × Reach k base x.0

  drain-Drained :
      (late : Os → ℕ) (quiet : IsQuiet k late) (fuel : ℕ) (s : Session) (e : ℕ) (ts : TraceState)
      (total : ℕ)
      → late s.os * 41 + (40 - e) < fuel
      → Reach k base s
      → Drained (drain k a pt_output fuel s e ts total)
  unfolding drain IsQuiet
  drain-Drained late quiet zero s e ts total h r = absurd (omega arith)
  drain-Drained late quiet (suc fuel) s e ts total h r =
      let r' : Reach k base (hwt_ctx_poll_records k s 256 false).0 = later r (poll 256 false) in
      let s' = (hwt_ctx_poll_records k s 256 false).0 in
      let (le, lt) = quiet s in
      elim (Bool-cases (ltb e 40)) [
        | inr z ↦ rw z ((s, ts, total), refl, r)
        | inl z ↦ elim (Option-cases (hwt_ctx_poll_records k s 256 false).1) [
          | inl y ↦ rw (z, y) ((s', ts, total), refl, r')
          | inr ([], y) ↦
              rw (z, y) (drain-Drained late quiet fuel s' (e + 1) ts total (ground (arith, le)) r')
          | inr (x ∷ xs, y) ↦
              rw (z, y)
                (drain-Drained late quiet fuel s' 0 (process_all ts (a.grown s.os) (x ∷ xs))
                  (total + length (x ∷ xs)) (omega (arith, lt x xs y)) r')
        ]
      ]

  final_drain-Reach :
      (s : Session) (ts : TraceState)
      → Reach k base s
      → Reach k base (final_drain k a pt_output s ts).0.0
  unfolding final_drain
  final_drain-Reach s ts r =
      let s' = (hwt_ctx_poll_records k s 256 false).0 in
      let r' : Reach k base s' = later r (poll 256 false) in
      elim (Option-cases (hwt_ctx_poll_records k s 256 false).1) [
        | inl y ↦ rw (final_drain, y) r'
        | inr (rs, y) ↦
            let (fd, e) = (Reach-Inv k base s' r').device in
            rw (final_drain, y) (emit_all-woken k base true (a.grown s.os) rs s' ts fd r' e).3
      ]

  -- A snapshot whose context owns what the process has open on top of `base`.
  abbrev Shot : Option SnapshotResult → Type 0
  Shot r = (x : SnapshotResult) × (r ≡ some x) × IsOwned base x.session

  module _ (primary : IsWrite a.primary_write) (progress : (tid : ℤ) → IsWrite (a.write tid))
      (enough : (p : ℕ) → length (k.memory p) ≤ a.fuel) where
    with_files-Shot :
        (s : Session) (n : ℤ) (p : Saved) (ts : TraceState)
        → Reach k base s
        → Shot (
            with_files k a pt_output s n p
              (snapshot_threads k a pt_output s.ctx ts s.ctx.threads s.os))
    unfolding with_files
    with_files-Shot s n p ts r =
        let c = s.ctx in
        let (us, os, fs, e, b, shots) =
          snapshot_threads-AllDone k a pt_output c ts progress enough
            (λ x. one_of c.ctl_fd x + (one_of c.kq_fd x + one_of c.ctx_fd x)) (one_of c.trace_buf)
            c.threads (Reach-AllOpen k base s r)
            (recount (Reach-Inv k base s r).owned (λ x. omega arith) (λ x. refl)) in
        rw e (_, refl, recount b (λ x. omega arith) (λ x. refl))

    other_threads-Shot :
        (ts : TraceState) (s : Session) (n : ℤ) (p : Saved)
        → Reach k base s
        → Shot (other_threads k a pt_output ts s n p)
    unfolding other_threads
    other_threads-Shot ts s n p r =
        if-both Shot
          ((s.ctx.all_threads || not (is_empty s.ctx.requested_tids))
            && not (is_empty s.ctx.threads))
          (with_files-Shot s n p ts r) (_, refl, (Reach-Inv k base s r).owned)

    after_primary-Shot :
        (ts : TraceState) (s : Session) (p : Saved)
        → IsEnded p
        → Reach k base s
        → Shot (after_primary k a pt_output ts s p)
    unfolding after_primary IsEnded
    after_primary-Shot ts s nothing i r = other_threads-Shot ts s (pos 0) nothing r
    after_primary-Shot ts s failed i r = other_threads-Shot ts s (negsuc 0) failed r
    after_primary-Shot ts s (saved n file) i r = other_threads-Shot ts s (pos n) (saved n file) r
    after_primary-Shot ts s stuck i r = ground arith

    from_buffer-Shot :
        (ts : TraceState) (s : Session) (base_len : ℕ) (p : Option ℕ)
        → Reach k base s
        → Shot (from_buffer k a pt_output ts s base_len p)
    unfolding from_buffer
    from_buffer-Shot ts s base_len none r = (_, refl, (Reach-Inv k base s r).owned)
    from_buffer-Shot ts s base_len (some p) r =
        let n =
          choose_snapshot_len (a.primary_probe ts.sections) (some (k.memory p)) base_len
            (not (is_empty ts.sections)) in
        let x =
          hwt_ctx_snapshot_buffer k a.primary_write a.fuel s (to_int (n / page_size))
            (n % page_size) in
        let b =
          choose_snapshot_len-bound (a.primary_probe ts.sections) (k.memory p) base_len
            (not (is_empty ts.sections)) in
        let i =
          snapshot_buffer-IsEnded k a.primary_write a.fuel primary s n
            (omega (arith, b, enough p)) in
        if-both Shot (n == 0) (_, refl, (Reach-Inv k base s r).owned)
          (after_primary-Shot ts x.0 x.1 i
            (later r (save a.primary_write a.fuel (to_int (n / page_size)) (n % page_size))))

    snapshot_and_decode-Shot :
        (ts : TraceState) (s : Session)
        → Reach k base s
        → Shot (snapshot_and_decode k a pt_output ts s)
    unfolding snapshot_and_decode
    snapshot_and_decode-Shot ts s r = from_buffer-Shot ts _ _ _ (later (later r query) map)

    closed-IsReleased :
        (ts : TraceState) (total : ℕ) (o : Option SnapshotResult)
        → Shot o
        → (f : Finalized) × (closed k a pt_output ts total o ≡ some f) × IsReleased base f.session
    unfolding closed
    closed-IsReleased ts total o (x, e, b) =
        rw e (_, refl, hwt_ctx_close-IsReleased base x.session b)

    after_drain-IsReleased :
        (total : ℕ) (s : Session) (ts : TraceState) (late : ℕ)
        → Reach k base s
        → (f : Finalized) × (after_drain k a pt_output total (some (s, ts, late)) ≡ some f)
          × IsReleased base f.session
    unfolding after_drain
    after_drain-IsReleased total s ts late r =
        closed-IsReleased _ (total + late) _ (snapshot_and_decode-Shot _ s r)

    -- From a session in use, where each write() fails or takes some of what it is given, the fuel
    -- of the writes is at least the length of each buffer, and the kernel delivers late records to
    -- only so many polls, which the fuel of the drain allows for: trace_finalize() ends, whichever of
    -- the calls of the system fail, and afterwards the process has open exactly the descriptors and
    -- mappings that it had before hwt_ctx_alloc(), without a stale one used on the way.
    pub trace_finalize-IsReleased :
        (late : Os → ℕ) (fuel : ℕ) (s : Session) (ts : TraceState) (total : ℕ)
        → IsQuiet k late
        → ((os : Os) → late os * 41 + 40 < fuel)
        → Reach k base s
        → (f : Finalized) × (trace_finalize k a pt_output fuel s ts total ≡ some f)
          × IsReleased base f.session
    unfolding trace_finalize
    trace_finalize-IsReleased late fuel s ts total quiet room r =
        let ((s', ts'), n) = final_drain k a pt_output s ts in
        let r' : Reach k base (hwt_ctx_stop k s').0 = later (final_drain-Reach s ts r) halt in
        let ((t, us, m), e, q) =
          drain-Drained late quiet fuel (hwt_ctx_stop k s').0 0 ts' 0
            (omega (arith, room (hwt_ctx_stop k s').0.os)) r' in
        rw e (after_drain-IsReleased (total + n) t us m q)

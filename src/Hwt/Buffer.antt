-- ===== src/Hwt/Buffer.antt =====
-- hwt_ctx_snapshot_buffer() of hwt.c, and how snapshot_and_decode() of trace.c calls it for the
-- primary thread and maps the buffers of the others.
use observable_bsd.Prelude.{
  ℕ, zero, suc, ◌+◌, ◌-◌, ◌/◌, ◌%◌, Bool, Option, none, some, List, [], ◌∷◌, ◌++◌, Bytes, ltb, ◌==◌,
  if◌then◌else◌, take, drop, ℤ, pos, ltb_ℤ,
}
use observable_bsd.Types.{page_size, to_int}
use observable_bsd.Decode.{DecodeProbeResult}
use observable_bsd.Trace.{TraceState}
use observable_bsd.Snapshot.{extent, known_end, choose_snapshot_len}
use observable_bsd.Hwt.Process.{Os, opened_fd, mapped, close}
use observable_bsd.Hwt.{HwtThreadCtx, Session, Kernel}
use observable_bsd.Hwt.Operations.{hwt_ctx_bufptr_get, hwt_ctx_map_buffer}

-- What hwt_ctx_snapshot_buffer() comes to: 0 with no file written, -1, or the bytes of the file
-- with their number. `stuck`: the fuel did not suffice.
pub data Saved : Type 0 where
  nothing : Saved
  failed : Saved
  saved : ℕ → Bytes → Saved
  stuck : Saved

-- while (off < total): `file` is what is written so far, and `write off len` the number of bytes
-- that write() takes of `len` at `off`, none where it fails.
unfoldable pub write_loop : ℕ → (ℕ → ℕ → Option ℕ) → Bytes → ℕ → ℕ → Bytes → Option (Option Bytes)
write_loop zero write buf off total file = if ltb off total then none else some (some file)
write_loop (suc fuel) write buf off total file =
    let next : Option (Option Bytes) = elim (write off (total - off)) [
      | none ↦ some none
      | some n ↦ write_loop fuel write buf (off + n) total (file ++ take n (drop off buf))
    ] in
    if ltb off total then next else some (some file)

unfoldable pub saved_as : ℕ → Option (Option Bytes) → Saved
saved_as total none = stuck
saved_as total (some none) = failed
saved_as total (some (some file)) = saved total file

module _ (k : Kernel) (write : ℕ → ℕ → Option ℕ) (fuel : ℕ) where
  -- From the open() of the file on.
  unfoldable pub save_file : Session → Bytes → ℕ → Session × Saved
  unfolding saved_as
  save_file s buf total = elim (k.create s.os) [
    | none ↦ (s, failed)
    | some fd ↦ (
      record s { os = close fd (opened_fd s.os (some fd)) },
      saved_as total (write_loop fuel write buf 0 total []),
    )
  ]

  unfoldable pub save_mapped : Session → Option ℕ → ℕ → Session × Saved
  unfolding save_file
  save_mapped s none end = (s, failed)
  save_mapped s (some p) end =
      let total = if ltb s.ctx.bufsize end then s.ctx.bufsize else end in
      if total == 0 then (s, nothing) else save_file s (k.memory p) total

  unfoldable pub hwt_ctx_snapshot_buffer : Session → ℤ → ℕ → Session × Saved
  unfolding save_mapped
  hwt_ctx_snapshot_buffer s last_page last_offset =
      if ltb_ℤ last_page (pos 0)
      then (s, nothing)
      else let (s', p) = hwt_ctx_map_buffer k s in save_mapped s' p (extent last_page last_offset)

  -- The part of snapshot_and_decode() after the mapping of the buffer.
  unfoldable pub snapshot_mapped :
      (ℕ → Option DecodeProbeResult) → Session → Option ℕ → ℕ → Bool → Session × Saved
  snapshot_mapped probe s none base_len have_sections = (s, failed)
  snapshot_mapped probe s (some p) base_len have_sections =
      let actual_len = choose_snapshot_len probe (some (k.memory p)) base_len have_sections in
      if actual_len == 0
      then (s, nothing)
      else hwt_ctx_snapshot_buffer s (to_int (actual_len / page_size)) (actual_len % page_size)

  -- snapshot_and_decode() for the primary thread: what it decodes is what it saves.
  unfoldable pub snapshot_primary :
      (ℕ → Option DecodeProbeResult) → TraceState → Session → Bool → Session × Saved
  unfolding snapshot_mapped
  snapshot_primary probe ts s have_sections =
      let (s', bufptr) = hwt_ctx_bufptr_get k s in
      let (s'', p) = hwt_ctx_map_buffer k s' in
      snapshot_mapped probe s'' p (known_end ts s.ctx.bufsize bufptr) have_sections

-- if (tc->trace_buf == NULL) tc->trace_buf = mmap(...);
unfoldable pub map_thread : Kernel → ℕ → Option ℕ → Option ℕ → Os → Option ℕ × Os
map_thread k bufsize fd (some p) os = (some p, os)
map_thread k bufsize fd none os = let p = k.mmap os bufsize fd in (p, mapped os p)

-- for (i = 0; i < ctx->nthreads; i++), as far as the buffers are concerned.
unfoldable pub map_threads : Kernel → ℕ → List HwtThreadCtx → Os → List HwtThreadCtx × Os
map_threads k bufsize [] os = ([], os)
map_threads k bufsize (t ∷ ts) os =
    let (p, os') = map_thread k bufsize t.fd t.trace_buf os in
    let (ts', os'') = map_threads k bufsize ts os' in (record t { trace_buf = p } ∷ ts', os'')

-- ===== src/Finalize.antt =====
-- Sources/bsdtrace/trace.c: the end of a trace. snapshot_and_decode() with the files of the further
-- threads, and trace_finalize().
pub mod Shots
pub mod Files
pub mod Whole
pub mod Released
use observable_bsd.Prelude.{
  ℕ, zero, suc, ◌+◌, ◌-◌, ◌/◌, ◌%◌, Bool, true, false, not, ◌&&◌, ◌||◌, Option, none, some, List,
  [], ◌∷◌, ◌++◌, Bytes, codes, bytes_eq, is_empty, ltb, ◌==◌, if◌then◌else◌, length, take, drop, ℤ,
  pos, negsuc,
}
use observable_bsd.Types.{PtImageInfo, page_size, maxpathlen}
use observable_bsd.Stdio.{print_int}
use observable_bsd.Decode.{DecodeProbeResult}
use observable_bsd.Meta.{MetaWriter, meta_writer_header, meta_writer_timing, meta_writer_sections}
use observable_bsd.Trace.{TraceState}
use observable_bsd.Snapshot.{extent, known_end, choose_snapshot_len}
use observable_bsd.Hwt.Process.{Os, bufptr_get, opened_fd, close, ioctl}
use observable_bsd.Hwt.{HwtThreadCtx, HwtCtx, Session, Kernel}
use observable_bsd.Hwt.Buffer.{Saved, nothing, failed, saved, stuck, write_loop, map_thread}
use observable_bsd.Poll.{derive_meta_path}

-- What the system answers at the end of a trace: decode_pt_probe() on the buffer of the primary
-- thread and on that of another one, write() to their files, calloc() for a thread's sidecar,
-- realloc() for the records of a poll, and kern.base_address; and the fuel of the loops over write().
pub record Answers : Type 0 where
  pub primary_probe : List PtImageInfo → ℕ → Option DecodeProbeResult
  pub primary_write : ℕ → ℕ → Option ℕ
  pub grown : Os → ℕ → Bool
  pub kbase : Option ℕ
  pub probe : ℤ → List PtImageInfo → ℕ → Option DecodeProbeResult
  pub write : ℤ → ℕ → ℕ → Option ℕ
  pub memory : ℤ → Bool
  pub fuel : ℕ

-- The files of a thread's snapshot: the trace, and the sidecar, whose writer is none where it could
-- not be opened.
pub record ThreadFile : Type 0 where
  pub thread_id : ℤ
  pub path : Bytes
  pub bytes : Bytes
  pub meta_path : Bytes
  pub meta : MetaWriter

-- `pt_output` up to `baselen`.
unfoldable pub stem : Bytes → Bytes
stem pt_output =
    if ltb 3 (length pt_output) && bytes_eq (drop (length pt_output - 3) pt_output) (codes ".pt")
    then take (length pt_output - 3) pt_output
    else pt_output

-- `tpath`
unfoldable pub thread_path : Bytes → ℤ → Bytes
unfolding stem
thread_path pt_output tid =
    take (maxpathlen - 1) (stem pt_output ++ (codes "-tid" ++ (print_int tid ++ codes ".pt")))

module _ (k : Kernel) (a : Answers) (pt_output : Bytes) (ctx : HwtCtx) (ts : TraceState) where
  opened_meta : ℤ → Os → Option ℕ → Os × MetaWriter
  opened_meta tid os none = (os, none)
  opened_meta tid os (some fd) = (
    close fd (opened_fd os (some fd)),
    meta_writer_sections
        (meta_writer_timing (meta_writer_header (some []) ctx.pid tid) (ctx.mtc_freq % 256)
          (ctx.cyc_thresh % 256))
        ts.sections,
  )

  -- From meta_writer_open() to meta_writer_close().
  unfoldable pub thread_meta : ℤ → Os → Os × MetaWriter
  unfolding opened_meta
  thread_meta tid os = if a.memory tid then opened_meta tid os (k.create os) else (os, none)

  -- From the test toff == tlen on. None: the fuel did not suffice.
  unfoldable pub after_write : ℤ → Os → Option (Option Bytes) → Option (Os × Option ThreadFile)
  unfolding thread_meta
  after_write tid os none = none
  after_write tid os (some none) = some (os, none)
  after_write tid os (some (some file)) =
      let (os', meta) = thread_meta tid os in
      let path = thread_path pt_output tid in
      some (
        os',
        some (record {
          thread_id = tid;
          path = path;
          bytes = file;
          meta_path = derive_meta_path path maxpathlen;
          meta = meta;
        }),
      )

  -- From the open() of the file on.
  unfoldable pub write_thread : ℤ → Os → Bytes → ℕ → Option ℕ → Option (Os × Option ThreadFile)
  unfolding after_write
  write_thread tid os buf tlen none = some (os, none)
  write_thread tid os buf tlen (some fd) =
      after_write tid (close fd (opened_fd os (some fd)))
        (write_loop a.fuel (a.write tid) buf 0 tlen [])

  -- `tlen`, of a buffer whose position the kernel gives as `bufptr`.
  unfoldable pub thread_len : ℤ → Bytes → Option (ℤ × ℕ) → ℕ
  thread_len tid buf bufptr =
      let stop : ℕ = elim bufptr [ none ↦ 0 | some (page, offset) ↦ extent page offset ] in
      choose_snapshot_len (a.probe tid ts.sections) (some buf)
        (if ltb ctx.bufsize stop then 0 else stop) (not (is_empty ts.sections))

  unfoldable pub snapshot_mapped_thread :
      ℤ → Os → Option (ℤ × ℕ) → Option ℕ → Option (Os × Option ThreadFile)
  unfolding write_thread thread_len
  snapshot_mapped_thread tid os bufptr none = some (os, none)
  snapshot_mapped_thread tid os bufptr (some p) =
      let tlen = thread_len tid (k.memory p) bufptr in
      if tlen == 0 then some (os, none) else write_thread tid os (k.memory p) tlen (k.create os)

  -- A round of the loop: the thread's buffer, the process and the files, none where it continues
  -- with the next thread before they are written.
  unfoldable pub snapshot_thread : HwtThreadCtx → Os → Option ℕ × Option (Os × Option ThreadFile)
  unfolding snapshot_mapped_thread
  snapshot_thread t os =
      let bufptr = k.bufptr os t.fd in
      let (p, os') = map_thread k ctx.bufsize t.fd t.trace_buf (ioctl t.fd bufptr_get os) in
      (p, snapshot_mapped_thread t.thread_id os' bufptr p)

  unfoldable pub add_file : Option ThreadFile → List ThreadFile → List ThreadFile
  add_file none fs = fs
  add_file (some f) fs = f ∷ fs

  -- for (i = 0; i < ctx->nthreads; i++)
  unfoldable pub snapshot_threads :
      List HwtThreadCtx → Os → Option (List HwtThreadCtx × Os × List ThreadFile)
  unfolding snapshot_thread add_file
  snapshot_threads [] os = some ([], os, [])
  snapshot_threads (t ∷ ts) os =
      let (p, r) = snapshot_thread t os in
      elim r [
        | none ↦ none
        | some (os', f) ↦ elim (snapshot_threads ts os') [
          | none ↦ none
          | some (ts', os'', fs) ↦ some (record t { trace_buf = p } ∷ ts', os'', add_file f fs)
        ]
      ]

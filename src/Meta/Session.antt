-- ===== src/Meta/Session.antt =====
-- A whole session of the sidecar: a trace writes it, and an offline decode reads it.
use observable_bsd.Prelude.{
  ℕ, ◌≡◌, refl, ap, ◌∙◌, inl, inr, Bool, true, ◌&&◌, Option, none, some, List, [], ◌∷◌, ◌++◌, Bytes,
  ◌==◌, ℤ, Bool-cases,
}
use observable_bsd.Types.{PtImageInfo, BsdtraceRecord}
use observable_bsd.Json.Escape.{All}
use observable_bsd.Stdio.{read_lines}
use observable_bsd.Stdio.Lines.{end_lines, concat, Lines, read_lines-concat}
use observable_bsd.Meta.{
  MetaWriter, meta_writer_open, header_line, timing_line, meta_writer_header, meta_writer_timing,
  Reader, read_loop, meta_read_sections,
}
use observable_bsd.Meta.Line.{scan_line-header_line, scan_line-timing_line}
use observable_bsd.Meta.Fits.{header_line-IsLine, timing_line-IsLine, record_lines-Lines}
use observable_bsd.Meta.Offline.{IsPlainRecord, read_line_skips, Loaded, Loaded-cons, records_load}
use observable_bsd.Trace.{trace_state_init, process_all}
use observable_bsd.Trace.Sections.{
  sections_after, AllGrown, process_all-sections, process_all-meta, record_lines,
}

-- The bytes of the file once it is closed; none where there is no writer.
abbrev pub sidecar : MetaWriter → Option Bytes
sidecar none = none
sidecar (some ls) = some (concat (end_lines ls))

-- What cmd_trace() writes before it takes records.
abbrev pub opened : ℤ → ℤ → ℕ → ℕ → MetaWriter
opened pid tid mtc_freq cyc_thresh =
    meta_writer_timing (meta_writer_header (meta_writer_open true true) pid tid) mtc_freq cyc_thresh

-- A head of lines that the reader's buffer holds and that store nothing.
pub record IsHead (ls : List Bytes) : Type 0 where
  lines : (rest : List Bytes) → Lines 4096 rest → Lines 4096 (ls ++ rest)
  loads :
      (rest : List Bytes) (rd : Reader) (ss : List PtImageInfo)
      → ((rd1 : Reader) → rd1.sections ≡ rd.sections → Loaded rd1 (end_lines rest) ss)
      → Loaded rd (end_lines (ls ++ rest)) ss

header_IsHead : (pid tid : ℤ) → IsHead (header_line pid tid ∷ [])
header_IsHead pid tid = record {
  lines = λ rest h. let l = header_line-IsLine pid tid in (l.0, l.1, h);
  loads = λ rest rd ss k.
      Loaded-cons rd _ (end_lines rest) rd.sections ss
        (read_line_skips rd _ (scan_line-header_line pid tid)) k;
}

both_IsHead :
    (pid tid : ℤ) (mtc_freq cyc_thresh : ℕ)
    → IsHead (header_line pid tid ∷ timing_line mtc_freq cyc_thresh ∷ [])
both_IsHead pid tid mtc_freq cyc_thresh = record {
  lines = λ rest h.
      let l = header_line-IsLine pid tid in
      let t = timing_line-IsLine mtc_freq cyc_thresh in (l.0, l.1, (t.0, t.1, h));
  loads = λ rest rd ss k.
      Loaded-cons rd _ _ rd.sections ss (read_line_skips rd _ (scan_line-header_line pid tid))
        (λ rd1 e.
          Loaded-cons rd1 _ (end_lines rest) rd1.sections ss
            (read_line_skips rd1 _ (scan_line-timing_line mtc_freq cyc_thresh))
            (λ rd2 e2. k rd2 (e2 ∙ e)));
}

pub opened-IsHead :
    (pid tid : ℤ) (mtc_freq cyc_thresh : ℕ)
    → (ls : List Bytes) × (opened pid tid mtc_freq cyc_thresh ≡ some ls) × IsHead ls
unfolding meta_writer_timing meta_writer_header
opened-IsHead pid tid mtc_freq cyc_thresh = elim (Bool-cases (mtc_freq == 0 && cyc_thresh == 0)) [
  | inl e ↦ (_, rw e refl, header_IsHead pid tid)
  | inr e ↦ (_, rw e refl, both_IsHead pid tid mtc_freq cyc_thresh)
]

empty_reader : Reader
empty_reader = record { sections = []; capacity = 0 }

read_loop_read :
    (grown : ℕ → Bool) (file : Bytes) (rd : Reader)
    → read_loop empty_reader grown (read_lines 4096 file) ≡ some rd
    → meta_read_sections grown (some file) ≡ some rd.sections
unfolding meta_read_sections empty_reader
read_loop_read grown file rd e = rw (meta_read_sections, e) refl

pub session_read :
    (grown : ℕ → Bool) (ls : List Bytes) (rs : List BsdtraceRecord)
    → AllGrown grown
    → All IsPlainRecord rs
    → IsHead ls
    → meta_read_sections grown (sidecar (some (ls ++ record_lines rs)))
      ≡ some (sections_after [] rs)
unfolding Loaded
session_read grown ls rs g h head =
    let (rd, e, s) =
      head.loads (record_lines rs) empty_reader (sections_after [] rs)
        (λ rd1 e1. records_load rs rd1 [] (e1 ∙ unfold empty_reader in refl) h) grown g in
    read_loop_read grown (concat (end_lines (ls ++ record_lines rs))) rd
      (rw (read_lines-concat 4096 (ls ++ record_lines rs) (head.lines _ (record_lines-Lines rs))) e)
    ∙ ap some s

-- A trace opens a sidecar, writes the header and the timing, and takes any records, while there is
-- memory; the records have plain paths (no quote, backslash or control character, at most 1017
-- bytes) and 64-bit addresses. Then reading the sidecar, while there is memory, gives exactly the
-- sections that the trace holds in the end.
pub meta_read_sections-process_all :
    (grown grown' : ℕ → Bool) (pid tid : ℤ) (mtc_freq cyc_thresh : ℕ) (rs : List BsdtraceRecord)
    → AllGrown grown
    → AllGrown grown'
    → All IsPlainRecord rs
    → meta_read_sections grown' (
        sidecar (process_all (trace_state_init (opened pid tid mtc_freq cyc_thresh)) grown rs).meta)
      ≡ some (process_all (trace_state_init (opened pid tid mtc_freq cyc_thresh)) grown rs).sections
unfolding trace_state_init
meta_read_sections-process_all grown grown' pid tid mtc_freq cyc_thresh rs g g' h =
    let (ls, e, head) = opened-IsHead pid tid mtc_freq cyc_thresh in
    let ts = trace_state_init (opened pid tid mtc_freq cyc_thresh) in
    rw (process_all-meta ts grown rs ls e, process_all-sections ts grown rs g)
      (session_read grown' ls rs g' h head)

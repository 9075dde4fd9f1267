-- ===== src/Meta/Fits.antt =====
-- Every line of the sidecar fits the buffer of the reader.
use observable_bsd.Prelude.{
  ℕ, ◌+◌, ◌≤◌, Option, none, some, List, [], ◌∷◌, ◌++◌, Bytes, codes, length, arith, ℤ,
}
use observable_bsd.Types.{
  RecordType, mmap, munmap, buffer, overflow, other, executable, kernel, thread_create,
  thread_set_name, BsdtraceRecord, maxpathlen,
}
use observable_bsd.Json.{json_escape}
use observable_bsd.Json.Escape.{length-json_escape}
use observable_bsd.Json.OneLine.{NoNewline-json_escape}
use observable_bsd.Stdio.Print.{Fits, Fits-append, Fits-print_hex, Fits-print_int, Fits-print_dec}
use observable_bsd.Stdio.Lines.{Lines, NoNewline}
use observable_bsd.Meta.{image_line, thread_line, header_line, timing_line, record_line}
use observable_bsd.Trace.Sections.{record_lines, lines_of}

-- A piece of text that is given.
text : (s : Bytes) → NoNewline s → Fits s (length s)
text s h = record { no_newline = h; short = omega arith }

Fits-json_escape : (p : Bytes) → Fits (json_escape maxpathlen p) 1024
Fits-json_escape p = record {
  no_newline = NoNewline-json_escape maxpathlen p;
  short = let h = length-json_escape maxpathlen p (omega arith) in omega arith;
}

-- A line of the sidecar.
abbrev pub IsLine : Bytes → Type 0
IsLine l = NoNewline l × (length l + 2 ≤ 4096)

image_line-IsLine :
    (type path : Bytes) (addr base : ℕ) → Fits type 31 → IsLine (image_line type path addr base)
unfolding image_line
image_line-IsLine type path addr base h =
    let f = Fits-append _ _ (text (codes "{\"type\":\"") (omega arith)) (
      Fits-append _ _ h (
        Fits-append _ _ (text (codes "\",\"path\":\"") (omega arith)) (
          Fits-append _ _ (Fits-json_escape path) (
            Fits-append _ _ (text (codes "\",\"addr\":\"0x") (omega arith)) (
              Fits-append _ _ (Fits-print_hex addr) (
                Fits-append _ _ (text (codes "\",\"base\":\"0x") (omega arith)) (
                  Fits-append _ _ (Fits-print_hex base) (text (codes "\"}") (omega arith))))))))) in
    let l = f.short in (f.no_newline, omega arith)

thread_line-IsLine : (type : Bytes) (tid : ℤ) → Fits type 31 → IsLine (thread_line type tid)
unfolding thread_line
thread_line-IsLine type tid h =
    let f = Fits-append _ _ (text (codes "{\"type\":\"") (omega arith)) (
      Fits-append _ _ h (
        Fits-append _ _ (text (codes "\",\"tid\":") (omega arith))
          (Fits-append _ _ (Fits-print_int tid) (text (codes "}") (omega arith))))) in
    let l = f.short in (f.no_newline, omega arith)

-- The two lines at the head of the file are short.
pub header_line-Fits : (pid tid : ℤ) → Fits (header_line pid tid) 254
unfolding header_line
header_line-Fits pid tid =
    let f = Fits-append _ _ (text (codes "{\"type\":\"header\",\"pid\":") (omega arith)) (
      Fits-append _ _ (Fits-print_int pid) (
        Fits-append _ _ (text (codes ",\"tid\":") (omega arith))
          (Fits-append _ _ (Fits-print_int tid) (text (codes "}") (omega arith))))) in
    let l = f.short in record { no_newline = f.no_newline; short = omega arith }

pub timing_line-Fits : (mtc_freq cyc_thresh : ℕ) → Fits (timing_line mtc_freq cyc_thresh) 254
unfolding timing_line
timing_line-Fits mtc_freq cyc_thresh =
    let f = Fits-append _ _ (text (codes "{\"type\":\"timing\",\"mtc_freq\":") (omega arith)) (
      Fits-append _ _ (Fits-print_dec mtc_freq) (
        Fits-append _ _ (text (codes ",\"cyc_thresh\":") (omega arith))
          (Fits-append _ _ (Fits-print_dec cyc_thresh) (text (codes "}") (omega arith))))) in
    let l = f.short in record { no_newline = f.no_newline; short = omega arith }

pub header_line-IsLine : (pid tid : ℤ) → IsLine (header_line pid tid)
header_line-IsLine pid tid =
    let f = header_line-Fits pid tid in let l = f.short in (f.no_newline, omega arith)

pub timing_line-IsLine : (mtc_freq cyc_thresh : ℕ) → IsLine (timing_line mtc_freq cyc_thresh)
timing_line-IsLine mtc_freq cyc_thresh =
    let f = timing_line-Fits mtc_freq cyc_thresh in let l = f.short in (f.no_newline, omega arith)

abbrev IsLine? : Option Bytes → Type 0
IsLine? none = Unit
IsLine? (some l) = IsLine l

record_line-IsLine : (type : RecordType) (r : BsdtraceRecord) → IsLine? (record_line type r)
unfolding record_line
record_line-IsLine executable r =
    image_line-IsLine (codes "exec") r.fullpath r.addr r.baseaddr (omega arith)
record_line-IsLine mmap r =
    image_line-IsLine (codes "mmap") r.fullpath r.addr r.baseaddr (omega arith)
record_line-IsLine kernel r =
    image_line-IsLine (codes "kernel") r.fullpath r.addr r.baseaddr (omega arith)
record_line-IsLine thread_create r =
    thread_line-IsLine (codes "thread_create") r.thread_id (omega arith)
record_line-IsLine thread_set_name r =
    thread_line-IsLine (codes "thread_set_name") r.thread_id (omega arith)
record_line-IsLine munmap r = tt
record_line-IsLine buffer r = tt
record_line-IsLine overflow r = tt
record_line-IsLine (other n) r = tt

lines_of-Lines :
    (o : Option Bytes) (ls : List Bytes) → IsLine? o → Lines 4096 ls → Lines 4096 (lines_of o ++ ls)
lines_of-Lines none ls h k = k
lines_of-Lines (some l) ls h k = (h.0, h.1, k)

-- Whatever the records, the reader's buffer holds each of their lines.
pub record_lines-Lines : (rs : List BsdtraceRecord) → Lines 4096 (record_lines rs)
unfolding record_lines
record_lines-Lines [] = tt
record_lines-Lines (r ∷ rs) =
    lines_of-Lines (record_line r.type r) (record_lines rs) (record_line-IsLine r.type r)
      (record_lines-Lines rs)

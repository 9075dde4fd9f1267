-- ===== src/Meta/Offline.antt =====
-- The sections that an offline decode reads off the sidecar are those that the trace itself had.
use observable_bsd.Prelude.{
  ℕ, ◌+◌, ◌*◌, ◌≤◌, ◌<◌, ◌≡◌, refl, sym, ap, ◌∙◌, inl, inr, Bool, true, false, not, Option, none,
  some, List, [], ◌∷◌, ◌++◌, Bytes, codes, bytes_eq, strlcpy, strlcpy_fits, leb, ◌==◌,
  if◌then◌else◌, length, arith, Bool-cases,
}
use observable_bsd.Types.{
  RecordType, mmap, munmap, buffer, overflow, other, executable, kernel, thread_create,
  thread_set_name, is_executable, PtImageInfo, BsdtraceRecord, maxpathlen, u64,
}
use observable_bsd.Json.Escape.{All, IsPlain, json_escape-plain}
use observable_bsd.Stdio.Quoted.{NoQuote}
use observable_bsd.Stdio.Lines.{end_line, end_lines}
use observable_bsd.Meta.{
  image_line, thread_line, record_line, MetaLine, scan_line, Reader, line_type, reserve,
  store_section, drop_old, read_line, read_loop,
}
use observable_bsd.Meta.Line.{scan_line-image_line, scan_line-no_path, scan_line-thread_line}
use observable_bsd.Trace.Sections.{
  is_image, next_sections, sections_after, AllGrown, record_lines, lines_of,
}

-- What a path needs so that it is written as it is: no quote, backslash or control character, and
-- no more bytes than the writer's buffer lets through.
abbrev pub IsPlainPath : Bytes → Type 0
IsPlainPath p = All IsPlain p × (length p ≤ 1017)

-- The record comes from the kernel's interface: addresses have 64 bits; and its path is plain.
pub record IsPlainRecord (r : BsdtraceRecord) : Type 0 where
  pub path : IsPlainPath r.fullpath
  pub addr : r.addr < u64
  pub baseaddr : r.baseaddr < u64

plain-NoQuote : (p : Bytes) → All IsPlain p → NoQuote p
plain-NoQuote [] h = tt
plain-NoQuote (c ∷ p) h = (h.0.0, plain-NoQuote p h.1)

reserve_grown :
    (r : Reader) → (r' : Reader) × (reserve r true ≡ some r') × (r'.sections ≡ r.sections)
unfolding reserve
reserve_grown r = elim (Bool-cases (not (leb r.capacity (length r.sections)))) [
  | inl room ↦ (r, rw room, refl)
  | inr full ↦
      (record r { capacity = if r.capacity == 0 then 16 else r.capacity * 2 }, rw full, refl)
]

-- A line that scans, of one of the three types, stores a section.
pub Stored : Reader → Bytes → List PtImageInfo → Type 0
Stored r line ss = (r' : Reader) × (read_line r true line ≡ some r') × (r'.sections ≡ ss)

read_line_stores :
    (r : Reader) (line : Bytes) (m : MetaLine) (type : RecordType)
    → scan_line line ≡ some m
    → line_type m.type ≡ some type
    → Stored r line (
        (drop_old r type).sections
        ++ record {
          path = strlcpy m.path maxpathlen;
          load_addr = m.addr;
          base_addr = m.base;
          type = type;
        }
          ∷ [])
unfolding Stored read_line store_section
read_line_stores r line m type e t =
    let (r', g, s) = reserve_grown (drop_old r type) in
    (store_section r' m type, ground arith, ground arith)

pub read_line_skips : (r : Reader) (line : Bytes) → scan_line line ≡ none → Stored r line r.sections
unfolding Stored read_line
read_line_skips r line e = (r, ground arith, refl)

drop_old-sections :
    (r : Reader) (type : RecordType)
    → (drop_old r type).sections ≡ (if is_executable type then [] else r.sections)
unfolding drop_old
drop_old-sections r type = ground arith

fits : (p : Bytes) → IsPlainPath p → strlcpy p maxpathlen ≡ p
fits p h = strlcpy_fits p maxpathlen (let l = h.1 in omega arith)

read_image :
    (rd : Reader) (t : ℕ) (name : Bytes) (r : BsdtraceRecord)
    → NoQuote (t ∷ name)
    → length (t ∷ name) ≤ 31
    → line_type (t ∷ name) ≡ some r.type
    → is_image r.type ≡ true
    → IsPlainRecord r
    → Stored rd
        (end_line (image_line (t ∷ name) r.fullpath r.addr r.baseaddr))
        (next_sections rd.sections r)
read_image rd t name r nt lt e im plain = go r.fullpath refl
  where
    go :
        (p : Bytes)
        → r.fullpath ≡ p
        → Stored rd
            (end_line (image_line (t ∷ name) r.fullpath r.addr r.baseaddr))
            (next_sections rd.sections r)
    go [] q =
        let skipped : next_sections rd.sections r ≡ rd.sections =
          unfold next_sections in rw (im, q) refl in
        rw (skipped, q) (read_line_skips rd _ (scan_line-no_path t name r.addr r.baseaddr nt lt))
    go (c ∷ p) q =
        let pp : IsPlainPath (c ∷ p) = rw q at (plain.path) in
        let l = pp.1 in
        let same : strlcpy r.fullpath maxpathlen ≡ c ∷ p = rw q (fits (c ∷ p) pp) in
        let added : next_sections rd.sections r
            ≡ (drop_old rd r.type).sections
              ++ record {
                path = strlcpy (c ∷ p) maxpathlen;
                load_addr = r.addr;
                base_addr = r.baseaddr;
                type = r.type;
              }
                ∷ [] =
          unfold next_sections in rw (drop_old-sections rd r.type, im, q) refl in
        rw (added, q)
          (read_line_stores rd _
            (record { type = t ∷ name; path = c ∷ p; addr = r.addr; base = r.baseaddr }) r.type
            (scan_line-image_line t name c p r.addr r.baseaddr nt lt (plain-NoQuote (c ∷ p) pp.0)
              (omega arith) (json_escape-plain maxpathlen (c ∷ p) pp.0 (omega arith)) plain.addr
              plain.baseaddr)
            e)

-- A record's line, if it has one, does to the reader what the record does to the trace.
RecordReads : Reader → BsdtraceRecord → Option Bytes → Type 0
RecordReads rd r none = next_sections rd.sections r ≡ rd.sections
RecordReads rd r (some l) = Stored rd (end_line l) (next_sections rd.sections r)

other_record :
    (ss : List PtImageInfo) (r : BsdtraceRecord) → is_image r.type ≡ false → next_sections ss r ≡ ss
unfolding next_sections
other_record ss r h = rw h

read_thread :
    (rd : Reader) (t : ℕ) (name : Bytes) (r : BsdtraceRecord)
    → NoQuote (t ∷ name)
    → length (t ∷ name) ≤ 31
    → is_image r.type ≡ false
    → Stored rd (end_line (thread_line (t ∷ name) r.thread_id)) (next_sections rd.sections r)
read_thread rd t name r n l h =
    rw (other_record rd.sections r h)
      (read_line_skips rd _ (scan_line-thread_line t name r.thread_id n l))

record_reads :
    (type : RecordType) (rd : Reader) (r : BsdtraceRecord)
    → r.type ≡ type
    → IsPlainRecord r
    → RecordReads rd r (record_line type r)
unfolding RecordReads record_line line_type bytes_eq
record_reads executable rd r e p =
    read_image rd b'e' (codes "xec") r (omega arith) (omega arith) (sym (ap some e)) (ap is_image e)
      p
record_reads mmap rd r e p =
    read_image rd b'm' (codes "map") r (omega arith) (omega arith) (sym (ap some e)) (ap is_image e)
      p
record_reads kernel rd r e p =
    read_image rd b'k' (codes "ernel") r (omega arith) (omega arith) (sym (ap some e))
      (ap is_image e) p
record_reads thread_create rd r e p =
    read_thread rd b't' (codes "hread_create") r (omega arith) (omega arith) (ap is_image e)
record_reads thread_set_name rd r e p =
    read_thread rd b't' (codes "hread_set_name") r (omega arith) (omega arith) (ap is_image e)
record_reads munmap rd r e p = other_record rd.sections r (ap is_image e)
record_reads buffer rd r e p = other_record rd.sections r (ap is_image e)
record_reads overflow rd r e p = other_record rd.sections r (ap is_image e)
record_reads (other n) rd r e p = other_record rd.sections r (ap is_image e)

-- The loop over the lines ends with these sections.
unfoldable pub Loaded : Reader → List Bytes → List PtImageInfo → Type 0
Loaded rd lines ss =
    (grown : ℕ → Bool)
    → AllGrown grown
    → (rd' : Reader) × (read_loop rd grown lines ≡ some rd') × (rd'.sections ≡ ss)

read_loop_step :
    (rd rd1 : Reader) (grown : ℕ → Bool) (line : Bytes) (lines : List Bytes)
    → grown 0 ≡ true
    → read_line rd true line ≡ some rd1
    → read_loop rd grown (line ∷ lines) ≡ read_loop rd1 (λ k. grown (k + 1)) lines
unfolding read_loop
read_loop_step rd rd1 grown line lines g e = rw (read_loop, g, e)

pub Loaded-cons :
    (rd : Reader) (line : Bytes) (lines : List Bytes) (ss ts : List PtImageInfo)
    → Stored rd line ss
    → ((rd1 : Reader) → rd1.sections ≡ ss → Loaded rd1 lines ts)
    → Loaded rd (line ∷ lines) ts
unfolding Loaded Stored
Loaded-cons rd line lines ss ts (rd1, e, s) rest grown h =
    let (rd2, e2, s2) = rest rd1 s (λ k. grown (k + 1)) (λ k. h (k + 1)) in
    (rd2, read_loop_step rd rd1 grown line lines (h 0) e ∙ e2, s2)

record_load :
    (r : BsdtraceRecord) (lines : List Bytes) (rd : Reader) (ts : List PtImageInfo)
    (o : Option Bytes)
    → RecordReads rd r o
    → ((rd1 : Reader)
        → rd1.sections ≡ next_sections rd.sections r
        → Loaded rd1 (end_lines lines) ts)
    → Loaded rd (end_lines (lines_of o ++ lines)) ts
unfolding RecordReads
record_load r lines rd ts none q rest = rest rd (sym q)
record_load r lines rd ts (some l) q rest =
    Loaded-cons rd (end_line l) (end_lines lines) _ ts q rest

pub records_load :
    (rs : List BsdtraceRecord) (rd : Reader) (ss : List PtImageInfo)
    → rd.sections ≡ ss
    → All IsPlainRecord rs
    → Loaded rd (end_lines (record_lines rs)) (sections_after ss rs)
unfolding record_lines sections_after
records_load [] rd ss e h = unfold Loaded read_loop in λ grown g. (rd, refl, e)
records_load (r ∷ rs) rd ss e h =
    record_load r (record_lines rs) rd (sections_after (next_sections ss r) rs)
      (record_line r.type r) (record_reads r.type rd r refl h.0)
      (λ rd1 s. records_load rs rd1 (next_sections ss r) (rw (s, e) refl) h.1)

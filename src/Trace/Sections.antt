-- ===== src/Trace/Sections.antt =====
-- The image sections that a trace has collected, as a function of the records.
use observable_bsd.Prelude.{
  ℕ, ◌+◌, ◌≡◌, refl, ap, inl, inr, Bool, true, not, ◌&&◌, ◌||◌, Option, none, some, List, [], ◌∷◌,
  ◌++◌, append_assoc, append-nil, ◌∙◌, Bytes, strlcpy, is_empty, if◌then◌else◌, arith, Bool-cases,
}
use observable_bsd.Types.{
  RecordType, mmap, munmap, executable, kernel, thread_create, thread_set_name, buffer, overflow,
  other, is_kernel, is_executable, is_mmap, PtImageInfo, BsdtraceRecord, maxpathlen,
}
use observable_bsd.Meta.{MetaWriter, record_line, meta_writer_record}
use observable_bsd.Trace.{
  TraceState, trace_state_reset_sections, process_buffer, process_image, by_type,
  trace_state_process, process_all, trace_state_add_section,
}

-- A record of an image: EXECUTABLE, MMAP or KERNEL.
abbrev pub is_image : RecordType → Bool
is_image t = is_executable t || is_mmap t || is_kernel t

abbrev pub section_of : BsdtraceRecord → PtImageInfo
section_of r = record {
  path = strlcpy r.fullpath maxpathlen;
  load_addr = r.addr;
  base_addr = r.baseaddr;
  type = r.type;
}

-- The specification: an image record with a path adds a section, an EXECUTABLE one after it has
-- dropped all that came before.
unfoldable pub next_sections : List PtImageInfo → BsdtraceRecord → List PtImageInfo
next_sections ss r =
    if is_image r.type && not (is_empty r.fullpath)
    then (if is_executable r.type then [] else ss) ++ section_of r ∷ []
    else ss

unfoldable pub sections_after : List PtImageInfo → List BsdtraceRecord → List PtImageInfo
unfolding next_sections
sections_after ss [] = ss
sections_after ss (r ∷ rs) = sections_after (next_sections ss r) rs

abbrev pub AllGrown : (ℕ → Bool) → Type 0
AllGrown grown = (k : ℕ) → grown k ≡ true

pub add_section-sections :
    (ts : TraceState) (path : Bytes) (load base : ℕ) (type : RecordType)
    → (trace_state_add_section ts true path load base type).sections ≡ (
        if is_empty path
        then ts.sections
        else ts.sections
          ++ record {
            path = strlcpy path maxpathlen;
            load_addr = load;
            base_addr = base;
            type = type;
          }
            ∷ [])
unfolding trace_state_add_section
add_section-sections ts path load base type = ground arith

process_image-sections :
    (ts : TraceState) (r : BsdtraceRecord)
    → is_image r.type ≡ true
    → (process_image ts true r).sections ≡ next_sections ts.sections r
unfolding process_image next_sections
process_image-sections ts r h = elim (Bool-cases (is_empty r.fullpath)) [
  | inl e ↦ rw (e, h)
  | inr e ↦ elim (Bool-cases (is_executable r.type)) [
    | inl x ↦
        rw (e, h, x)
          (add_section-sections (trace_state_reset_sections ts) r.fullpath r.addr r.baseaddr r.type
            ∙ rw e (unfold trace_state_reset_sections in refl))
    | inr x ↦ rw (e, h, x) (add_section-sections ts r.fullpath r.addr r.baseaddr r.type ∙ rw e refl)
  ]
]

by_type-sections :
    (type : RecordType) (ts : TraceState) (r : BsdtraceRecord)
    → r.type ≡ type
    → (by_type type ts true r).sections ≡ next_sections ts.sections r
unfolding by_type process_buffer
by_type-sections executable ts r e = process_image-sections ts r (rw e)
by_type-sections mmap ts r e = process_image-sections ts r (rw e)
by_type-sections kernel ts r e = process_image-sections ts r (rw e)
by_type-sections buffer ts r e = unfold next_sections in rw e
by_type-sections overflow ts r e = unfold next_sections in rw e
by_type-sections munmap ts r e = unfold next_sections in rw e
by_type-sections thread_create ts r e = unfold next_sections in rw e
by_type-sections thread_set_name ts r e = unfold next_sections in rw e
by_type-sections (other n) ts r e = unfold next_sections in rw e

process-sections :
    (ts : TraceState) (r : BsdtraceRecord)
    → (trace_state_process ts true r).sections ≡ next_sections ts.sections r
unfolding trace_state_process
process-sections ts r = by_type-sections r.type _ r refl

-- While there is memory, the sections of a trace are those of the specification, record by record.
pub process_all-sections :
    (ts : TraceState) (grown : ℕ → Bool) (rs : List BsdtraceRecord)
    → AllGrown grown
    → (process_all ts grown rs).sections ≡ sections_after ts.sections rs
unfolding process_all sections_after
process_all-sections ts grown [] h = refl
process_all-sections ts grown (r ∷ rs) h =
    process_all-sections (trace_state_process ts (grown 0) r) (λ k. grown (k + 1)) rs
      (λ k. h (k + 1))
    ∙ ap (λ ss. sections_after ss rs) (rw (h 0) (process-sections ts r))

-- What the writer of a trace holds after the records.
abbrev pub lines_of : Option Bytes → List Bytes
lines_of none = []
lines_of (some l) = l ∷ []

unfoldable pub record_lines : List BsdtraceRecord → List Bytes
record_lines [] = []
record_lines (r ∷ rs) = lines_of (record_line r.type r) ++ record_lines rs

by_type-meta :
    (type : RecordType) (ts : TraceState) (grown : Bool) (r : BsdtraceRecord)
    → (by_type type ts grown r).meta ≡ ts.meta
unfolding by_type process_buffer process_image trace_state_add_section trace_state_reset_sections
by_type-meta type ts grown r = ground arith

writer_lines :
    (mw : MetaWriter) (r : BsdtraceRecord) (ls : List Bytes)
    → mw ≡ some ls
    → meta_writer_record mw r ≡ some (ls ++ lines_of (record_line r.type r))
unfolding meta_writer_record
writer_lines mw r ls h = ground (arith, append-nil ls)

process-meta :
    (ts : TraceState) (grown : Bool) (r : BsdtraceRecord) (ls : List Bytes)
    → ts.meta ≡ some ls
    → (trace_state_process ts grown r).meta ≡ some (ls ++ lines_of (record_line r.type r))
unfolding trace_state_process
process-meta ts grown r ls h = by_type-meta r.type _ grown r ∙ writer_lines ts.meta r ls h

-- A trace that has a writer appends the line of every record that has one.
pub process_all-meta :
    (ts : TraceState) (grown : ℕ → Bool) (rs : List BsdtraceRecord) (ls : List Bytes)
    → ts.meta ≡ some ls
    → (process_all ts grown rs).meta ≡ some (ls ++ record_lines rs)
unfolding process_all record_lines
process_all-meta ts grown [] ls h = rw (append-nil ls) h
process_all-meta ts grown (r ∷ rs) ls h =
    rw (← append_assoc ls (lines_of (record_line r.type r)) (record_lines rs)) (
      process_all-meta (trace_state_process ts (grown 0) r) (λ k. grown (k + 1)) rs _
        (process-meta ts (grown 0) r ls h))

-- ===== src/Meta/Seeded.antt =====
-- The session of a trace that attaches to a running process: the process's mappings are written
-- and added before any record.
use observable_bsd.Prelude.{
  ℕ, ◌+◌, ◌≡◌, refl, ap, sym, ◌∙◌, Bool, true, some, List, [], ◌∷◌, ◌++◌, append_assoc, append-nil,
  Bytes, codes, ℤ, pos, arith,
}
use observable_bsd.Types.{RecordType, mmap, PtImageInfo, BsdtraceRecord}
use observable_bsd.Json.Escape.{All}
use observable_bsd.Meta.{
  image_line, record_line, section_name, meta_writer_sections, meta_read_sections,
}
use observable_bsd.Meta.Offline.{IsPlainRecord}
use observable_bsd.Meta.Session.{sidecar, opened, opened-IsHead, session_read}
use observable_bsd.Trace.{
  TraceState, trace_state_init, process_all, trace_state_add_section, add_all,
  trace_state_seed_process_mmaps,
}
use observable_bsd.Trace.Sections.{
  next_sections, sections_after, AllGrown, process_all-sections, process_all-meta, record_lines,
  lines_of, add_section-sections,
}

-- A mapping as the record that would have reported it.
abbrev pub as_record : PtImageInfo → BsdtraceRecord
as_record s = record {
  type = mmap;
  fullpath = s.path;
  addr = s.load_addr;
  baseaddr = s.base_addr;
  buf_id = pos 0;
  curpage = pos 0;
  offset = 0;
  thread_id = pos 0;
}

abbrev pub as_records : List PtImageInfo → List BsdtraceRecord
as_records [] = []
as_records (s ∷ ss) = as_record s ∷ as_records ss

abbrev pub IsMapping : PtImageInfo → Type 0
IsMapping s = s.type ≡ mmap

sections_after-append :
    (rs qs : List BsdtraceRecord) (ss : List PtImageInfo)
    → sections_after ss (rs ++ qs) ≡ sections_after (sections_after ss rs) qs
unfolding sections_after
sections_after-append [] qs ss = refl
sections_after-append (r ∷ rs) qs ss = sections_after-append rs qs (next_sections ss r)

record_lines-append :
    (rs qs : List BsdtraceRecord) → record_lines (rs ++ qs) ≡ record_lines rs ++ record_lines qs
unfolding record_lines
record_lines-append [] qs = refl
record_lines-append (r ∷ rs) qs =
    rw
      (
        record_lines-append rs qs,
        append_assoc (lines_of (record_line r.type r)) (record_lines rs) (record_lines qs),
      )
      refl

All-append {ℓ κ} :
    {A : Type ℓ} (P : A → Type κ) (xs ys : List A) → All P xs → All P ys → All P (xs ++ ys)
All-append P [] ys h k = k
All-append P (x ∷ xs) ys h k = (h.0, All-append P xs ys h.1 k)

add_mapping-sections :
    (ts : TraceState) (s : PtImageInfo) (type : RecordType)
    → type ≡ mmap
    → (trace_state_add_section ts true s.path s.load_addr s.base_addr type).sections
      ≡ next_sections ts.sections (as_record s)
unfolding next_sections
add_mapping-sections ts s type h =
    add_section-sections ts s.path s.load_addr s.base_addr type ∙ rw h (ground arith)

add_all-sections :
    (ts : TraceState) (grown : ℕ → Bool) (ss : List PtImageInfo)
    → AllGrown grown
    → All IsMapping ss
    → (add_all ts grown ss).sections ≡ sections_after ts.sections (as_records ss)
unfolding add_all sections_after
add_all-sections ts grown [] g h = refl
add_all-sections ts grown (s ∷ ss) g h =
    add_all-sections (trace_state_add_section ts (grown 0) s.path s.load_addr s.base_addr s.type)
      (λ k. grown (k + 1)) ss (λ k. g (k + 1)) h.1
    ∙ ap (λ qs. sections_after qs (as_records ss)) (rw (g 0) (add_mapping-sections ts s s.type h.0))

add_section-meta :
    (ts : TraceState) (grown : Bool) (path : Bytes) (load base : ℕ) (type : RecordType)
    → (trace_state_add_section ts grown path load base type).meta ≡ ts.meta
unfolding trace_state_add_section
add_section-meta ts grown path load base type = ground arith

add_all-meta :
    (ts : TraceState) (grown : ℕ → Bool) (ss : List PtImageInfo)
    → (add_all ts grown ss).meta ≡ ts.meta
unfolding add_all
add_all-meta ts grown [] = refl
add_all-meta ts grown (s ∷ ss) =
    add_all-meta (trace_state_add_section ts (grown 0) s.path s.load_addr s.base_addr s.type)
      (λ k. grown (k + 1)) ss
    ∙ add_section-meta ts (grown 0) s.path s.load_addr s.base_addr s.type

mapping_name : (s : PtImageInfo) → IsMapping s → section_name s ≡ codes "mmap"
unfolding section_name
mapping_name s h = rw h refl

writer_sections :
    (ls : List Bytes) (ss : List PtImageInfo)
    → All IsMapping ss
    → meta_writer_sections (some ls) ss ≡ some (ls ++ record_lines (as_records ss))
unfolding meta_writer_sections record_lines record_line
writer_sections ls [] h = rw (append-nil ls) refl
writer_sections ls (s ∷ ss) h =
    let line = image_line (codes "mmap") s.path s.load_addr s.base_addr in
    rw (mapping_name s h.0, ← append_assoc ls (line ∷ []) (record_lines (as_records ss)))
      (writer_sections (ls ++ line ∷ []) ss h.1)

-- What a trace that has a writer becomes by the seeding.
seed :
    (ts : TraceState) (grown : ℕ → Bool) (ss : List PtImageInfo) (ls : List Bytes)
    → AllGrown grown
    → All IsMapping ss
    → ts.meta ≡ some ls
    → ((trace_state_seed_process_mmaps ts grown (some ss)).0.sections
        ≡ sections_after ts.sections (as_records ss))
      × ((trace_state_seed_process_mmaps ts grown (some ss)).0.meta
          ≡ some (ls ++ record_lines (as_records ss)))
unfolding trace_state_seed_process_mmaps
seed ts grown [] ls g h e =
    (unfold sections_after in refl, unfold record_lines in rw (append-nil ls) e)
seed ts grown (s ∷ ss) ls g h e = (
  add_all-sections _ grown (s ∷ ss) g h,
  add_all-meta _ grown (s ∷ ss) ∙ rw e (writer_sections ls (s ∷ ss) h),
)

-- The trace of an attach: the sidecar is opened, the mappings of the process are seeded, and the
-- records are taken.
abbrev pub attached :
    ℤ → ℤ → ℕ → ℕ → (ℕ → Bool) → (ℕ → Bool) → List PtImageInfo → List BsdtraceRecord → TraceState
attached pid tid mtc_freq cyc_thresh grown grown' ss rs =
    process_all
      (trace_state_seed_process_mmaps (trace_state_init (opened pid tid mtc_freq cyc_thresh)) grown
        (some ss)).0
      grown' rs

-- A trace opens a sidecar, writes the header and the timing, is seeded with any mappings of the
-- process, and takes any records, while there is memory; the mappings are of type MMAP, and they and
-- the records have plain paths (no quote, backslash or control character, at most 1017 bytes) and
-- 64-bit addresses. Then reading the sidecar, while there is memory, gives exactly the sections that
-- the trace holds in the end.
pub meta_read_sections-attached :
    (grown grown' read_grown : ℕ → Bool) (pid tid : ℤ) (mtc_freq cyc_thresh : ℕ)
    (ss : List PtImageInfo) (rs : List BsdtraceRecord)
    → AllGrown grown
    → AllGrown grown'
    → AllGrown read_grown
    → All IsMapping ss
    → All IsPlainRecord (as_records ss)
    → All IsPlainRecord rs
    → meta_read_sections read_grown
        (sidecar (attached pid tid mtc_freq cyc_thresh grown grown' ss rs).meta)
      ≡ some (attached pid tid mtc_freq cyc_thresh grown grown' ss rs).sections
meta_read_sections-attached grown grown' read_grown pid tid mtc_freq cyc_thresh ss rs g g' g2 m p
      q =
    let (ls, e, head) = opened-IsHead pid tid mtc_freq cyc_thresh in
    let ts = trace_state_init (opened pid tid mtc_freq cyc_thresh) in
    let (sections, written) = seed ts grown ss ls g m (unfold trace_state_init in e) in
    let ts1 = (trace_state_seed_process_mmaps ts grown (some ss)).0 in
    let read =
      session_read read_grown ls (as_records ss ++ rs) g2
        (All-append IsPlainRecord (as_records ss) rs p q) head in
    let lines : some (ls ++ record_lines (as_records ss ++ rs)) ≡ (process_all ts1 grown' rs).meta =
      ap (λ x. some (ls ++ x)) (record_lines-append (as_records ss) rs)
      ∙ ap some (sym (append_assoc ls (record_lines (as_records ss)) (record_lines rs)))
      ∙ sym (process_all-meta ts1 grown' rs _ written) in
    let last : sections_after [] (as_records ss ++ rs) ≡ (process_all ts1 grown' rs).sections =
      sections_after-append (as_records ss) rs []
      ∙ ap (λ x. sections_after x rs) (sym (sections ∙ unfold trace_state_init in refl))
      ∙ sym (process_all-sections ts1 grown' rs g') in
    rw (← lines, ← last) read

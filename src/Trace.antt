-- ===== src/Trace.antt =====
-- Sources/bsdtrace/trace.c: the accumulator of a trace, which takes the HWT records one by one.
-- Whether realloc() succeeds where it is called is an argument of each operation.
pub mod Sections
pub mod Pages
use observable_bsd.Prelude.{
  ℕ, zero, suc, ◌+◌, ◌*◌, Bool, true, false, not, ◌&&◌, ◌||◌, Option, none, some, List, [], ◌∷◌,
  ◌++◌, Bytes, codes, strlcpy, is_empty, leb, ◌==◌, if◌then◌else◌, length, ℤ, pos, negsuc, ltb_ℤ,
  leb_ℤ,
}
use observable_bsd.Types.{
  RecordType, mmap, executable, kernel, buffer, overflow, is_kernel, is_executable, PtImageInfo,
  BsdtraceRecord, maxpathlen,
}
use observable_bsd.Meta.{MetaWriter, meta_writer_record, meta_writer_sections}

-- struct trace_state; `nsections` is the length of `sections`.
pub record TraceState : Type 0 where
  pub sections : List PtImageInfo
  pub sections_cap : ℕ
  pub meta : MetaWriter
  pub last_buf_page : ℤ
  pub max_buf_page : ℤ
  pub last_buf_offset : ℕ
  pub buf_wrapped : Bool
  pub overflow_count : ℕ

unfoldable pub trace_state_init : MetaWriter → TraceState
trace_state_init meta = record {
  sections = [];
  sections_cap = 0;
  meta = meta;
  last_buf_page = negsuc 0;
  max_buf_page = negsuc 0;
  last_buf_offset = 0;
  buf_wrapped = false;
  overflow_count = 0;
}

-- The growth of the array in trace_state_add_section(); none when realloc() fails.
reserve : TraceState → Bool → Option TraceState
reserve ts grown =
    if not (leb ts.sections_cap (length ts.sections))
    then some ts
    else if grown
    then some
        (record ts { sections_cap = if ts.sections_cap == 0 then 32 else ts.sections_cap * 2 })
    else none

-- The callers drop the result code, so the state is all that is returned.
unfoldable pub trace_state_add_section : TraceState → Bool → Bytes → ℕ → ℕ → RecordType → TraceState
unfolding reserve
trace_state_add_section ts grown path load_addr base_addr type =
    if is_empty path then ts else elim (reserve ts grown) [
      | none ↦ ts
      | some r ↦ record r {
        sections =
            r.sections
            ++ record {
              path = strlcpy path maxpathlen;
              load_addr = load_addr;
              base_addr = base_addr;
              type = type;
            }
              ∷ [];
      }
    ]

unfoldable pub trace_state_reset_sections : TraceState → TraceState
trace_state_reset_sections ts = record ts { sections = []; sections_cap = 0 }

-- The first `if` of trace_state_process(), on BUFFER records.
process_buffer : TraceState → BsdtraceRecord → TraceState
process_buffer ts rec = record ts {
  buf_wrapped =
      if leb_ℤ (pos 0) ts.max_buf_page && ltb_ℤ rec.curpage ts.max_buf_page
      then true
      else ts.buf_wrapped;
  max_buf_page = if ltb_ℤ ts.max_buf_page rec.curpage then rec.curpage else ts.max_buf_page;
  last_buf_page = rec.curpage;
  last_buf_offset = rec.offset;
}

-- The last `if`, on records of an image; the path is tested before.
process_image : TraceState → Bool → BsdtraceRecord → TraceState
process_image ts grown rec =
    if is_empty rec.fullpath
    then ts
    else trace_state_add_section
        (if is_executable rec.type then trace_state_reset_sections ts else ts) grown rec.fullpath
        rec.addr rec.baseaddr rec.type

by_type : RecordType → TraceState → Bool → BsdtraceRecord → TraceState
by_type buffer ts grown rec = process_buffer ts rec
by_type overflow ts grown rec = record ts { overflow_count = ts.overflow_count + 1 }
by_type executable ts grown rec = process_image ts grown rec
by_type mmap ts grown rec = process_image ts grown rec
by_type kernel ts grown rec = process_image ts grown rec
by_type _ ts grown rec = ts

unfoldable pub trace_state_process : TraceState → Bool → BsdtraceRecord → TraceState
unfolding trace_state_add_section trace_state_reset_sections process_buffer process_image by_type
trace_state_process ts grown rec =
    by_type rec.type (record ts { meta = meta_writer_record ts.meta rec }) grown rec

-- The polling loops hand every record to trace_state_process(), in order.
unfoldable pub process_all : TraceState → (ℕ → Bool) → List BsdtraceRecord → TraceState
process_all ts grown [] = ts
process_all ts grown (r ∷ rs) =
    process_all (trace_state_process ts (grown 0) r) (λ k. grown (k + 1)) rs

-- for (i = 0; i < nsections; i++) of trace_state_seed_process_mmaps()
unfoldable pub add_all : TraceState → (ℕ → Bool) → List PtImageInfo → TraceState
add_all ts grown [] = ts
add_all ts grown (s ∷ ss) =
    add_all (trace_state_add_section ts (grown 0) s.path s.load_addr s.base_addr s.type)
      (λ k. grown (k + 1)) ss

-- `mmaps` is what process_exec_mmaps() found, or none where it failed.
unfoldable pub trace_state_seed_process_mmaps :
    TraceState → (ℕ → Bool) → Option (List PtImageInfo) → TraceState × Bool
unfolding add_all
trace_state_seed_process_mmaps ts grown none = (ts, false)
trace_state_seed_process_mmaps ts grown (some []) = (ts, true)
trace_state_seed_process_mmaps ts grown (some (s ∷ ss)) =
    (add_all (record ts { meta = meta_writer_sections ts.meta (s ∷ ss) }) grown (s ∷ ss), true)

has_kernel : List PtImageInfo → Bool
has_kernel [] = false
has_kernel (s ∷ ss) = is_kernel s.type || has_kernel ss

-- `kbase` is what sysctlbyname("kern.base_address") gives, or none where it fails.
unfoldable pub trace_state_ensure_kernel : TraceState → Bool → Option ℕ → TraceState
unfolding has_kernel
trace_state_ensure_kernel ts grown kbase = if has_kernel ts.sections then ts else elim kbase [
  | none ↦ ts
  | some base ↦ trace_state_add_section ts grown (codes "/boot/kernel/kernel") base 0 kernel
]

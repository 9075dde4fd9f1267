-- ===== src/Meta.antt =====
-- Sources/bsdtrace/meta.c: the .meta sidecar, written line by line during a trace and read for an
-- offline decode. A writer is the lines it has written, or none where the source has NULL (then
-- nothing is written); a file is its bytes.
pub mod Line
pub mod Fits
pub mod Offline
pub mod Session
pub mod Seeded
pub mod Readers
pub mod ReadBack
use observable_bsd.Prelude.{
  ℕ, zero, suc, ◌+◌, ◌-◌, ◌*◌, Bool, true, false, not, ◌&&◌, ◌||◌, Option, none, some, List, [],
  ◌∷◌, ◌++◌, Bytes, codes, bytes_eq, strlcpy, is_empty, ltb, leb, ◌==◌, if◌then◌else◌, length, ℤ,
}
use observable_bsd.Types.{
  RecordType, mmap, executable, kernel, thread_create, thread_set_name, is_executable, is_kernel,
  PtImageInfo, BsdtraceRecord, maxpathlen,
}
use observable_bsd.Json.{json_escape}
use observable_bsd.Stdio.{
  print_hex, print_dec, print_int, literal, scan_quoted, scan_hex, read_lines,
}

-- struct meta_writer *
abbrev pub MetaWriter : Type 0
MetaWriter = Option (List Bytes)

-- Whether calloc() and fopen() succeed.
abbrev pub meta_writer_open : Bool → Bool → MetaWriter
meta_writer_open memory file = if memory && file then some [] else none

-- fprintf() of one line, given without its newline.
abbrev pub write_line : MetaWriter → Bytes → MetaWriter
write_line none line = none
write_line (some lines) line = some (lines ++ line ∷ [])

-- The line of an image section; the fprintf() calls of meta_writer_record() and
-- meta_writer_sections() differ in the type's name only.
unfoldable pub image_line : Bytes → Bytes → ℕ → ℕ → Bytes
image_line type path addr base =
    codes "{\"type\":\""
    ++ (type
        ++ (codes "\",\"path\":\""
            ++ (json_escape maxpathlen path
                ++ (codes "\",\"addr\":\"0x"
                    ++ (print_hex addr
                        ++ (codes "\",\"base\":\"0x" ++ (print_hex base ++ codes "\"}")))))))

pub thread_line : Bytes → ℤ → Bytes
thread_line type tid =
    codes "{\"type\":\"" ++ (type ++ (codes "\",\"tid\":" ++ (print_int tid ++ codes "}")))

-- The line for a record, where its type has one.
unfoldable pub record_line : RecordType → BsdtraceRecord → Option Bytes
unfolding thread_line
record_line executable rec = some (image_line (codes "exec") rec.fullpath rec.addr rec.baseaddr)
record_line mmap rec = some (image_line (codes "mmap") rec.fullpath rec.addr rec.baseaddr)
record_line kernel rec = some (image_line (codes "kernel") rec.fullpath rec.addr rec.baseaddr)
record_line thread_create rec = some (thread_line (codes "thread_create") rec.thread_id)
record_line thread_set_name rec = some (thread_line (codes "thread_set_name") rec.thread_id)
record_line _ rec = none

unfoldable pub meta_writer_record : MetaWriter → BsdtraceRecord → MetaWriter
meta_writer_record mw rec = elim (record_line rec.type rec) [
  | none ↦ mw
  | some line ↦ write_line mw line
]

pub header_line : ℤ → ℤ → Bytes
header_line pid tid =
    codes "{\"type\":\"header\",\"pid\":"
    ++ (print_int pid ++ (codes ",\"tid\":" ++ (print_int tid ++ codes "}")))

unfoldable pub meta_writer_header : MetaWriter → ℤ → ℤ → MetaWriter
unfolding header_line
meta_writer_header mw pid tid = write_line mw (header_line pid tid)

pub timing_line : ℕ → ℕ → Bytes
timing_line mtc_freq cyc_thresh =
    codes "{\"type\":\"timing\",\"mtc_freq\":"
    ++ (print_dec mtc_freq ++ (codes ",\"cyc_thresh\":" ++ (print_dec cyc_thresh ++ codes "}")))

unfoldable pub meta_writer_timing : MetaWriter → ℕ → ℕ → MetaWriter
unfolding timing_line
meta_writer_timing mw mtc_freq cyc_thresh =
    if mtc_freq == 0 && cyc_thresh == 0 then mw else write_line mw (timing_line mtc_freq cyc_thresh)

-- The type's name in meta_writer_sections().
unfoldable pub section_name : PtImageInfo → Bytes
section_name s =
    if is_executable s.type
    then codes "exec"
    else if is_kernel s.type
    then codes "kernel"
    else codes "mmap"

unfoldable pub meta_writer_sections : MetaWriter → List PtImageInfo → MetaWriter
unfolding section_name
meta_writer_sections mw [] = mw
meta_writer_sections mw (s ∷ ss) =
    meta_writer_sections
      (write_line mw (image_line (section_name s) s.path s.load_addr s.base_addr)) ss

-- The four values of a line that meta_read_sections() understands.
pub record MetaLine : Type 0 where
  pub type : Bytes
  pub path : Bytes
  pub addr : ℕ
  pub base : ℕ

infixl 5 ◌>>=◌
abbrev ◌>>=◌ {ℓ κ} : {A : Type ℓ} {B : Type κ} → Option A → (A → Option B) → Option B
none >>= f = none
some a >>= f = f a

-- The sscanf() of meta_read_sections(), when it fills all four. The text behind the last conversion
-- does not count.
unfoldable pub scan_line : Bytes → Option MetaLine
unfolding literal
scan_line line = do
  rest ← literal (codes "{\"type\":\"") line
  (type, rest) ← scan_quoted 31 rest
  rest ← literal (codes "\",\"path\":\"") rest
  (path, rest) ← scan_quoted 1023 rest
  rest ← literal (codes "\",\"addr\":\"0x") rest
  (addr, rest) ← scan_hex rest
  rest ← literal (codes "\",\"base\":\"0x") rest
  (base, rest) ← scan_hex rest
  some (record { type = type; path = path; addr = addr; base = base })

-- The sections read so far, and the capacity of their array.
pub record Reader : Type 0 where
  pub sections : List PtImageInfo
  pub capacity : ℕ

-- strcmp() against the three names.
line_type : Bytes → Option RecordType
line_type type =
    if bytes_eq type (codes "exec")
    then some executable
    else if bytes_eq type (codes "mmap")
    then some mmap
    else if bytes_eq type (codes "kernel")
    then some kernel
    else none

-- `if (nsections >= capacity)`: none when realloc() fails.
reserve : Reader → Bool → Option Reader
reserve r grown =
    if not (leb r.capacity (length r.sections))
    then some r
    else if grown
    then some (record r { capacity = if r.capacity == 0 then 16 else r.capacity * 2 })
    else none

store_section : Reader → MetaLine → RecordType → Reader
store_section r m type = record r {
  sections =
      r.sections
      ++ record {
        path = strlcpy m.path maxpathlen;
        load_addr = m.addr;
        base_addr = m.base;
        type = type;
      }
        ∷ [];
}

-- `if (strcmp(type, "exec") == 0) nsections = 0;`
drop_old : Reader → RecordType → Reader
drop_old r executable = record r { sections = [] }
drop_old r _ = r

-- One round of the loop; none is `return (-1)`.
pub read_line : Reader → Bool → Bytes → Option Reader
read_line r grown line = elim (scan_line line) [
  | none ↦ some r
  | some m ↦ elim (line_type m.type) [
    | none ↦ some r
    | some type ↦ elim (reserve (drop_old r type) grown) [
      | none ↦ none
      | some r' ↦ some (store_section r' m type)
    ]
  ]
]

-- The loop, with the allocator's answers by round.
pub read_loop : Reader → (ℕ → Bool) → List Bytes → Option Reader
read_loop r grown [] = some r
read_loop r grown (l ∷ ls) = elim (read_line r (grown 0) l) [
  | none ↦ none
  | some r' ↦ read_loop r' (λ k. grown (k + 1)) ls
]

-- The file is none when fopen() fails; the result is none where the source returns -1.
unfoldable pub meta_read_sections : (ℕ → Bool) → Option Bytes → Option (List PtImageInfo)
unfolding line_type reserve store_section drop_old read_line read_loop
meta_read_sections grown none = none
meta_read_sections grown (some file) =
    elim (read_loop (record { sections = []; capacity = 0 }) grown (read_lines 4096 file)) [
      | none ↦ none
      | some r ↦ some r.sections
    ]

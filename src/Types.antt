-- ===== src/Types.antt =====
-- The shared types of Sources/bsdtrace/bsdtrace.h: HWT records, image sections,
-- and the 64-bit address arithmetic that the C code does on uint64_t and int64_t.
use observable_bsd.Prelude.{
  ℕ, ◌+◌, ◌-◌, ◌%◌, ◌^◌, Bool, true, false, Bytes, ltb, ◌==◌, if◌then◌else◌, ℤ, pos, negsuc,
}

-- enum hwt_record_type of <sys/hwt.h>, as the source names its values; `other` is any further one.
pub data RecordType : Type 0 where
  mmap munmap executable kernel thread_create thread_set_name buffer overflow : RecordType
  other : ℕ → RecordType

abbrev pub is_executable : RecordType → Bool
is_executable executable = true
is_executable _ = false

abbrev pub is_mmap : RecordType → Bool
is_mmap mmap = true
is_mmap _ = false

abbrev pub is_kernel : RecordType → Bool
is_kernel kernel = true
is_kernel _ = false

-- struct pt_image_info
pub record PtImageInfo : Type 0 where
  pub path : Bytes
  pub load_addr : ℕ
  pub base_addr : ℕ
  pub type : RecordType

-- struct bsdtrace_record. The fields of type int are integers, those of addresses are below 2^64.
pub record BsdtraceRecord : Type 0 where
  pub type : RecordType
  pub fullpath : Bytes
  pub addr : ℕ
  pub baseaddr : ℕ
  pub buf_id : ℤ
  pub curpage : ℤ
  pub offset : ℕ
  pub thread_id : ℤ

-- The number of values of a uint64_t.
abbrev pub u64 : ℕ
u64 = 2 ^ 64

-- uint64_t a + b. An int64_t operand is its bit pattern, so this is also `addr + slide`.
abbrev pub add64 : ℕ → ℕ → ℕ
add64 a b = (a + b) % u64

-- uint64_t a - b, and the bit pattern of (int64_t)a - (int64_t)b.
abbrev pub sub64 : ℕ → ℕ → ℕ
sub64 a b = (a + u64 - b) % u64

-- (int)n of an unsigned value.
unfoldable pub to_int : ℕ → ℤ
to_int n = let m = n % 2 ^ 32 in if ltb m (2 ^ 31) then pos m else negsuc (2 ^ 32 - 1 - m)

-- PAGE_SIZE of amd64.
abbrev pub page_size : ℕ
page_size = 4096

-- trunc_page(x), which is x & ~(PAGE_SIZE - 1).
abbrev pub trunc_page : ℕ → ℕ
trunc_page x = x - x % page_size

-- MAXPATHLEN of FreeBSD.
abbrev pub maxpathlen : ℕ
maxpathlen = 1024

-- A pointer to a C string: where it points, and the string there. The code compares some names by
-- pointer (`==`) and some by content (strcmp).
pub record CStr : Type 0 where
  pub loc : ℕ
  pub text : Bytes

-- a == b on two pointers
abbrev pub same_ptr : CStr → CStr → Bool
same_ptr a b = a.loc == b.loc

-- ===== src/Hwt/Process.antt =====
-- What Sources/bsdtrace/hwt.c uses of the system: descriptors, mappings and ioctl() requests, with a
-- count of the calls that a stale descriptor or address makes fail.
use observable_bsd.Prelude.{
  ℕ, suc, ◌+◌, Bool, Option, none, some, List, [], ◌∷◌, Bytes, ltb, ◌==◌, if◌then◌else◌, ℤ,
}

-- An entry of ip_ranges[] of struct pt_cpu_config.
pub record IpRange : Type 0 where
  pub start : ℕ
  pub end : ℕ
  pub mode : ℤ

-- struct pt_cpu_config
pub record PtCpuConfig : Type 0 where
  pub rtit_ctl : ℕ
  pub psb_freq : ℕ
  pub mtc_freq : ℕ
  pub cyc_thresh : ℕ
  pub nranges : ℕ
  pub ip_ranges : List IpRange

-- The fields of struct hwt_alloc that are not constant.
pub record HwtAlloc : Type 0 where
  pub bufsize : ℕ
  pub mode : ℤ
  pub pid : ℤ
  pub backend_name : Bytes
  pub kqueue_fd : ℕ

-- The requests HWT_IOC_*, with what the code passes in.
pub data Request : Type 0 where
  alloc : HwtAlloc → Request
  set_config : PtCpuConfig → Bool → Request
  start : Request
  stop : Request
  wakeup : Request
  bufptr_get : Request
  record_get : ℕ → Bool → Request

-- The process as the system sees it: its open descriptors, the addresses of its mappings, its
-- ioctl() calls, the last one first, and how often it has closed, unmapped or used for an ioctl()
-- what was not open or mapped.
pub record Os : Type 0 where
  pub fds : List ℕ
  pub maps : List ℕ
  pub ioctls : List (ℕ × Request)
  pub faults : ℕ

abbrev pub one : ℕ → ℕ → ℕ
one x y = if x == y then 1 else 0

unfoldable pub count : ℕ → List ℕ → ℕ
count x [] = 0
count x (y ∷ ys) = one x y + count x ys

unfoldable pub remove : ℕ → List ℕ → List ℕ
remove x [] = []
remove x (y ∷ ys) = if x == y then ys else y ∷ remove x ys

-- A new descriptor, where the system gives one.
unfoldable pub opened_fd : Os → Option ℕ → Os
opened_fd os none = os
opened_fd os (some fd) = record os { fds = fd ∷ os.fds }

unfoldable pub mapped : Os → Option ℕ → Os
mapped os none = os
mapped os (some p) = record os { maps = p ∷ os.maps }

unfoldable pub close : ℕ → Os → Os
close fd os =
    if ltb 0 (count fd os.fds)
    then record os { fds = remove fd os.fds }
    else record os { faults = suc os.faults }

unfoldable pub munmap : ℕ → Os → Os
munmap p os =
    if ltb 0 (count p os.maps)
    then record os { maps = remove p os.maps }
    else record os { faults = suc os.faults }

-- A call of ioctl() on a descriptor, which is none where it is negative.
unfoldable pub ioctl : Option ℕ → Request → Os → Os
ioctl none q os = record os { faults = suc os.faults }
ioctl (some fd) q os =
    if ltb 0 (count fd os.fds)
    then record os { ioctls = (fd, q) ∷ os.ioctls }
    else record os { faults = suc os.faults }

-- if (fd >= 0) close(fd);
unfoldable pub close_field : Option ℕ → Os → Os
close_field none os = os
close_field (some fd) os = close fd os

-- if (ptr != NULL) munmap(ptr, bufsize);
unfoldable pub munmap_field : Option ℕ → Os → Os
munmap_field none os = os
munmap_field (some p) os = munmap p os

-- ===== src/Resolve/Slide.antt =====
-- The slide of a running process, against the one that elf.c derives from the same mapping.
use observable_bsd.Prelude.{ℕ, ◌<◌, ◌≡◌, Bool, false, some, Bytes, ℤ, arith}
use observable_bsd.Types.{mmap, u64, add64, sub64}
use observable_bsd.Elf.{Elf, elf_base_vaddr, elf_exec_map_vaddr, elf_effective_load_addr}
use observable_bsd.Resolve.{Host, open_host}
use observable_bsd.Resolve.Vmmap.{process_load_addr}
use observable_bsd.Resolve.Specs.{trace_slide, compute_slide}

-- In trace mode, compute_slide() measures from the base of the file what process_load_addr() gives,
-- which is the start of the first executable mapping. elf_effective_load_addr() takes such an
-- address for that of the lowest executable page. The two slides differ, modulo 2^64, by as much as
-- that page lies above the base of the file: a range by name is off by it.
pub compute_slide-offset :
    (host : Host) (path : Bytes) (pid : ℤ) (elf : Elf) (base exec_map addr load slide : ℕ)
    (aslr : Bool)
    → open_host host path ≡ some elf
    → elf_base_vaddr elf ≡ some base
    → elf_exec_map_vaddr elf ≡ some exec_map
    → process_load_addr host pid path ≡ some addr
    → elf_effective_load_addr elf mmap addr ≡ some load
    → base < u64
    → exec_map < u64
    → addr < u64
    → compute_slide host path pid false ≡ some (slide, aslr)
    → slide ≡ add64 (sub64 load base) (sub64 exec_map base)
unfolding compute_slide trace_slide elf_effective_load_addr
compute_slide-offset host path pid elf base exec_map addr load slide aslr o b m a l hb hm ha c =
    let s : sub64 addr base ≡ slide = ground arith in ground arith

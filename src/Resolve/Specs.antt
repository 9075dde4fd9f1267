-- ===== src/Resolve/Specs.antt =====
-- resolve.c: from the specifications of `-r` to the filter of the hardware.
use observable_bsd.Prelude.{
  ℕ, Bool, true, false, ◌||◌, Option, none, some, List, [], ◌∷◌, ◌++◌, Bytes, is_empty, leb, ◌==◌,
  if◌then◌else◌, length, ℤ,
}
use observable_bsd.Types.{sub64}
use observable_bsd.Elf.{Elf, elf_base_vaddr}
use observable_bsd.Hwt.Process.{IpRange}
use observable_bsd.Resolve.{
  Host, RangeSpec, RangeSpecType, range_addr, range_symbol, AddrRange, et_dyn, open_host,
  resolve_symbol_in_elf,
}
use observable_bsd.Resolve.Vmmap.{process_load_addr}

-- In exec mode: slide 0 with ASLR off, for a file that is not a PIE.
unfoldable pub exec_slide : Elf → Option (ℕ × Bool)
exec_slide elf = elim elf.e_type [
  | none ↦ none
  | some t ↦ if t == et_dyn then none else some (0, true)
]

-- In trace mode: (int64_t)load_addr - (int64_t)base_vaddr.
unfoldable pub trace_slide : Host → ℤ → Bytes → Elf → Option (ℕ × Bool)
trace_slide host pid exe_path elf = elim (elf_base_vaddr elf) [
  | none ↦ none
  | some base_vaddr ↦ elim (process_load_addr host pid exe_path) [
    | none ↦ none
    | some load_addr ↦ some (sub64 load_addr base_vaddr, false)
  ]
]

-- The slide, and whether ASLR must be off; none where compute_slide() returns -1.
unfoldable pub compute_slide : Host → Bytes → ℤ → Bool → Option (ℕ × Bool)
unfolding exec_slide trace_slide
compute_slide host exe_path pid is_exec_mode = elim (open_host host exe_path) [
  | none ↦ none
  | some elf ↦ if is_exec_mode then exec_slide elf else trace_slide host pid exe_path elf
]

unfoldable pub is_symbol : RangeSpec → Bool
is_symbol spec = elim spec.type [ range_addr ↦ false | range_symbol ↦ true ]

unfoldable pub needs_resolve : List RangeSpec → Bool
needs_resolve [] = false
needs_resolve (s ∷ ss) = is_symbol s || needs_resolve ss

-- filter->ranges[nranges] and its mode, from what resolve_symbol_in_elf() stores.
unfoldable pub named_range : ℤ → Option AddrRange → Option IpRange
named_range mode none = none
named_range mode (some r) = some (record { start = r.start; end = r.end; mode = mode })

-- The switch on the type of a specification.
unfoldable pub resolve_typed : Host → Bytes → ℕ → RangeSpec → RangeSpecType → Option IpRange
unfolding named_range
resolve_typed host exe_path slide spec range_addr =
    some (record { start = spec.start; end = spec.end; mode = spec.mode })
resolve_typed host exe_path slide spec range_symbol =
    named_range spec.mode (resolve_symbol_in_elf host exe_path slide spec.symbol)

-- for (i = 0; i < nspecs; i++): `filter` is what is resolved so far.
unfoldable pub resolve_from :
    Host → Bytes → ℕ → List IpRange → List RangeSpec → Option (List IpRange)
resolve_from host exe_path slide filter [] = some filter
resolve_from host exe_path slide filter (s ∷ ss) =
    if leb 2 (length filter) then none else elim (resolve_typed host exe_path slide s s.type) [
      | none ↦ none
      | some r ↦ resolve_from host exe_path slide (filter ++ r ∷ []) ss
    ]

unfoldable pub with_slide :
    Host → Bytes → List RangeSpec → Option (ℕ × Bool) → Option (List IpRange × Bool)
with_slide host exe_path specs none = none
with_slide host exe_path specs (some (slide, aslr_disable)) =
    elim (resolve_from host exe_path slide [] specs) [
      | none ↦ none
      | some filter ↦ some (filter, aslr_disable)
    ]

-- The filter, and whether ASLR must be off; none where resolve_range_specs() returns -1.
unfoldable pub resolve_range_specs :
    Host → List RangeSpec → ℤ → Bytes → Bool → Option (List IpRange × Bool)
unfolding needs_resolve with_slide
resolve_range_specs host specs pid exe_path is_exec_mode =
    if needs_resolve specs
    then if is_empty exe_path
      then none
      else with_slide host exe_path specs (compute_slide host exe_path pid is_exec_mode)
    else with_slide host exe_path specs (some (0, false))

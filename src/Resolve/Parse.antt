-- ===== src/Resolve/Parse.antt =====
-- parse_range_spec() reads back a range that is written the way the usage says.
use observable_bsd.Prelude.{
  ℕ, ◌<◌, ◌≡◌, refl, some, [], ◌++◌, append-nil, Bytes, codes, bytes_eq, arith, ℤ,
}
use observable_bsd.Types.{u64}
use observable_bsd.Stdio.{literal, print_hex, digit_value}
use observable_bsd.Stdio.Hex.{NoX, scan_hex-print_hex_before}
use observable_bsd.Resolve.{
  RangeSpec, range_addr, range_filter, range_tracestop, scan_second, scan_first, stored,
  parse_inner, parse_range_spec,
}

-- printf("0x%lx:0x%lx")
abbrev pub range_text : ℕ → ℕ → Bytes
range_text start end = codes "0x" ++ (print_hex start ++ (codes ":0x" ++ print_hex end))

abbrev pub addr_spec : ℤ → ℕ → ℕ → RangeSpec
addr_spec mode start end = record {
  type = range_addr;
  start = start;
  end = end;
  symbol = [];
  mode = mode;
}

scan_second_text :
    (start end : ℕ) → end < u64 → scan_second start (some (print_hex end)) ≡ (some start, some end)
unfolding scan_second
scan_second_text start end k =
    let second =
      rw (append-nil (print_hex end)) at
        (scan_hex-print_hex_before end [] k tt (unfold NoX in tt)) in
    rw (second, scan_second) refl

scan_first_text :
    (start end : ℕ)
    → start < u64
    → end < u64
    → scan_first (some (print_hex start ++ (codes ":0x" ++ print_hex end))) ≡ (some start, some end)
unfolding scan_first
scan_first_text start end h k =
    let first =
      scan_hex-print_hex_before start (codes ":0x" ++ print_hex end) h (unfold digit_value in refl)
        (unfold NoX in (omega arith, omega arith)) in
    rw (first, scan_first) (unfold literal in scan_second_text start end k)

parse_inner_text :
    (mode : ℤ) (start end : ℕ)
    → start < u64
    → end < u64
    → parse_inner mode
        (range_text start end)
        (scan_first (literal (codes "0x") (range_text start end)))
      ≡ some (addr_spec mode start end)
unfolding parse_inner stored literal
parse_inner_text mode start end h k = rw (scan_first_text start end h k) refl

-- A range of 64-bit addresses that is printed as 0x%lx:0x%lx is parsed as an address range with
-- these ends, which filters, or, behind "stop:", stops the trace.
pub parse_range_spec-range_text :
    (start end : ℕ)
    → start < u64
    → end < u64
    → (parse_range_spec (range_text start end) ≡ some (addr_spec range_filter start end))
      × (parse_range_spec (codes "stop:" ++ range_text start end)
          ≡ some (addr_spec range_tracestop start end))
unfolding parse_range_spec bytes_eq
parse_range_spec-range_text start end h k =
    (parse_inner_text range_filter start end h k, parse_inner_text range_tracestop start end h k)

-- ===== src/Snapshot.antt =====
-- Sources/bsdtrace/trace.c: the drain of late records after a stop, and the extent of the buffer
-- that a snapshot decodes.
pub mod Extent
pub mod Drain
use observable_bsd.Prelude.{
  ℕ, zero, suc, ◌+◌, ◌-◌, ◌*◌, ◌%◌, Bool, true, false, not, ◌&&◌, ◌||◌, Option, none, some, List,
  [], ◌∷◌, Bytes, ltb, leb, ◌==◌, if◌then◌else◌, length, get_or, ℤ, pos, negsuc, leb_ℤ,
}
use observable_bsd.Types.{BsdtraceRecord, u64, add64, page_size}
use observable_bsd.Decode.{DecodeProbeResult}
use observable_bsd.Trace.{TraceState, trace_state_process}

-- while (len > 0 && buf[len - 1] == 0) len--;
unfoldable pub pt_scan_last_nonzero : Bytes → ℕ → ℕ
pt_scan_last_nonzero buf zero = 0
pt_scan_last_nonzero buf (suc len) =
    let rest = pt_scan_last_nonzero buf len in if get_or buf len 0 == 0 then rest else suc len

unfoldable pub probe_result_better : DecodeProbeResult → DecodeProbeResult → Bool
probe_result_better a b =
    if not (a.exec_hits == b.exec_hits) then ltb b.exec_hits a.exec_hits else ltb b.total a.total

-- The test in the middle of choose_snapshot_len(), on the results of the two probes, which are none
-- where decode_pt_probe() fails.
choose_probed : ℕ → ℕ → Option DecodeProbeResult → Option DecodeProbeResult → ℕ
choose_probed base_len scan_end none none = if ltb scan_end base_len then scan_end else base_len
choose_probed base_len scan_end none (some scan) = scan_end
choose_probed base_len scan_end (some base) none = base_len
choose_probed base_len scan_end (some base) (some scan) =
    if probe_result_better scan base then scan_end else base_len

-- The last `if` of choose_snapshot_len().
extend_page : ℕ → ℕ → ℕ → ℕ
extend_page base_len scan_end chosen =
    if chosen == base_len && ltb base_len page_size && ltb base_len scan_end
    then scan_end
    else chosen

-- From the comparison of the candidates on; base_len is capped.
choose_between : (ℕ → Option DecodeProbeResult) → ℕ → ℕ → Bool → ℕ
choose_between probe base_len scan_end have_sections =
    if base_len == 0
    then scan_end
    else if scan_end == 0 || scan_end == base_len
    then base_len
    else extend_page base_len scan_end (
        if have_sections
        then choose_probed base_len scan_end (probe base_len) (probe scan_end)
        else if ltb scan_end base_len
        then scan_end
        else base_len)

-- The buffer is none where it is NULL; `bufsz` is its length. `probe n` is what decode_pt_probe()
-- gives on the first n bytes.
unfoldable pub choose_snapshot_len : (ℕ → Option DecodeProbeResult) → Option Bytes → ℕ → Bool → ℕ
unfolding choose_probed extend_page choose_between
choose_snapshot_len probe none base_len have_sections = 0
choose_snapshot_len probe (some buf) base_len have_sections =
    if length buf == 0
    then 0
    else choose_between probe (if ltb (length buf) base_len then length buf else base_len)
        (pt_scan_last_nonzero buf (length buf)) have_sections

-- (size_t)page of an int
unfoldable pub to_size : ℤ → ℕ
to_size (pos n) = n % u64
to_size (negsuc n) = u64 - 1 - n

-- (size_t)page * PAGE_SIZE + offset
unfoldable pub extent : ℤ → ℕ → ℕ
unfolding to_size
extent page offset = (to_size page * page_size + offset) % u64

-- `known_end` of snapshot_and_decode(). `bufptr` is what hwt_ctx_bufptr_get() gives, none where it
-- fails.
unfoldable pub known_end : TraceState → ℕ → Option (ℤ × ℕ) → ℕ
known_end ts bufsize bufptr =
    let stop : ℕ = elim bufptr [ none ↦ 0 | some (page, offset) ↦ extent page offset ] in
    let record_end : ℕ =
      if leb_ℤ (pos 0) ts.last_buf_page then extent ts.last_buf_page ts.last_buf_offset else 0 in
    let stop_len = if ltb bufsize stop then 0 else stop in
    let record_len = if ltb bufsize record_end then 0 else record_end in
    if stop_len == 0 || ltb 0 record_len && ltb stop_len record_len then record_len else stop_len

abbrev pub post_stop_empty_polls : ℕ
post_stop_empty_polls = 40

-- A record of a poll, with what the allocator answers when it is processed.
abbrev pub Polled : Type 0
Polled = BsdtraceRecord × Bool

-- for (i = 0; i < nrecs; i++) of the drain.
unfoldable pub process_batch : List Polled → TraceState → ℕ → TraceState × ℕ
process_batch [] ts total = (ts, total)
process_batch ((r, grown) ∷ rs) ts total =
    process_batch rs (trace_state_process ts grown r) (total + 1)

-- The loop. The polls answer with the list's elements, none for an error, and find nothing after
-- them. None: the fuel did not suffice.
drain_loop : ℕ → List (Option (List Polled)) → ℕ → TraceState → ℕ → Option (TraceState × ℕ)
drain_loop zero polls empty ts total = none
drain_loop (suc fuel) [] empty ts total =
    let rest = drain_loop fuel [] (empty + 1) ts total in
    if ltb empty post_stop_empty_polls then rest else some (ts, total)
drain_loop (suc fuel) (none ∷ polls) empty ts total = some (ts, total)
drain_loop (suc fuel) (some [] ∷ polls) empty ts total =
    let rest = drain_loop fuel polls (empty + 1) ts total in
    if ltb empty post_stop_empty_polls then rest else some (ts, total)
drain_loop (suc fuel) (some (r ∷ rs) ∷ polls) empty ts total =
    let (ts', total') = process_batch (r ∷ rs) ts total in
    let rest = drain_loop fuel polls 0 ts' total' in
    if ltb empty post_stop_empty_polls then rest else some (ts, total)

unfoldable pub trace_state_drain_post_stop :
    ℕ → List (Option (List Polled)) → TraceState → Option (TraceState × ℕ)
unfolding process_batch drain_loop
trace_state_drain_post_stop fuel polls ts = drain_loop fuel polls 0 ts 0

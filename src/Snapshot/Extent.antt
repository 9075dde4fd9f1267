-- ===== src/Snapshot/Extent.antt =====
-- Which part of the buffer a snapshot decodes.
use observable_bsd.Prelude.{
  ℕ, zero, suc, ◌≤◌, ◌<◌, ◌≡◌, ◌≢◌, ◌⊎◌, inl, inr, Bool, Option, none, some, Bytes, ltb, leb, ◌==◌,
  if◌then◌else◌, length, get_or, ℤ, pos, leb_ℤ, arith, Bool-cases,
}
use Prim.Native.Nat.{max}
use observable_bsd.Types.{page_size}
use observable_bsd.Decode.{DecodeProbeResult}
use observable_bsd.Trace.{TraceState}
use observable_bsd.Snapshot.{
  pt_scan_last_nonzero, choose_probed, extend_page, choose_between, choose_snapshot_len, extent,
  known_end,
}

-- `last` is the end of the data in the first `len` bytes: behind it all is zero, and the byte
-- before it is not.
pub record IsEnd (buf : Bytes) (len last : ℕ) : Type 0 where
  pub bound : last ≤ len
  pub zeros : (i : ℕ) → last ≤ i → i < len → get_or buf i 0 ≡ 0
  pub data_before : (n : ℕ) → last ≡ suc n → get_or buf n 0 ≢ 0

-- The scan finds the end of the data, in any buffer and for any length.
pub pt_scan_last_nonzero-IsEnd :
    (buf : Bytes) (len : ℕ) → IsEnd buf len (pt_scan_last_nonzero buf len)
unfolding pt_scan_last_nonzero
pt_scan_last_nonzero-IsEnd buf zero = record {
  bound = omega arith;
  zeros = λ i h k. absurd (omega arith);
  data_before = λ n h. absurd (omega arith);
}
pt_scan_last_nonzero-IsEnd buf (suc len) = elim (Bool-cases (get_or buf len 0 == 0)) [
  | inl e ↦
      let r = pt_scan_last_nonzero-IsEnd buf len in
      let b = r.bound in
      rw e (record {
        bound = omega arith;
        zeros = λ i h k. elim (Bool-cases (i == len)) [
          | inl s ↦ let q : i ≡ len = ground arith in rw q (ground arith)
          | inr s ↦ r.zeros i h (ground arith)
        ];
        data_before = r.data_before;
      })
  | inr e ↦ rw e (record {
    bound = omega arith;
    zeros = λ i h k. absurd (omega arith);
    data_before = λ n h q. let m : n ≡ len = omega arith in let z = rw m at q in ground arith;
  })
]

-- What the choice of a length promises, for the reported length and the end of the data.
pub record IsChoice (base_len scan_end bufsz chosen : ℕ) : Type 0 where
  pub in_buffer : chosen ≤ bufsz
  pub candidate : (chosen ≡ base_len) ⊎ (chosen ≡ scan_end)
  pub cuts : (scan_end ≤ chosen) ⊎ ((chosen ≡ base_len) × (page_size ≤ base_len))

choose_between-IsChoice :
    (probe : ℕ → Option DecodeProbeResult) (base_len scan_end bufsz : ℕ) (have_sections : Bool)
    → base_len ≤ bufsz
    → scan_end ≤ bufsz
    → IsChoice base_len scan_end bufsz (choose_between probe base_len scan_end have_sections)
unfolding choose_between extend_page choose_probed
choose_between-IsChoice probe base_len scan_end bufsz have_sections h k = record {
  in_buffer = ground arith;
  candidate = ground arith;
  cuts = ground arith;
}

-- For every buffer, reported length and answer of the probe: the length that is chosen stays in the
-- buffer; it is the reported length, cut down to the buffer, or the end of the data; and data is
-- left out only behind a reported length of at least one page. The buffer is not empty.
pub choose_snapshot_len-IsChoice :
    (probe : ℕ → Option DecodeProbeResult) (buf : Bytes) (base_len : ℕ) (have_sections : Bool)
    → 1 ≤ length buf
    → IsChoice
        (if ltb (length buf) base_len then length buf else base_len)
        (pt_scan_last_nonzero buf (length buf))
        (length buf)
        (choose_snapshot_len probe (some buf) base_len have_sections)
unfolding choose_snapshot_len
choose_snapshot_len-IsChoice probe buf base_len have_sections h =
    let e = (pt_scan_last_nonzero-IsEnd buf (length buf)).bound in
    elim (Bool-cases (length buf == 0)) [
      | inl z ↦ absurd (ground arith)
      | inr z ↦ rw z (
          choose_between-IsChoice probe _ (pt_scan_last_nonzero buf (length buf)) (length buf)
            have_sections (ground arith) e)
    ]

-- An extent that lies in the buffer, or else nothing.
abbrev pub in_buffer : ℕ → ℕ → ℕ
in_buffer bufsize n = if leb n bufsize then n else 0

abbrev pub record_extent : TraceState → ℕ
record_extent ts =
    if leb_ℤ (pos 0) ts.last_buf_page then extent ts.last_buf_page ts.last_buf_offset else 0

abbrev pub stop_extent : Option (ℤ × ℕ) → ℕ
stop_extent none = 0
stop_extent (some (page, offset)) = extent page offset

-- For every state, buffer size and stop pointer, read or not: the extent known before the choice is
-- the larger of the stop pointer's and the last BUFFER record's, where one that lies outside of the
-- buffer counts as nothing.
pub known_end-max :
    (ts : TraceState) (bufsize : ℕ) (bufptr : Option (ℤ × ℕ))
    → known_end ts bufsize bufptr
      ≡ max (in_buffer bufsize (stop_extent bufptr)) (in_buffer bufsize (record_extent ts))
unfolding known_end
known_end-max ts bufsize none = ground arith
known_end-max ts bufsize (some (page, offset)) = ground arith

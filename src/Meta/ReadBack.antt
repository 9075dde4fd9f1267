-- ===== src/Meta/ReadBack.antt =====
-- The single values of a sidecar are read back.
use observable_bsd.Prelude.{
  ℕ, ◌^◌, ◌<◌, ◌≡◌, refl, sym, ap, ◌∙◌, Bool, false, ◌&&◌, Option, none, some, List, [], ◌∷◌, ◌++◌,
  append_assoc, Bytes, codes, ◌==◌, ℤ, arith,
}
use observable_bsd.Types.{BsdtraceRecord}
use observable_bsd.Stdio.{literal, print_int, print_dec, digit_value, read_lines}
use observable_bsd.Stdio.Dec.{IsInt, scan_int-print_int, scan_uint-print_dec}
use observable_bsd.Stdio.Lines.{concat, end_line, end_lines, Lines, Begins, read_lines-Begins}
use observable_bsd.Meta.{header_line, timing_line, meta_writer_header, meta_writer_timing}
use observable_bsd.Meta.Fits.{header_line-Fits, timing_line-Fits}
use observable_bsd.Meta.Session.{sidecar, opened}
use observable_bsd.Trace.{trace_state_init, process_all}
use observable_bsd.Trace.Sections.{process_all-meta, record_lines}
use observable_bsd.Meta.Readers.{
  value_line, scan_tid, scan_mtc_freq, scan_cyc_thresh, tid_of, meta_read_tid, first_value,
  meta_read_mtc_freq, meta_read_cyc_thresh,
}

scan_tid-header_line :
    (pid tid : ℤ) → IsInt pid → IsInt tid → scan_tid (end_line (header_line pid tid)) ≡ some tid
unfolding scan_tid header_line literal
scan_tid-header_line pid tid h k =
    let a =
      scan_int-print_int pid (codes ",\"tid\":" ++ (print_int tid ++ codes "}\n")) h
        (unfold digit_value in refl) in
    let b = scan_int-print_int tid (codes "}\n") k (unfold digit_value in refl) in
    simp append_assoc (rw (a, b) refl)

module _ (mtc_freq cyc_thresh : ℕ) (h : mtc_freq < 2 ^ 8) (k : cyc_thresh < 2 ^ 8) where
  scan_mtc_freq-timing_line :
      scan_mtc_freq (end_line (timing_line mtc_freq cyc_thresh)) ≡ some mtc_freq
  unfolding scan_mtc_freq timing_line literal
  scan_mtc_freq-timing_line =
      let a =
        scan_uint-print_dec mtc_freq
          (codes ",\"cyc_thresh\":" ++ (print_dec cyc_thresh ++ codes "}\n")) (omega arith)
          (unfold digit_value in refl) in
      simp append_assoc (rw a refl)

  scan_cyc_thresh-timing_line :
      scan_cyc_thresh (end_line (timing_line mtc_freq cyc_thresh)) ≡ some cyc_thresh
  unfolding scan_cyc_thresh timing_line literal
  scan_cyc_thresh-timing_line =
      let a =
        scan_uint-print_dec mtc_freq
          (codes ",\"cyc_thresh\":" ++ (print_dec cyc_thresh ++ codes "}\n")) (omega arith)
          (unfold digit_value in refl) in
      let b =
        scan_uint-print_dec cyc_thresh (codes "}\n") (omega arith) (unfold digit_value in refl) in
      simp append_assoc (rw (a, b) refl)

-- No reader of the timing takes the header for it.
header_line-no_timing :
    (pid tid : ℤ)
    → (scan_mtc_freq (end_line (header_line pid tid)) ≡ none)
      × (scan_cyc_thresh (end_line (header_line pid tid)) ≡ none)
unfolding scan_mtc_freq scan_cyc_thresh header_line literal
header_line-no_timing pid tid = (refl, refl)

concat-append :
    (ks ls : List Bytes)
    → concat (end_lines (ks ++ ls)) ≡ concat (end_lines ks) ++ concat (end_lines ls)
concat-append [] ls = refl
concat-append (k ∷ ks) ls =
    ap (λ t. end_line k ++ t) (concat-append ks ls)
    ∙ sym (append_assoc (end_line k) (concat (end_lines ks)) (concat (end_lines ls)))

-- A list that begins with two lines.
two_first :
    (a b : Bytes) (ls : List Bytes)
    → Begins (a ∷ b ∷ []) ls
    → (more : List Bytes) × (ls ≡ a ∷ b ∷ more)
unfolding Begins
two_first a b [] h = absurd h
two_first a b (l ∷ []) h = absurd h.1
two_first a b (l ∷ m ∷ more) h = (more, rw (h.0, h.1.0) refl)

module _ (pid tid : ℤ) (mtc_freq cyc_thresh : ℕ) where
  head_Lines : Lines value_line (header_line pid tid ∷ timing_line mtc_freq cyc_thresh ∷ [])
  head_Lines =
      let a = header_line-Fits pid tid in
      let b = timing_line-Fits mtc_freq cyc_thresh in
      let al = a.short in
      let bl = b.short in (a.no_newline, omega arith, (b.no_newline, omega arith, tt))

  head_read :
      (rest : List Bytes)
      → (more : List Bytes) × (read_lines value_line
            (concat (end_lines (header_line pid tid ∷ timing_line mtc_freq cyc_thresh ∷ rest)))
          ≡ end_line (header_line pid tid) ∷ end_line (timing_line mtc_freq cyc_thresh) ∷ more)
  head_read rest =
      let head = header_line pid tid ∷ timing_line mtc_freq cyc_thresh ∷ [] in
      rw (concat-append head rest)
        (two_first _ _ _ (read_lines-Begins value_line head (concat (end_lines rest)) head_Lines))

  session_lines :
      (grown : ℕ → Bool) (rs : List BsdtraceRecord)
      → (mtc_freq == 0 && cyc_thresh == 0) ≡ false
      → (process_all (trace_state_init (opened pid tid mtc_freq cyc_thresh)) grown rs).meta
        ≡ some (header_line pid tid ∷ timing_line mtc_freq cyc_thresh ∷ record_lines rs)
  unfolding meta_writer_header meta_writer_timing trace_state_init
  session_lines grown rs t =
      process_all-meta (trace_state_init (opened pid tid mtc_freq cyc_thresh)) grown rs
        (header_line pid tid ∷ timing_line mtc_freq cyc_thresh ∷ []) (rw t refl)

tid_of_first : (l : Bytes) (ls : List Bytes) (t : ℤ) → scan_tid l ≡ some t → tid_of (l ∷ ls) ≡ t
unfolding tid_of
tid_of_first l ls t e = rw (e, tid_of) refl

first_value_second :
    (scan : Bytes → Option ℕ) (l m : Bytes) (ls : List Bytes) (v : ℕ)
    → scan l ≡ none
    → scan m ≡ some v
    → first_value scan (l ∷ m ∷ ls) ≡ v
unfolding first_value
first_value_second scan l m ls v e f = rw (e, first_value, f) refl

-- A trace opens a sidecar, writes the header and the timing, of which one value is not 0, and takes
-- any records. Then the readers of single values give the thread id, the MTC frequency and the CYC
-- threshold that were written, where the ids are ints and the timing values have 8 bits.
pub meta_read-process_all :
    (pid tid : ℤ) (mtc_freq cyc_thresh : ℕ) (grown : ℕ → Bool) (rs : List BsdtraceRecord)
    → IsInt pid
    → IsInt tid
    → mtc_freq < 2 ^ 8
    → cyc_thresh < 2 ^ 8
    → (mtc_freq == 0 && cyc_thresh == 0) ≡ false
    → (let file =
          sidecar
            (process_all (trace_state_init (opened pid tid mtc_freq cyc_thresh)) grown rs).meta in
        (meta_read_tid file ≡ tid)
        × (meta_read_mtc_freq file ≡ mtc_freq)
        × (meta_read_cyc_thresh file ≡ cyc_thresh))
unfolding meta_read_tid meta_read_mtc_freq meta_read_cyc_thresh
meta_read-process_all pid tid mtc_freq cyc_thresh grown rs hp ht hm hc t =
    let (more, e) = head_read pid tid mtc_freq cyc_thresh (record_lines rs) in
    let (n, c) = header_line-no_timing pid tid in
    rw (session_lines pid tid mtc_freq cyc_thresh grown rs t) (
      rw e (tid_of_first _ more tid (scan_tid-header_line pid tid hp ht)),
      rw e (
          first_value_second scan_mtc_freq _ _ more mtc_freq n
            (scan_mtc_freq-timing_line mtc_freq cyc_thresh hm hc)),
      rw e (
          first_value_second scan_cyc_thresh _ _ more cyc_thresh c
            (scan_cyc_thresh-timing_line mtc_freq cyc_thresh hm hc)),
    )

-- ===== src/Meta/Readers.antt =====
-- meta.c: the readers of single values of the sidecar. A file that cannot be opened is none.
use observable_bsd.Prelude.{ℕ, Option, none, some, List, [], ◌∷◌, Bytes, codes, ℤ, negsuc}
use observable_bsd.Stdio.{literal, scan_int, scan_uint, read_lines}
use observable_bsd.Meta.{◌>>=◌}

-- sizeof(line)
abbrev pub value_line : ℕ
value_line = 256

-- sscanf(line, "{\"type\":\"header\",\"pid\":%*d,\"tid\":%d}", &tid). The text behind the last
-- conversion has no bearing on what is stored.
unfoldable pub scan_tid : Bytes → Option ℤ
scan_tid line = do
  s ← literal (codes "{\"type\":\"header\",\"pid\":") line
  (pid, s) ← scan_int s
  s ← literal (codes ",\"tid\":") s
  (tid, s) ← scan_int s
  some tid

-- sscanf(line, "{\"type\":\"timing\",\"mtc_freq\":%u", &mtc_freq)
unfoldable pub scan_mtc_freq : Bytes → Option ℕ
scan_mtc_freq line = do
  s ← literal (codes "{\"type\":\"timing\",\"mtc_freq\":") line
  (mtc_freq, s) ← scan_uint s
  some mtc_freq

-- sscanf(line, "{\"type\":\"timing\",\"mtc_freq\":%*u,\"cyc_thresh\":%u}", &cyc_thresh)
unfoldable pub scan_cyc_thresh : Bytes → Option ℕ
scan_cyc_thresh line = do
  s ← literal (codes "{\"type\":\"timing\",\"mtc_freq\":") line
  (mtc_freq, s) ← scan_uint s
  s ← literal (codes ",\"cyc_thresh\":") s
  (cyc_thresh, s) ← scan_uint s
  some cyc_thresh

-- The first line only.
unfoldable pub tid_of : List Bytes → ℤ
unfolding scan_tid
tid_of [] = negsuc 0
tid_of (line ∷ lines) = elim (scan_tid line) [ none ↦ negsuc 0 | some tid ↦ tid ]

unfoldable pub meta_read_tid : Option Bytes → ℤ
unfolding tid_of
meta_read_tid none = negsuc 0
meta_read_tid (some file) = tid_of (read_lines value_line file)

-- while (fgets(line, sizeof(line), fp) != NULL): the value of the first line that has one.
unfoldable pub first_value : (Bytes → Option ℕ) → List Bytes → ℕ
first_value scan [] = 0
first_value scan (line ∷ lines) = elim (scan line) [ none ↦ first_value scan lines | some v ↦ v ]

unfoldable pub meta_read_mtc_freq : Option Bytes → ℕ
unfolding scan_mtc_freq first_value
meta_read_mtc_freq none = 0
meta_read_mtc_freq (some file) = first_value scan_mtc_freq (read_lines value_line file)

unfoldable pub meta_read_cyc_thresh : Option Bytes → ℕ
unfolding scan_cyc_thresh first_value
meta_read_cyc_thresh none = 0
meta_read_cyc_thresh (some file) = first_value scan_cyc_thresh (read_lines value_line file)

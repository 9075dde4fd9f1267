-- ===== src/Meta/Line.antt =====
-- One line of the sidecar: what the reader gets from a line that the writer wrote.
use observable_bsd.Prelude.{
  ℕ, ◌≤◌, ◌<◌, ◌≡◌, refl, none, some, [], ◌∷◌, ◌++◌, append_assoc, Bytes, codes, length, ℤ, arith,
}
use observable_bsd.Types.{maxpathlen, u64}
use observable_bsd.Json.{json_escape}
use observable_bsd.Stdio.Hex.{scan_hex-print_hex}
use observable_bsd.Stdio.Quoted.{NoQuote, scan_quoted_word, scan_quoted_empty}
use observable_bsd.Meta.{image_line, thread_line, header_line, timing_line, scan_line}

-- The line of an image whose path needs no escape and is not empty scans as its four values.
pub scan_line-image_line :
    (t : ℕ) (type : Bytes) (c : ℕ) (path : Bytes) (addr base : ℕ)
    → NoQuote (t ∷ type)
    → length (t ∷ type) ≤ 31
    → NoQuote (c ∷ path)
    → length (c ∷ path) ≤ 1023
    → json_escape maxpathlen (c ∷ path) ≡ c ∷ path
    → addr < u64
    → base < u64
    → scan_line (image_line (t ∷ type) (c ∷ path) addr base ++ 10 ∷ [])
      ≡ some (record { type = t ∷ type; path = c ∷ path; addr = addr; base = base })
unfolding scan_line image_line
scan_line-image_line t type c path addr base nt lt np lp e ha hb =
    simp (e, append_assoc)
      (rw
        (
          scan_quoted_word 31 t type,
          scan_quoted_word 1023 c path,
          scan_hex-print_hex addr,
          scan_hex-print_hex base (b'}' ∷ 10 ∷ []) hb,
          nt,
          lt,
          np,
          lp,
          ha,
        )
        refl)

-- The line of an image without a path scans as nothing.
pub scan_line-no_path :
    (t : ℕ) (type : Bytes) (addr base : ℕ)
    → NoQuote (t ∷ type)
    → length (t ∷ type) ≤ 31
    → scan_line (image_line (t ∷ type) [] addr base ++ 10 ∷ []) ≡ none
unfolding scan_line image_line json_escape
scan_line-no_path t type addr base nt lt =
    simp append_assoc (rw (scan_quoted_word 31 t type, scan_quoted_empty 1023, nt, lt) refl)

-- So does the line of a thread.
pub scan_line-thread_line :
    (t : ℕ) (type : Bytes) (tid : ℤ)
    → NoQuote (t ∷ type)
    → length (t ∷ type) ≤ 31
    → scan_line (thread_line (t ∷ type) tid ++ 10 ∷ []) ≡ none
unfolding scan_line thread_line
scan_line-thread_line t type tid nt lt =
    simp append_assoc (rw (scan_quoted_word 31 t type, nt, lt) refl)

-- So do the two lines at the head of the file.
pub scan_line-header_line : (pid tid : ℤ) → scan_line (header_line pid tid ++ 10 ∷ []) ≡ none
unfolding scan_line header_line
scan_line-header_line pid tid =
    simp append_assoc
      (rw (scan_quoted_word 31 b'h' (codes "eader") _ (omega arith) (omega arith)) refl)

pub scan_line-timing_line :
    (mtc_freq cyc_thresh : ℕ) → scan_line (timing_line mtc_freq cyc_thresh ++ 10 ∷ []) ≡ none
unfolding scan_line timing_line
scan_line-timing_line mtc_freq cyc_thresh =
    simp append_assoc
      (rw (scan_quoted_word 31 b't' (codes "iming") _ (omega arith) (omega arith)) refl)

-- ===== src/Dwarf/Nearest.antt =====
-- The loop over the lines of a unit keeps the first of the nearest lines at or before an address.
use observable_bsd.Prelude.{
  ℕ, ◌≤◌, ◌<◌, ◌≡◌, refl, sym, ◌⊎◌, inl, inr, true, false, ◌&&◌, Option, none, some, List, [], ◌∷◌,
  ◌++◌, append_assoc, append-nil, Bytes, strlcpy, ltb, leb, ℤ, pos, arith, Bool-cases, Option-cases,
}
use observable_bsd.Types.{to_int, maxpathlen}
use observable_bsd.Json.Escape.{All}
use observable_bsd.Dwarf.{Libdwarf, Best, or_file, or_line, take_line, scan_lines}

All-append {ℓ κ} :
    {A : Type ℓ} (P : A → Type κ) (xs ys : List A) → All P xs → All P ys → All P (xs ++ ys)
All-append P [] ys h k = k
All-append P (x ∷ xs) ys (p, h) k = (p, All-append P xs ys h k)

pub All-weaken {ℓ κ} :
    {A : Type ℓ} {P Q : A → Type κ} (xs : List A) → ((x : A) → P x → Q x) → All P xs → All Q xs
All-weaken [] f h = tt
All-weaken (x ∷ xs) f (p, h) = (f x p, All-weaken xs f h)

module _ {D Die Line : Type 0} (lib : Libdwarf D Die Line) (file_addr : ℕ) where
  -- Where a line has an address, not above `file_addr`, the predicate holds of it.
  abbrev pub Addressed : (ℕ → Type 0) → Line → Type 0
  Addressed P l = (a : ℕ) → lib.lineaddr l ≡ some a → a ≤ file_addr → P a

-- The file of a line: its own, cut to the size of a path, or, where libdwarf gives none, the one
-- before.
pub data IsFile (old : Bytes) : Option Bytes → Bytes → Type 0 where
  own_file : (src : Bytes) → IsFile old (some src) (strlcpy src maxpathlen)
  kept_file : IsFile old none old

pub data IsNumber (old : ℤ) : Option ℕ → ℤ → Type 0 where
  own_number : (n : ℕ) → IsNumber old (some n) (to_int n)
  kept_number : IsNumber old none old

module _ {D Die Line : Type 0} (lib : Libdwarf D Die Line) (file_addr : ℕ) where
  -- What is best of a list of lines: nothing, where none has an address from 1 to `file_addr`; or a
  -- line with such an address, above those of the lines before it and not below those behind it, all
  -- up to `file_addr`. Its file and its number are its own where libdwarf gives them, and those of
  -- `prior`, which is best of the lines before it, where it does not.
  pub data IsNearest : List Line → Best → Type 0 where
    no_line :
        (ls : List Line)
        → All (Addressed lib file_addr (λ a. a ≤ 0)) ls
        → IsNearest ls (record { addr = 0; file = []; line = pos 0; found = false })
    nearest :
        (before : List Line) (line : Line) (after : List Line) (prior b : Best)
        → IsNearest before prior
        → lib.lineaddr line ≡ some b.addr
        → 0 < b.addr
        → b.addr ≤ file_addr
        → All (Addressed lib file_addr (λ a. a < b.addr)) before
        → All (Addressed lib file_addr (λ a. a ≤ b.addr)) after
        → IsFile prior.file (lib.linesrc line) b.file
        → IsNumber prior.line (lib.lineno line) b.line
        → b.found ≡ true
        → IsNearest (before ++ line ∷ after) b

module _ {D Die Line : Type 0} (lib : Libdwarf D Die Line) (file_addr : ℕ) where
  -- What a line makes of the best one so far.
  taken : Line → ℕ → Best → Best
  taken l a b = record {
    addr = a;
    file = or_file (lib.linesrc l) b.file;
    line = or_line (lib.lineno l) b.line;
    found = true;
  }

module _ {D Die Line : Type 0} (lib : Libdwarf D Die Line) (file_addr : ℕ) where
  take_line-cases :
      (l : Line) (b : Best)
      → ((take_line lib file_addr l b ≡ b) × Addressed lib file_addr (λ a. a ≤ b.addr) l)
        ⊎ ((a : ℕ) × (lib.lineaddr l ≡ some a)
            × (a ≤ file_addr)
            × (b.addr < a)
            × (take_line lib file_addr l b ≡ taken lib file_addr l a b))
  unfolding take_line taken
  take_line-cases l b = elim (Option-cases (lib.lineaddr l)) [
    | inl e ↦ inl (rw (take_line, e) refl, λ a f h. ground (arith, e, f))
    | inr (a, e) ↦ elim (Bool-cases (leb a file_addr && ltb b.addr a)) [
      | inl t ↦ inr (a, e, ground (arith, t), ground (arith, t), rw (take_line, e, t) refl)
      | inr t ↦ inl (rw (take_line, e, t) refl, λ c f h. ground (arith, e, f, t))
    ]
  ]

  or_file-IsFile : (own : Option Bytes) (old : Bytes) → IsFile old own (or_file own old)
  unfolding or_file
  or_file-IsFile none old = kept_file
  or_file-IsFile (some src) old = own_file src

  or_line-IsNumber : (own : Option ℕ) (old : ℤ) → IsNumber old own (or_line own old)
  unfolding or_line
  or_line-IsNumber none old = kept_number
  or_line-IsNumber (some n) old = own_number n

  -- No line has an address above that of the best one.
  pub IsNearest-bound :
      (ls : List Line) (b : Best)
      → IsNearest lib file_addr ls b
      → All (Addressed lib file_addr (λ a. a ≤ b.addr)) ls
  IsNearest-bound _ _ (no_line ls h) = h
  IsNearest-bound _ _ (nearest before line after prior b n e z l h k f g t) =
      let at_line : Addressed lib file_addr (λ a. a ≤ b.addr) line =
        λ a d m. ground (arith, d, e) in
      All-append _ before (line ∷ after)
        (All-weaken before (λ x p a d m. let q = p a d m in omega arith) h) (at_line, k)

  -- A line that is no better changes nothing.
  skipped :
      (ls : List Line) (l : Line) (b : Best)
      → IsNearest lib file_addr ls b
      → Addressed lib file_addr (λ a. a ≤ b.addr) l
      → IsNearest lib file_addr (ls ++ l ∷ []) b
  skipped _ l _ (no_line ls h) low = no_line (ls ++ l ∷ []) (All-append _ ls (l ∷ []) h (low, tt))
  skipped _ l _ (nearest before line after prior b n e z m h k f g t) low =
      rw (append_assoc before (line ∷ after) (l ∷ [])) (
        nearest before line (after ++ l ∷ []) prior b n e z m h
          (All-append _ after (l ∷ []) k (low, tt)) f g t)

  first_taken :
      (ls : List Line) (l : Line) (a : ℕ) (b : Best)
      → IsNearest lib file_addr ls b
      → lib.lineaddr l ≡ some a
      → a ≤ file_addr
      → b.addr < a
      → IsNearest lib file_addr (ls ++ l ∷ []) (taken lib file_addr l a b)
  unfolding taken
  first_taken ls l a b n has below above =
      nearest ls l [] b _ n has (omega arith) below
        (All-weaken ls (λ x p c d m. let q = p c d m in omega arith) (IsNearest-bound ls b n)) tt
        (or_file-IsFile (lib.linesrc l) b.file) (or_line-IsNumber (lib.lineno l) b.line) refl

  -- From the best of some lines, the loop over further ones gives the best of all.
  pub scan_lines-IsNearest :
      (ls seen : List Line) (b : Best)
      → IsNearest lib file_addr seen b
      → IsNearest lib file_addr (seen ++ ls) (scan_lines lib file_addr ls b)
  unfolding scan_lines
  scan_lines-IsNearest [] seen b n = rw (append-nil seen) n
  scan_lines-IsNearest (l ∷ ls) seen b n = rw (sym (append_assoc seen (l ∷ []) ls)) (
      scan_lines-IsNearest ls (seen ++ l ∷ []) (take_line lib file_addr l b)
        (elim (take_line-cases l b) [
          | inl (e, low) ↦ rw e (skipped seen l b n low)
          | inr (a, has, below, above, e) ↦ rw e (first_taken seen l a b n has below above)
        ]))

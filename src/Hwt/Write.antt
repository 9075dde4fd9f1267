-- ===== src/Hwt/Write.antt =====
-- The file of a snapshot: the loop over write() ends, and what it has written is the buffer.
use observable_bsd.Prelude.{
  ℕ, zero, suc, ◌+◌, ◌-◌, ◌/◌, ◌%◌, ◌≤◌, ◌<◌, ◌≡◌, refl, sym, ap, ◌∙◌, inl, inr, Bool, true, false,
  ◌^◌, Option, none, some, List, [], ◌∷◌, ◌++◌, append-nil, append_assoc, Bytes, ltb, ◌==◌,
  if◌then◌else◌, length, take, drop, pos, ltb_ℤ, arith, Bool-cases,
}
use observable_bsd.Types.{u64, page_size, to_int}
use observable_bsd.Decode.{DecodeProbeResult}
use observable_bsd.Trace.{TraceState}
use observable_bsd.Snapshot.{extent, known_end, choose_snapshot_len, to_size}
use observable_bsd.Snapshot.Extent.{choose_snapshot_len-IsChoice}
use observable_bsd.Hwt.{Session, Kernel}
use observable_bsd.Hwt.Operations.{map_field, hwt_ctx_bufptr_get, hwt_ctx_map_buffer}
use observable_bsd.Hwt.Buffer.{
  nothing, saved, saved_as, write_loop, save_file, save_mapped, hwt_ctx_snapshot_buffer,
  snapshot_mapped, snapshot_primary,
}

-- write() does not fail, and takes at least a byte, and no more than it is given.
abbrev pub IsProgress : (ℕ → ℕ → Option ℕ) → Type 0
IsProgress write =
    (off len : ℕ) → 1 ≤ len → (n : ℕ) × (write off len ≡ some n) × (1 ≤ n) × (n ≤ len)

module _ {ℓ} {A : Type ℓ} where
  take-nil : (n : ℕ) → take {A = A} n [] ≡ []
  take-nil zero = refl
  take-nil (suc n) = refl

  take-add : (m n : ℕ) (xs : List A) → take (m + n) xs ≡ take m xs ++ take n (drop m xs)
  take-add zero n xs = ap (λ i. take i xs) (omega arith)
  take-add (suc m) n [] = take-nil (suc m + n) ∙ sym (take-nil n)
  take-add (suc m) n (x ∷ xs) =
      let e : suc m + n ≡ suc (m + n) = omega arith in rw e (ap (λ t. x ∷ t) (take-add m n xs))

  drop-nil : (n : ℕ) → drop {A = A} n [] ≡ []
  drop-nil zero = refl
  drop-nil (suc n) = refl

  drop-add : (m n : ℕ) (xs : List A) → drop (m + n) xs ≡ drop n (drop m xs)
  drop-add zero n xs = ap (λ i. drop i xs) (omega arith)
  drop-add (suc m) n [] = drop-nil (suc m + n) ∙ sym (drop-nil n)
  drop-add (suc m) n (x ∷ xs) =
      let e : suc m + n ≡ suc (m + n) = omega arith in rw e (drop-add m n xs)

  -- A part of a list, and the part behind it.
  pub two_parts :
      (off n total : ℕ) (xs : List A)
      → off + n ≤ total
      → take n (drop off xs) ++ take (total - (off + n)) (drop (off + n) xs)
        ≡ take (total - off) (drop off xs)
  two_parts off n total xs h =
      let e : n + (total - (off + n)) ≡ total - off = omega arith in
      rw (drop-add off n xs)
        (sym (take-add n (total - (off + n)) (drop off xs)) ∙ ap (λ i. take i (drop off xs)) e)

pub write_loop-whole :
    (fuel : ℕ) (write : ℕ → ℕ → Option ℕ) (buf : Bytes) (off total : ℕ) (file : Bytes)
    → IsProgress write
    → off ≤ total
    → total ≤ off + fuel
    → write_loop fuel write buf off total file
      ≡ some (some (file ++ take (total - off) (drop off buf)))
unfolding write_loop
write_loop-whole zero write buf off total file p h k =
    let e : ltb off total ≡ false = ground arith in
    let z : total - off ≡ 0 = omega arith in rw (e, z, append-nil file) refl
write_loop-whole (suc fuel) write buf off total file p h k = elim (Bool-cases (ltb off total)) [
  | inr e ↦ let z : total - off ≡ 0 = ground arith in rw (e, z, append-nil file) refl
  | inl e ↦
      let l : off < total = ground arith in
      let (n, w, a, b) = p off (total - off) (omega arith) in
      let r =
        write_loop-whole fuel write buf (off + n) total (file ++ take n (drop off buf)) p
          (omega arith) (omega arith) in
      rw (e, w, r)
        (ap (λ t. some (some t))
          (append_assoc file (take n (drop off buf)) _
            ∙ ap (λ t. file ++ t) (two_parts off n total buf (omega arith))))
]

-- The number of pages is an int.
to_int-page : (n : ℕ) → n < 2 ^ 43 → to_int (n / page_size) ≡ pos (n / page_size)
unfolding to_int
to_int-page n h =
    let m : n / page_size < 2 ^ 31 = omega arith in
    let e : n / page_size % 2 ^ 32 ≡ n / page_size = omega arith in
    let t : ltb (n / page_size) (2 ^ 31) ≡ true = ground arith in rw (to_int, e, t) refl

-- An offset in pages and bytes is the offset again.
extent-split : (n : ℕ) → n < u64 → extent (pos (n / page_size)) (n % page_size) ≡ n
unfolding extent to_size
extent-split n h = omega arith

module _ (k : Kernel) (write : ℕ → ℕ → Option ℕ) (fuel : ℕ) (p : IsProgress write) where
  save_file-whole :
      (s : Session) (fd : ℕ) (buf : Bytes) (total : ℕ)
      → k.create s.os ≡ some fd
      → total ≤ fuel
      → (save_file k write fuel s buf total).1 ≡ saved total (take total buf)
  unfolding save_file saved_as
  save_file-whole s fd buf total e h =
      let z : total - 0 ≡ total = omega arith in
      rw (e, save_file, write_loop-whole fuel write buf 0 total [] p (omega arith) (omega arith), z)
        refl

  map_buffer_again :
      (s : Session) (m : ℕ) → s.ctx.trace_buf ≡ some m → hwt_ctx_map_buffer k s ≡ (s, some m)
  unfolding hwt_ctx_map_buffer map_field
  map_buffer_again s m e = ap (map_field k s) e

  -- A position in the buffer that is not its start, where the buffer is mapped already.
  snapshot_buffer-whole :
      (s : Session) (fd m n : ℕ)
      → s.ctx.trace_buf ≡ some m
      → k.create s.os ≡ some fd
      → n ≤ s.ctx.bufsize
      → s.ctx.bufsize < 2 ^ 43
      → s.ctx.bufsize ≤ fuel
      → 1 ≤ n
      → (hwt_ctx_snapshot_buffer k write fuel s (to_int (n / page_size)) (n % page_size)).1
        ≡ saved n (take n (k.memory m))
  unfolding hwt_ctx_snapshot_buffer save_mapped
  snapshot_buffer-whole s fd m n e c h u f l =
      let x = extent-split n (omega arith) in
      let cap : ltb s.ctx.bufsize n ≡ false = ground arith in
      let z : (n == 0) ≡ false = ground arith in
      let t : ltb_ℤ (pos (n / page_size)) (pos 0) ≡ false = ground arith in
      rw (to_int-page n (omega arith), t, map_buffer_again s m e, x, cap, z)
        (save_file-whole s fd (k.memory m) n c (omega arith))

  map_field-known :
      (s : Session) (o : Option ℕ) (m : ℕ)
      → s.ctx.trace_buf ≡ o
      → (map_field k s o).1 ≡ some m
      → ((map_field k s o).0.ctx.trace_buf ≡ some m)
        × ((map_field k s o).0.ctx.bufsize ≡ s.ctx.bufsize)
  unfolding map_field
  map_field-known s none m e f = (f, refl)
  map_field-known s (some q) m e f = (e ∙ f, refl)

  snapshot_mapped-whole :
      (probe : ℕ → Option DecodeProbeResult) (s : Session) (m fd base_len : ℕ) (hs : Bool)
      → s.ctx.trace_buf ≡ some m
      → length (k.memory m) ≡ s.ctx.bufsize
      → 1 ≤ s.ctx.bufsize
      → s.ctx.bufsize < 2 ^ 43
      → s.ctx.bufsize ≤ fuel
      → k.create s.os ≡ some fd
      → (snapshot_mapped k write fuel probe s (some m) base_len hs).1 ≡ (
          let n = choose_snapshot_len probe (some (k.memory m)) base_len hs in
          if n == 0 then nothing else saved n (take n (k.memory m)))
  unfolding snapshot_mapped
  snapshot_mapped-whole probe s m fd base_len hs e l b u f c =
      let n = choose_snapshot_len probe (some (k.memory m)) base_len hs in
      let j =
        (choose_snapshot_len-IsChoice probe (k.memory m) base_len hs (omega arith)).in_buffer in
      elim (Bool-cases (n == 0)) [
        | inl z ↦ rw z refl
        | inr z ↦ rw z (snapshot_buffer-whole s fd m n e c (omega arith) u f (ground arith))
      ]

  -- The session and the address that the first half of snapshot_and_decode() leads to, and the
  -- length that it settles on.
  abbrev pub asked : Session → Session
  asked s = (hwt_ctx_bufptr_get k s).0

  abbrev pub at_buffer : Session → Session
  at_buffer s = (hwt_ctx_map_buffer k (asked s)).0

  abbrev pub settled : (ℕ → Option DecodeProbeResult) → TraceState → Session → Bytes → Bool → ℕ
  settled probe ts s buf have_sections =
      choose_snapshot_len probe (some buf) (known_end ts s.ctx.bufsize (hwt_ctx_bufptr_get k s).1)
        have_sections

  -- Where the buffer of the session is mapped, not empty and smaller than 2^43 bytes, the file can be created and write()
  -- gets on, and with as much fuel as the buffer has bytes: a snapshot of the primary thread ends,
  -- and saves, and hands to the decoder, exactly the bytes of the buffer up to the length that
  -- choose_snapshot_len() settles on, or nothing where that is 0. That the length passes as a page
  -- and an offset, and through hwt_ctx_snapshot_buffer(), does not change it.
  pub snapshot_primary-whole :
      (probe : ℕ → Option DecodeProbeResult) (ts : TraceState) (s : Session) (have_sections : Bool)
      (m fd : ℕ)
      → (hwt_ctx_map_buffer k (asked s)).1 ≡ some m
      → length (k.memory m) ≡ s.ctx.bufsize
      → 1 ≤ s.ctx.bufsize
      → s.ctx.bufsize < 2 ^ 43
      → s.ctx.bufsize ≤ fuel
      → k.create (at_buffer s).os ≡ some fd
      → (snapshot_primary k write fuel probe ts s have_sections).1 ≡ (
          let n = settled probe ts s (k.memory m) have_sections in
          if n == 0 then nothing else saved n (take n (k.memory m)))
  unfolding snapshot_primary hwt_ctx_map_buffer map_field hwt_ctx_bufptr_get
  snapshot_primary-whole probe ts s hs m fd e l b u f c =
      let (t, z) =
        map_field-known (asked s) (asked s).ctx.trace_buf m refl (unfold hwt_ctx_map_buffer in e) in
      rw (e) (
        snapshot_mapped-whole probe (at_buffer s) m fd
          (known_end ts s.ctx.bufsize (hwt_ctx_bufptr_get k s).1) hs t (l ∙ sym z) (omega arith)
          (omega arith) (omega arith) c)

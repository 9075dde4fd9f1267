-- ===== src/Hwt/Broken.antt =====
-- The loop over write() ends when write() fails as well.
use observable_bsd.Prelude.{
  ℕ, zero, suc, ◌+◌, ◌-◌, ◌≤◌, ◌<◌, ◌≡◌, ◌⊎◌, refl, ap, ◌∙◌, inl, inr, Bool, true, false, Option,
  none, some, ◌++◌, append-nil, append_assoc, Bytes, ltb, take, drop, arith, Bool-cases,
}
use observable_bsd.Hwt.Buffer.{write_loop}
use observable_bsd.Hwt.Write.{two_parts}

-- write() fails, or takes at least a byte, and no more than it is given.
abbrev pub IsWrite : (ℕ → ℕ → Option ℕ) → Type 0
IsWrite write =
    (off len : ℕ)
    → 1 ≤ len
    → (write off len ≡ none) ⊎ ((n : ℕ) × (write off len ≡ some n) × (1 ≤ n) × (n ≤ len))

-- The calls of write() that save `total` bytes from `off` on, each for all that is left: whether they
-- come to the end, or one fails.
pub data Writes (write : ℕ → ℕ → Option ℕ) : ℕ → ℕ → Bool → Type 0 where
  all : (off total : ℕ) → off ≡ total → Writes write off total true
  fails :
      (off total : ℕ) → off < total → write off (total - off) ≡ none → Writes write off total false
  goes_on :
      (off total n : ℕ) (b : Bool)
      → off < total
      → write off (total - off) ≡ some n
      → Writes write (off + n) total b
      → Writes write off total b

-- With a round of fuel for each byte, the loop ends; it has written all, or a write() has failed.
pub write_loop-ends :
    (fuel : ℕ) (write : ℕ → ℕ → Option ℕ) (buf : Bytes) (off total : ℕ) (file : Bytes)
    → IsWrite write
    → off ≤ total
    → total ≤ off + fuel
    → ((write_loop fuel write buf off total file
          ≡ some (some (file ++ take (total - off) (drop off buf))))
        × Writes write off total true)
      ⊎ ((write_loop fuel write buf off total file ≡ some none) × Writes write off total false)
unfolding write_loop
write_loop-ends zero write buf off total file p h k =
    let e : ltb off total ≡ false = ground arith in
    let z : total - off ≡ 0 = omega arith in
    rw (e, z, append-nil file) (inl (refl, all off total (omega arith)))
write_loop-ends (suc fuel) write buf off total file p h k = elim (Bool-cases (ltb off total)) [
  | inr e ↦
      let z : total - off ≡ 0 = ground arith in
      rw (e, z, append-nil file) (inl (refl, all off total (ground arith)))
  | inl e ↦
      let l : off < total = ground arith in
      elim (p off (total - off) (omega arith)) [
        | inl w ↦ rw (e, w) (inr (refl, fails off total l w))
        | inr (n, w, a, b) ↦
            elim (write_loop-ends fuel write buf (off + n) total (file ++ take n (drop off buf)) p
              (omega arith) (omega arith)) [
                | inl (r, v) ↦
                    rw (e, w, r)
                      (inl (
                        ap (λ t. some (some t))
                            (append_assoc file (take n (drop off buf)) _
                              ∙ ap (λ t. file ++ t) (two_parts off n total buf (omega arith))),
                        goes_on off total n true l w v,
                      ))
                | inr (r, v) ↦ rw (e, w, r) (inr (refl, goes_on off total n false l w v))
              ]
      ]
]

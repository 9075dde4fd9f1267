-- ===== src/Ranges/Lookup.antt =====
-- find_binary_for_ip() returns the first range that holds the address, and the offset into it.
use observable_bsd.Prelude.{
  ℕ, zero, suc, ◌+◌, ◌≤◌, ◌<◌, ◌≡◌, refl, inl, inr, ◌&&◌, Option, none, some, List, [], ◌∷◌, Bytes,
  ltb, leb, get_elem?, arith, Bool-cases,
}
use observable_bsd.Types.{u64}
use observable_bsd.Ranges.{BinRange, find_binary_for_ip}

abbrev pub Holds : BinRange → ℕ → Type 0
Holds r ip = (r.lo ≤ ip) × (ip < r.hi)

-- What each answer of the lookup says of the ranges.
abbrev pub Answers : List BinRange → ℕ → Option (Bytes × ℕ) → Type 0
Answers ranges ip none = (i : ℕ) (r : BinRange) → get_elem? ranges i ≡ some r → ¬ Holds r ip
Answers ranges ip (some (name, offset)) =
    (i : ℕ) × (r : BinRange) × (get_elem? ranges i ≡ some r)
    × (r.name ≡ name)
    × (r.lo + offset ≡ ip)
    × (ip < r.hi)
    × ((j : ℕ) (q : BinRange) → get_elem? ranges j ≡ some q → j < i → ¬ Holds q ip)

Answers-cons :
    (r : BinRange) (ranges : List BinRange) (ip : ℕ) (o : Option (Bytes × ℕ))
    → ¬ Holds r ip
    → Answers ranges ip o
    → Answers (r ∷ ranges) ip o
Answers-cons r ranges ip none out h = before
  where
    before : (i : ℕ) (q : BinRange) → get_elem? (r ∷ ranges) i ≡ some q → ¬ Holds q ip
    before zero q e k = out (ground arith)
    before (suc i) q e k = h i q e k
Answers-cons r ranges ip (some (name, offset)) out (i, s, e, n, o, l, first) =
    (suc i, s, e, n, o, l, before)
  where
    before : (j : ℕ) (q : BinRange) → get_elem? (r ∷ ranges) j ≡ some q → j < suc i → ¬ Holds q ip
    before zero q e' l' k = out (ground arith)
    before (suc j) q e' l' k = first j q e' (omega arith) k

-- On every address below 2^64 the lookup answers with the first range that holds the address, and
-- an offset that leads from the range's start to the address; it answers none exactly when no
-- range holds the address.
pub find_binary_for_ip-Answers :
    (ranges : List BinRange) (ip : ℕ) → ip < u64 → Answers ranges ip (find_binary_for_ip ranges ip)
unfolding find_binary_for_ip
find_binary_for_ip-Answers [] ip h = λ i r e k. ground arith
find_binary_for_ip-Answers (r ∷ rs) ip h = elim (Bool-cases (leb r.lo ip && ltb ip r.hi)) [
  | inl hit ↦
      rw hit (0, r, refl, refl, ground arith, ground arith, λ j q e l k. absurd (omega arith))
  | inr miss ↦ rw miss (
      Answers-cons r rs ip (find_binary_for_ip rs ip) (λ k. ground arith)
        (find_binary_for_ip-Answers rs ip h))
]

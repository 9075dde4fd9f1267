-- ===== src/Hwt/Balance.antt =====
-- A process that has open, on top of what it had, exactly what it holds.
use observable_bsd.Prelude.{
  ℕ, ◌+◌, ◌<◌, ◌≡◌, refl, true, Option, none, some, inl, inr, List, [], ◌∷◌, ltb, ◌==◌, arith,
  Bool-cases,
}
use observable_bsd.Hwt.Process.{
  Os, Request, one, count, remove, opened_fd, mapped, close, munmap, ioctl, close_field,
  munmap_field,
}

-- How often a field holds a number.
abbrev pub one_of : Option ℕ → ℕ → ℕ
one_of none x = 0
one_of (some y) x = one x y

-- Against `base`, the process has open the descriptors that `h` counts and the mappings that `m`
-- counts, and no call has used what was not open.
pub record Balanced (base os : Os) (h m : ℕ → ℕ) : Type 0 where
  pub fds : (x : ℕ) → count x os.fds ≡ count x base.fds + h x
  pub maps : (x : ℕ) → count x os.maps ≡ count x base.maps + m x
  pub faults : os.faults ≡ base.faults

count-remove : (x y : ℕ) (l : List ℕ) → 0 < count y l → count x l ≡ one x y + count x (remove y l)
unfolding count remove
count-remove x y [] h = absurd (omega arith)
count-remove x y (z ∷ l) h = elim (Bool-cases (y == z)) [
  | inl e ↦ let q : y ≡ z = ground arith in rw (e, q) refl
  | inr e ↦ let r = count-remove x y l (ground arith) in rw e (omega (arith, r))
]

pub one_self : (x : ℕ) → one x x ≡ 1
one_self x = ground arith

module _ {base os : Os} {h m : ℕ → ℕ} (b : Balanced base os h m) where
  pub recount : {g n : ℕ → ℕ} → ((x : ℕ) → h x ≡ g x) → ((x : ℕ) → m x ≡ n x) → Balanced base os g n
  recount e f = record {
    fds = λ x. omega (arith, b.fds x, e x);
    maps = λ x. omega (arith, b.maps x, f x);
    faults = b.faults;
  }

module _ {base os : Os} {h m : ℕ → ℕ} (b : Balanced base os h m) where
  pub opened_fd-Balanced :
      (fd : Option ℕ) → Balanced base (opened_fd os fd) (λ x. one_of fd x + h x) m
  unfolding opened_fd count
  opened_fd-Balanced none = recount b (λ x. omega arith) (λ x. omega arith)
  opened_fd-Balanced (some fd) = record {
    fds = λ x. omega (arith, b.fds x);
    maps = b.maps;
    faults = b.faults;
  }

  pub mapped-Balanced : (p : Option ℕ) → Balanced base (mapped os p) h (λ x. one_of p x + m x)
  unfolding mapped count
  mapped-Balanced none = recount b (λ x. omega arith) (λ x. omega arith)
  mapped-Balanced (some p) = record {
    fds = b.fds;
    maps = λ x. omega (arith, b.maps x);
    faults = b.faults;
  }

  pub ioctl-Balanced :
      (fd : Option ℕ) (q : Request) (n : ℕ)
      → fd ≡ some n
      → 0 < h n
      → Balanced base (ioctl fd q os) h m
  unfolding ioctl
  ioctl-Balanced fd q n e p =
      let t : ltb 0 (count n os.fds) ≡ true = ground (arith, b.fds n) in
      rw (e, t) (record { fds = b.fds; maps = b.maps; faults = b.faults })

module _ {base os : Os} {h m : ℕ → ℕ} where
  pub close_field-Balanced :
      (fd : Option ℕ)
      → Balanced base os (λ x. one_of fd x + h x) m
      → Balanced base (close_field fd os) h m
  unfolding close_field close
  close_field-Balanced none b = recount b (λ x. omega arith) (λ x. omega arith)
  close_field-Balanced (some fd) b =
      let t : ltb 0 (count fd os.fds) ≡ true = ground (arith, b.fds fd, one_self fd) in
      rw t (record {
        fds = λ x. omega (arith, b.fds x, count-remove x fd os.fds (ground arith));
        maps = b.maps;
        faults = b.faults;
      })

  pub munmap_field-Balanced :
      (p : Option ℕ)
      → Balanced base os h (λ x. one_of p x + m x)
      → Balanced base (munmap_field p os) h m
  unfolding munmap_field munmap
  munmap_field-Balanced none b = recount b (λ x. omega arith) (λ x. omega arith)
  munmap_field-Balanced (some p) b =
      let t : ltb 0 (count p os.maps) ≡ true = ground (arith, b.maps p, one_self p) in
      rw t (record {
        fds = b.fds;
        maps = λ x. omega (arith, b.maps x, count-remove x p os.maps (ground arith));
        faults = b.faults;
      })

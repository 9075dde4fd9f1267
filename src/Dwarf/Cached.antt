-- ===== src/Dwarf/Cached.antt =====
-- The caches of dwarf.c own the descriptors and the Dwarf_Debug objects that are open.
use observable_bsd.Prelude.{
  ℕ, zero, suc, ◌+◌, ◌≤◌, ◌≡◌, refl, ap, inl, inr, Option, none, some, List, [], ◌∷◌, ◌++◌, Bytes,
  leb, length, length-append, length-set, get_elem?, set, arith, Bool-cases, Option-cases,
}
use observable_bsd.Hwt.Process.{Os, close_field}
use observable_bsd.Hwt.Balance.{one_of, Balanced, recount, opened_fd-Balanced, close_field-Balanced}
use observable_bsd.Dwarf.{
  DwarfCache, Dwarf, Opening, max_dwarf_caches, find_cache, open_debug, open_new, dwarf_cache_open,
  close_caches, dwarf_cache_close_all,
}

module _ {D : Type 0} where
  -- How often the caches hold a descriptor.
  unfoldable pub cache_fds : List (DwarfCache D) → ℕ → ℕ
  cache_fds [] x = 0
  cache_fds (c ∷ cs) x = one_of (some c.fd) x + cache_fds cs x

module _ {D : Type 0} where
  -- On top of `base` and of `n` Dwarf_Debug objects, the process has open what the caches hold.
  pub record IsHeld (base : Os) (n : ℕ) (s : Dwarf D) : Type 0 where
    pub files : Balanced base s.os (cache_fds s.caches) (λ x. 0)
    pub objects : s.debugs ≡ n + length s.caches
    pub limit : length s.caches ≤ max_dwarf_caches

module _ {D : Type 0} where
  cache_fds-append :
      (cs ds : List (DwarfCache D)) (x : ℕ)
      → cache_fds (cs ++ ds) x ≡ cache_fds cs x + cache_fds ds x
  unfolding cache_fds
  cache_fds-append [] ds x = omega arith
  cache_fds-append (c ∷ cs) ds x = omega (arith, cache_fds-append cs ds x)

  cache_fds-set :
      (cs : List (DwarfCache D)) (i : ℕ) (c d : DwarfCache D) (x : ℕ)
      → get_elem? cs i ≡ some c
      → d.fd ≡ c.fd
      → cache_fds cs x ≡ cache_fds (set cs i d) x
  unfolding cache_fds
  cache_fds-set [] i c d x g e = refl
  cache_fds-set (b ∷ cs) zero c d x g e =
      let fd_of : Option (DwarfCache D) → ℕ = λ o. elim o [ none ↦ 0 | some k ↦ k.fd ] in
      let q : b.fd ≡ c.fd = ap fd_of g in rw (q, e) refl
  cache_fds-set (b ∷ cs) (suc i) c d x g e = omega (arith, cache_fds-set cs i c d x g e)

module _ {D : Type 0} {base : Os} {n : ℕ} where
  open_debug-IsHeld :
      (path : Bytes) (slide fd : ℕ) (d : Option D) (s : Dwarf D)
      → Balanced base s.os (λ x. one_of (some fd) x + cache_fds s.caches x) (λ x. 0)
      → s.debugs ≡ n + length s.caches
      → suc (length s.caches) ≤ max_dwarf_caches
      → IsHeld base n (open_debug path slide fd d s).1
  unfolding open_debug cache_fds close_field
  open_debug-IsHeld path slide fd none s b e h = record {
    files = close_field-Balanced (some fd) b;
    objects = e;
    limit = omega arith;
  }
  open_debug-IsHeld path slide fd (some d) s b e h = record {
    files = recount b (λ x. omega (arith, cache_fds-append s.caches (_ ∷ []) x)) (λ x. refl);
    objects = omega (arith, length-append s.caches (_ ∷ []));
    limit = omega (arith, length-append s.caches (_ ∷ []));
  }

  open_new-IsHeld :
      (path : Bytes) (slide : ℕ) (x : Opening D) (s : Dwarf D)
      → IsHeld base n s
      → suc (length s.caches) ≤ max_dwarf_caches
      → IsHeld base n (open_new path slide x s).1
  unfolding open_new
  open_new-IsHeld path slide x s h l = elim (Option-cases x.fd) [
    | inl e ↦ rw (open_new, e) h
    | inr (fd, e) ↦
        rw (open_new, e)
          (open_debug-IsHeld path slide fd x.init _ (opened_fd-Balanced h.files (some fd)) h.objects
            l)
  ]

  pub dwarf_cache_open-IsHeld :
      (path : Bytes) (slide : ℕ) (x : Opening D) (s : Dwarf D)
      → IsHeld base n s
      → IsHeld base n (dwarf_cache_open path slide x s).1
  unfolding dwarf_cache_open open_new open_debug
  dwarf_cache_open-IsHeld path slide x s h = elim (Option-cases (find_cache path s.caches 0)) [
    | inr (i, e) ↦ rw (dwarf_cache_open, e) h
    | inl e ↦ elim (Bool-cases (leb max_dwarf_caches (length s.caches))) [
      | inl t ↦ rw (dwarf_cache_open, e, t) h
      | inr t ↦ rw (dwarf_cache_open, e, t) (open_new-IsHeld path slide x s h (ground (arith, t)))
    ]
  ]

  close_caches-Balanced :
      (cs : List (DwarfCache D)) (s : Dwarf D)
      → Balanced base s.os (cache_fds cs) (λ x. 0)
      → s.debugs ≡ n + length cs
      → Balanced base (close_caches cs s).os (λ x. 0) (λ x. 0) × ((close_caches cs s).debugs ≡ n)
  unfolding close_caches cache_fds
  close_caches-Balanced [] s b e = (b, omega arith)
  close_caches-Balanced (c ∷ cs) s b e =
      close_caches-Balanced cs _ (close_field-Balanced (some c.fd) b) (omega arith)

module _ {D : Type 0} {base : Os} {n : ℕ} where
  -- After dwarf_cache_close_all(), the process has what it had before the first cache.
  pub dwarf_cache_close_all-released :
      (s : Dwarf D)
      → IsHeld base n s
      → Balanced base (dwarf_cache_close_all s).os (λ x. 0) (λ x. 0)
        × ((dwarf_cache_close_all s).debugs ≡ n)
        × ((dwarf_cache_close_all s).caches ≡ [])
  unfolding dwarf_cache_close_all
  dwarf_cache_close_all-released s h =
      let (b, e) = close_caches-Balanced s.caches s h.files h.objects in (b, e, refl)

module _ {D : Type 0} {base : Os} {n : ℕ} where
  -- A cache whose place has moved.
  pub moved-IsHeld :
      (s : Dwarf D) (i : ℕ) (c : DwarfCache D) (d : D)
      → get_elem? s.caches i ≡ some c
      → IsHeld base n s
      → IsHeld base n (record s { caches = set s.caches i (record c { dbg = d }) })
  moved-IsHeld s i c d e h = record {
    files = recount h.files (λ x. cache_fds-set s.caches i c _ x e refl) (λ x. refl);
    objects = omega (arith, h.objects, length-set s.caches i (record c { dbg = d }));
    limit = omega (arith, h.limit, length-set s.caches i (record c { dbg = d }));
  }

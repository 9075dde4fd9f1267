-- ===== src/Resolve/Filter.antt =====
-- The filter that the specifications become.
use observable_bsd.Prelude.{
  ℕ, ◌≤◌, ◌≡◌, refl, sym, ◌∙◌, ◌⊎◌, inl, inr, Bool, false, ◌&&◌, Option, none, some, List, [], ◌∷◌,
  ◌++◌, append-nil, append_assoc, Bytes, leb, length, length-append, is_empty, ℤ, arith, Bool-cases,
  Option-cases,
}
use observable_bsd.Elf.{Elf}
use observable_bsd.Hwt.Process.{IpRange}
use observable_bsd.Resolve.{
  Host, RangeSpec, RangeSpecType, range_addr, range_symbol, AddrRange, open_host,
  resolve_symbol_in_elf,
}
use observable_bsd.Resolve.Specs.{
  exec_slide, trace_slide, named_range, resolve_typed, resolve_from, with_slide, needs_resolve,
  compute_slide, resolve_range_specs,
}
use observable_bsd.Resolve.Found.{candidates, first_named, resolve_symbol_in_elf-first_named}

-- The range of a specification by name: that of the first function of that name in the file.
abbrev pub IsNamedRange : Host → Bytes → ℕ → RangeSpec → IpRange → Type 0
IsNamedRange host path slide spec r =
    (elf : Elf) × (open_host host path ≡ some elf)
    × (first_named spec.symbol slide (candidates elf)
        ≡ some (record { start = r.start; end = r.end }))

-- What a specification asks for: its own addresses, or those of the function that it names.
unfoldable pub IsWanted : Host → Bytes → ℕ → RangeSpec → RangeSpecType → IpRange → Type 0
IsWanted host path slide spec range_addr r = (r.start ≡ spec.start) × (r.end ≡ spec.end)
IsWanted host path slide spec range_symbol r = IsNamedRange host path slide spec r

-- One range for each specification, in order, with its mode.
unfoldable pub AllWanted : Host → Bytes → ℕ → List RangeSpec → List IpRange → Type 0
AllWanted host path slide [] [] = Unit
AllWanted host path slide [] (r ∷ rs) = ⊥
AllWanted host path slide (s ∷ ss) [] = ⊥
AllWanted host path slide (s ∷ ss) (r ∷ rs) =
    (IsWanted host path slide s s.type r × (r.mode ≡ s.mode)) × AllWanted host path slide ss rs

-- The filter of some specifications.
pub record IsFilter (host : Host) (path : Bytes) (is_exec_mode : Bool) (specs : List RangeSpec)
    (filter : List IpRange) (aslr_disable : Bool) : Type 0 where
  pub fits : length filter ≤ 2
  pub slide : ℕ
  pub wanted : AllWanted host path slide specs filter
  pub in_place : (slide ≡ 0) ⊎ (is_exec_mode ≡ false)
  pub aslr : aslr_disable ≡ (is_exec_mode && needs_resolve specs)

named_range-parts :
    (mode : ℤ) (o : Option AddrRange) (r : IpRange)
    → named_range mode o ≡ some r
    → (o ≡ some (record { start = r.start; end = r.end })) × (r.mode ≡ mode)
unfolding named_range
named_range-parts mode none r e = ground arith
named_range-parts mode (some a) r e = ground arith

unopened :
    (host : Host) (path : Bytes) (slide : ℕ) (name : Bytes)
    → open_host host path ≡ none
    → resolve_symbol_in_elf host path slide name ≡ none
unfolding resolve_symbol_in_elf
unopened host path slide name n = rw (n, resolve_symbol_in_elf) refl

module _ (host : Host) (path : Bytes) (slide : ℕ) where
  resolve_typed-IsWanted :
      (spec : RangeSpec) (t : RangeSpecType) (r : IpRange)
      → resolve_typed host path slide spec t ≡ some r
      → IsWanted host path slide spec t r × (r.mode ≡ spec.mode)
  unfolding resolve_typed IsWanted
  resolve_typed-IsWanted spec range_addr r e = ground arith
  resolve_typed-IsWanted spec range_symbol r e =
      let (f, m) = named_range-parts spec.mode _ r e in
      elim (Option-cases (open_host host path)) [
        | inl n ↦
            let u = unopened host path slide spec.symbol n in
            absurd (let f' = rw u at f in ground arith)
        | inr (elf, o) ↦ (
          (elf, o, rw⁻¹ (resolve_symbol_in_elf-first_named host path slide spec.symbol elf o) f),
          m,
        )
      ]

  resolve_from-AllWanted :
      (specs : List RangeSpec) (filter result : List IpRange)
      → length filter ≤ 2
      → resolve_from host path slide filter specs ≡ some result
      → (rs : List IpRange) × (result ≡ filter ++ rs)
        × AllWanted host path slide specs rs
        × (length result ≤ 2)
  unfolding resolve_from AllWanted
  resolve_from-AllWanted [] filter result h e =
      let f : filter ≡ result = ground arith in ([], sym f ∙ sym (append-nil filter), tt, rw⁻¹ f h)
  resolve_from-AllWanted (s ∷ ss) filter result h e = elim (Bool-cases (leb 2 (length filter))) [
    | inl full ↦ absurd (let n = rw full at e in ground arith)
    | inr room ↦ elim (Option-cases (resolve_typed host path slide s s.type)) [
      | inl n ↦ absurd (let n' = rw (room, n) at e in ground arith)
      | inr (r, o) ↦
          let next : resolve_from host path slide (filter ++ r ∷ []) ss ≡ some result =
            rw (room, o) at e in
          let (rs, f, w, l) =
            resolve_from-AllWanted ss (filter ++ r ∷ []) result
              (rw (length-append filter (r ∷ [])) (ground arith)) next in
          (r ∷ rs, f ∙ append_assoc filter (r ∷ []) rs, (resolve_typed-IsWanted s s.type r o, w), l)
    ]
  ]

slide_known :
    (host : Host) (path : Bytes) (pid : ℤ) (is_exec_mode : Bool) (slide : ℕ) (aslr : Bool)
    → compute_slide host path pid is_exec_mode ≡ some (slide, aslr)
    → ((slide ≡ 0) ⊎ (is_exec_mode ≡ false)) × (aslr ≡ is_exec_mode)
unfolding compute_slide exec_slide trace_slide
slide_known host path pid is_exec_mode slide aslr e = ground arith

filter_known :
    (host : Host) (path : Bytes) (specs : List RangeSpec) (slide : ℕ) (a : Bool)
    (filter : List IpRange) (aslr : Bool)
    → with_slide host path specs (some (slide, a)) ≡ some (filter, aslr)
    → (resolve_from host path slide [] specs ≡ some filter) × (a ≡ aslr)
unfolding with_slide
filter_known host path specs slide a filter aslr e = ground arith

no_slide :
    (host : Host) (path : Bytes) (specs : List RangeSpec) (filter : List IpRange) (aslr : Bool)
    → ¬ (with_slide host path specs none ≡ some (filter, aslr))
unfolding with_slide
no_slide host path specs filter aslr e = ground arith

-- Where resolve_range_specs() succeeds, there are at most two ranges, which fit the filter; each
-- specification has its range, in order and with its mode: its own addresses, or those of the first
-- function of that name in the file, moved by one slide for all, which is 0 in exec mode; and ASLR
-- is to be disabled exactly where exec mode resolves a name.
pub resolve_range_specs-IsFilter :
    (host : Host) (specs : List RangeSpec) (pid : ℤ) (path : Bytes) (is_exec_mode : Bool)
    (filter : List IpRange) (aslr_disable : Bool)
    → resolve_range_specs host specs pid path is_exec_mode ≡ some (filter, aslr_disable)
    → IsFilter host path is_exec_mode specs filter aslr_disable
unfolding resolve_range_specs
resolve_range_specs-IsFilter host specs pid path m filter aslr e =
    elim (Bool-cases (needs_resolve specs)) [
      | inl n ↦ elim (Bool-cases (is_empty path)) [
        | inl z ↦ absurd (let f = rw (n, z) at e in ground arith)
        | inr z ↦ elim (Option-cases (compute_slide host path pid m)) [
          | inl c ↦ absurd (let f = rw (n, z, c) at e in no_slide host path specs filter aslr f)
          | inr ((slide, b), c) ↦
              let (f, a) = filter_known host path specs slide b filter aslr (rw (n, z, c) at e) in
              let (p, x) = slide_known host path pid m slide b c in
              filtered slide f p (ground arith)
        ]
      ]
      | inr n ↦
          let (f, a) = filter_known host path specs 0 false filter aslr (rw n at e) in
          filtered 0 f (inl refl) (ground arith)
    ]
  where
    filtered :
        (slide : ℕ)
        → resolve_from host path slide [] specs ≡ some filter
        → (slide ≡ 0) ⊎ (m ≡ false)
        → aslr ≡ (m && needs_resolve specs)
        → IsFilter host path m specs filter aslr
    filtered slide f p a =
        let (rs, q, w, l) =
          resolve_from-AllWanted host path slide specs [] filter (omega arith) f in
        record { fits = l; slide = slide; wanted = rw q w; in_place = p; aslr = a }

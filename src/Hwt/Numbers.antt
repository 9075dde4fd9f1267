-- ===== src/Hwt/Numbers.antt =====
-- The numbers that hwt.c computes: the size of the buffer, and the timing that the processor has.
use observable_bsd.Prelude.{
  ℕ, zero, suc, ◌+◌, ◌/◌, ◌%◌, ◌^◌, ◌≤◌, ◌<◌, ◌≡◌, ◌≢◌, refl, ◌⊎◌, inl, inr, true, false, codes,
  leb, ◌==◌, if◌then◌else◌, length, arith, Bool-cases, Option-cases, is_empty, strlcpy,
}
use observable_bsd.Types.{u64, page_size}
use observable_bsd.Hwt.Process.{Os, HwtAlloc, alloc, ioctl, opened_fd}
use observable_bsd.Hwt.{
  Session, Kernel, AllocArgs, fresh_ctx, lowest_from, hwt_pt_default_timing, round_bufsize,
  hwt_ctx_close, device_path, open_device, request_alloc, open_kqueue, open_control, hwt_ctx_alloc,
}

-- Is bit `i` of the bitmap set?
abbrev pub HasBit : ℕ → ℕ → Type 0
HasBit bitmap i = bitmap / 2 ^ i % 2 ≡ 1

-- `r` is the lowest bit of the bitmap that is set, from bit `low` on and below bit `high`, or 0
-- where none is.
pub record IsLowest (bitmap low high r : ℕ) : Type 0 where
  pub none_below : (j : ℕ) → low ≤ j → j < high → HasBit bitmap j → (r ≢ 0) × (r ≤ j)
  pub found : (r ≡ 0) ⊎ ((low ≤ r) × (r < high) × HasBit bitmap r)

lowest_from-IsLowest :
    (left i bitmap : ℕ) → 1 ≤ i → IsLowest bitmap i (i + left) (lowest_from left i bitmap)
unfolding lowest_from
lowest_from-IsLowest zero i bitmap h = record {
  none_below = λ j l k. absurd (omega arith);
  found = inl refl;
}
lowest_from-IsLowest (suc left) i bitmap h =
    let r = lowest_from-IsLowest left (suc i) bitmap (omega arith) in
    let found = r.found in
    elim (Bool-cases (bitmap / 2 ^ i % 2 == 1)) [
      | inl e ↦ rw e (record {
        none_below = λ j l k b. (omega arith, l);
        found = inr (omega arith, omega arith, ground arith);
      })
      | inr e ↦ rw e (record {
        none_below = λ j l k b. elim (Bool-cases (i == j)) [
          | inl f ↦ let q : i ≡ j = ground arith in let c = rw q at e in absurd (ground arith)
          | inr f ↦ r.none_below j (ground arith) (omega arith) b
        ];
        found = elim found [ inl z ↦ inl z | inr (a, b, c) ↦ inr (omega arith, omega arith, c) ];
      })
    ]

-- Whatever CPUID answers, the default MTC frequency is the lowest bit from 1 to 15 that is set in
-- the upper half of EAX, and the default CYC threshold that of the lower half of EBX; 0, which is
-- "off", stands exactly for a bitmap with none of these bits.
pub hwt_pt_default_timing-IsLowest :
    (eax ebx : ℕ)
    → IsLowest (eax / 2 ^ 16 % 2 ^ 16) 1 16 (hwt_pt_default_timing eax ebx).0
      × IsLowest (ebx % 2 ^ 16) 1 16 (hwt_pt_default_timing eax ebx).1
unfolding hwt_pt_default_timing
hwt_pt_default_timing-IsLowest eax ebx = (
  lowest_from-IsLowest 15 1 (eax / 2 ^ 16 % 2 ^ 16) (omega arith),
  lowest_from-IsLowest 15 1 (ebx % 2 ^ 16) (omega arith),
)

-- The size that a command asks for: 64 MB where it gives none.
abbrev pub requested : ℕ → ℕ
requested bufsize = if bufsize == 0 then 67108864 else bufsize

module _ (k : Kernel) where
  bufsize-open_device : (s : Session) → (open_device k s).0.ctx.bufsize ≡ s.ctx.bufsize
  unfolding open_device hwt_ctx_close
  bufsize-open_device s =
      elim (Option-cases (k.open_path s.os (device_path s.ctx.ident s.ctx.tid))) [
        | inl e ↦ rw (e, open_device) refl
        | inr (n, e) ↦ rw (e, open_device) refl
      ]

  bufsize-request_alloc :
      (s : Session) (kq : ℕ) → (request_alloc k s kq).0.ctx.bufsize ≡ s.ctx.bufsize
  unfolding request_alloc hwt_ctx_close
  bufsize-request_alloc s kq =
      let ha : HwtAlloc = record {
        bufsize = s.ctx.bufsize;
        mode = s.ctx.mode;
        pid = s.ctx.pid;
        backend_name = s.ctx.backend_name;
        kqueue_fd = kq;
      } in
      elim (Option-cases (k.alloc_ident s.os ha)) [
        | inl e ↦ rw (e, request_alloc) refl
        | inr (n, e) ↦
            rw (e, request_alloc)
              (bufsize-open_device (record {
                ctx = record s.ctx { ident = n };
                os = ioctl s.ctx.ctl_fd (alloc ha) s.os;
              }))
      ]

  bufsize-open_kqueue : (s : Session) → (open_kqueue k s).0.ctx.bufsize ≡ s.ctx.bufsize
  unfolding open_kqueue hwt_ctx_close
  bufsize-open_kqueue s = elim (Option-cases (k.kqueue s.os)) [
    | inl e ↦ rw (e, open_kqueue) refl
    | inr (n, e) ↦
        rw (e, open_kqueue)
          (bufsize-request_alloc
            (record {
              ctx = record s.ctx { kq_fd = k.kqueue s.os };
              os = opened_fd s.os (k.kqueue s.os);
            })
            n)
  ]

  bufsize-open_control : (s : Session) → (open_control k s).0.ctx.bufsize ≡ s.ctx.bufsize
  unfolding open_control
  bufsize-open_control s = elim (Option-cases (k.open_path s.os (codes "/dev/hwt"))) [
    | inl e ↦ rw (e, open_control) refl
    | inr (n, e) ↦
        rw (e, open_control)
          (bufsize-open_kqueue (record {
            ctx = record s.ctx { ctl_fd = k.open_path s.os (codes "/dev/hwt") };
            os = opened_fd s.os (k.open_path s.os (codes "/dev/hwt"));
          }))
  ]

  bufsize-hwt_ctx_alloc :
      (a : AllocArgs) (os : Os)
      → ((hwt_ctx_alloc k a os).1 ≡ false)
        ⊎ ((hwt_ctx_alloc k a os).0.ctx.bufsize ≡ round_bufsize a.bufsize)
  unfolding hwt_ctx_alloc
  bufsize-hwt_ctx_alloc a os = elim (Bool-cases (is_empty a.backend)) [
    | inl e ↦ rw (e, hwt_ctx_alloc) (inl refl)
    | inr e ↦ elim (Bool-cases (leb k.maxnamelen (length a.backend))) [
      | inl l ↦ rw (e, l, hwt_ctx_alloc) (inl refl)
      | inr l ↦
          rw (e, l, hwt_ctx_alloc)
            (inr (
              bufsize-open_control (record {
                ctx = record (fresh_ctx a) {
                  backend_name = strlcpy a.backend k.maxnamelen;
                  bufsize = round_bufsize a.bufsize;
                };
                os = os;
              })))
    ]
  ]

-- A size that the kernel takes for a request.
pub record IsRounded (wanted bufsize : ℕ) : Type 0 where
  pub pages : bufsize % page_size ≡ 0
  pub enough : wanted ≤ bufsize
  pub tight : bufsize < wanted + page_size

round_bufsize-IsRounded : (n : ℕ) → n + 4096 ≤ u64 → IsRounded (requested n) (round_bufsize n)
unfolding round_bufsize
round_bufsize-IsRounded n h = elim (Bool-cases (n == 0)) [
  | inl e ↦ rw e (record { pages = refl; enough = omega arith; tight = omega arith })
  | inr e ↦ rw e (record { pages = omega arith; enough = omega arith; tight = omega arith })
]

-- Where hwt_ctx_alloc() succeeds, for a size at least a page below 2^64, the buffer is a whole
-- number of pages, holds what is asked for (64 MB where that is 0), and is less than a page larger.
pub hwt_ctx_alloc-IsRounded :
    (k : Kernel) (a : AllocArgs) (os : Os)
    → a.bufsize + 4096 ≤ u64
    → (hwt_ctx_alloc k a os).1 ≡ true
    → IsRounded (requested a.bufsize) (hwt_ctx_alloc k a os).0.ctx.bufsize
hwt_ctx_alloc-IsRounded k a os h e = elim (bufsize-hwt_ctx_alloc k a os) [
  | inl f ↦ ground arith
  | inr f ↦ rw f (round_bufsize-IsRounded a.bufsize h)
]

-- ===== src/Hwt/Threads.antt =====
-- The list of the threads of a context: no thread is in it twice, and what it holds when it grows.
use observable_bsd.Prelude.{
  ℕ, suc, ◌+◌, ◌≡◌, refl, ◌∙◌, ap, Bool, false, ◌||◌, Option, none, some, List, [], ◌∷◌, ◌++◌,
  length, ℤ, pos, negsuc, eq_ℤ, arith,
}
use observable_bsd.Hwt.Process.{Os}
use observable_bsd.Hwt.Balance.{one_of, Balanced, recount, mapped-Balanced}
use observable_bsd.Hwt.{HwtThreadCtx, Kernel}
use observable_bsd.Hwt.Operations.{has_thread}
use observable_bsd.Hwt.Buffer.{map_thread, map_threads}
use observable_bsd.Hwt.Held.{thread_fds, thread_maps}

-- No thread id is in the list twice.
unfoldable pub IsDistinct : List HwtThreadCtx → Type 0
IsDistinct [] = Unit
IsDistinct (t ∷ ts) = (has_thread t.thread_id ts ≡ false) × IsDistinct ts

eq_ℤ_comm : (a b : ℤ) → eq_ℤ a b ≡ eq_ℤ b a
eq_ℤ_comm (pos a) (pos b) = ground arith
eq_ℤ_comm (pos a) (negsuc b) = refl
eq_ℤ_comm (negsuc a) (pos b) = refl
eq_ℤ_comm (negsuc a) (negsuc b) = ground arith

or_false : (a b : Bool) → a ≡ false → b ≡ false → (a || b) ≡ false
or_false a b h k = ground arith

or_false_left : (a b : Bool) → (a || b) ≡ false → a ≡ false
or_false_left a b h = ground arith

or_false_right : (a b : Bool) → (a || b) ≡ false → b ≡ false
or_false_right a b h = ground arith

has_thread-append :
    (tid : ℤ) (ts : List HwtThreadCtx) (t : HwtThreadCtx)
    → has_thread tid ts ≡ false
    → eq_ℤ t.thread_id tid ≡ false
    → has_thread tid (ts ++ t ∷ []) ≡ false
unfolding has_thread
has_thread-append tid [] t h k = or_false _ false k refl
has_thread-append tid (u ∷ ts) t h k =
    or_false _ _ (or_false_left _ _ h) (has_thread-append tid ts t (or_false_right _ _ h) k)

pub append-IsDistinct :
    (ts : List HwtThreadCtx) (t : HwtThreadCtx)
    → IsDistinct ts
    → has_thread t.thread_id ts ≡ false
    → IsDistinct (ts ++ t ∷ [])
unfolding IsDistinct has_thread
append-IsDistinct [] t d h = (refl, tt)
append-IsDistinct (u ∷ ts) t d h = (
  has_thread-append u.thread_id ts t d.0 (eq_ℤ_comm t.thread_id u.thread_id ∙ or_false_left _ _ h),
  append-IsDistinct ts t d.1 (or_false_right _ _ h),
)

pub thread_fds-append :
    (ts : List HwtThreadCtx) (t : HwtThreadCtx) (x : ℕ)
    → thread_fds (ts ++ t ∷ []) x ≡ one_of t.fd x + thread_fds ts x
unfolding thread_fds
thread_fds-append [] t x = refl
thread_fds-append (u ∷ ts) t x = omega (arith, thread_fds-append ts t x)

pub thread_maps-append :
    (ts : List HwtThreadCtx) (t : HwtThreadCtx) (x : ℕ)
    → thread_maps (ts ++ t ∷ []) x ≡ one_of t.trace_buf x + thread_maps ts x
unfolding thread_maps
thread_maps-append [] t x = refl
thread_maps-append (u ∷ ts) t x = omega (arith, thread_maps-append ts t x)

-- What the mapping of the buffers leaves as it was.
module _ (k : Kernel) (bufsize : ℕ) where
  pub length-map_threads :
      (ts : List HwtThreadCtx) (os : Os) → length (map_threads k bufsize ts os).0 ≡ length ts
  unfolding map_threads
  length-map_threads [] os = refl
  length-map_threads (t ∷ ts) os = ap suc (length-map_threads ts _)

  has_thread-map_threads :
      (tid : ℤ) (ts : List HwtThreadCtx) (os : Os)
      → has_thread tid (map_threads k bufsize ts os).0 ≡ has_thread tid ts
  unfolding map_threads has_thread
  has_thread-map_threads tid [] os = refl
  has_thread-map_threads tid (t ∷ ts) os =
      ap (λ b. eq_ℤ t.thread_id tid || b) (has_thread-map_threads tid ts _)

  pub map_threads-IsDistinct :
      (ts : List HwtThreadCtx) (os : Os)
      → IsDistinct ts
      → IsDistinct (map_threads k bufsize ts os).0
  unfolding map_threads IsDistinct
  map_threads-IsDistinct [] os d = tt
  map_threads-IsDistinct (t ∷ ts) os d =
      (has_thread-map_threads t.thread_id ts _ ∙ d.0, map_threads-IsDistinct ts _ d.1)

  pub map_thread-Balanced :
      {base : Os} {h : ℕ → ℕ} (m : ℕ → ℕ) (fd p : Option ℕ) {os : Os}
      → Balanced base os h (λ x. one_of p x + m x)
      → Balanced base
          (map_thread k bufsize fd p os).1
          h
          (λ x. one_of (map_thread k bufsize fd p os).0 x + m x)
  unfolding map_thread
  map_thread-Balanced m fd (some p) b = b
  map_thread-Balanced m fd none {os = os} b =
      recount (mapped-Balanced b (k.mmap os bufsize fd)) (λ x. refl) (λ x. omega arith)

  pub map_threads-Balanced :
      {base : Os} (h : ℕ → ℕ) (ts : List HwtThreadCtx) (m : ℕ → ℕ) {os : Os}
      → Balanced base os (λ x. h x + thread_fds ts x) (λ x. m x + thread_maps ts x)
      → Balanced base
          (map_threads k bufsize ts os).1
          (λ x. h x + thread_fds (map_threads k bufsize ts os).0 x)
          (λ x. m x + thread_maps (map_threads k bufsize ts os).0 x)
  unfolding map_threads thread_fds thread_maps
  map_threads-Balanced h [] m b = b
  map_threads-Balanced h (t ∷ ts) m {os = os} b =
      let p = map_thread k bufsize t.fd t.trace_buf os in
      let one : Balanced _ p.1 (λ x. (h x + one_of t.fd x) + thread_fds ts x)
          (λ x. one_of p.0 x + (m x + thread_maps ts x)) =
        map_thread-Balanced (λ x. m x + thread_maps ts x) t.fd t.trace_buf
          (recount b (λ x. omega arith) (λ x. omega arith)) in
      recount
        (map_threads-Balanced (λ x. h x + one_of t.fd x) ts (λ x. m x + one_of p.0 x)
          (recount one (λ x. refl) (λ x. omega arith)))
        (λ x. omega arith) (λ x. omega arith)

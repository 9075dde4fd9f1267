-- ===== src/Hwt/Detect.antt =====
-- hwt.c: whether tracing is available.
use observable_bsd.Prelude.{
  ℕ, Bool, true, false, ◌&&◌, ◌||◌, Option, none, some, List, [], ◌∷◌, Bytes, codes, is_empty, ◌==◌,
  if◌then◌else◌,
}
use observable_bsd.Hwt.Process.{Os, opened_fd, close}
use observable_bsd.Hwt.{Kernel}

available_at : Os → Option ℕ → Os × Bool
available_at os none = (os, false)
available_at os (some fd) = (close fd (opened_fd os (some fd)), true)

unfoldable pub hwt_available : Kernel → Os → Os × Bool
unfolding available_at
hwt_available k os = available_at os (k.open_path os (codes "/dev/hwt"))

is_prefix : Bytes → Bytes → Bool
is_prefix [] s = true
is_prefix (c ∷ cs) [] = false
is_prefix (c ∷ cs) (d ∷ s) = c == d && is_prefix cs s

-- strstr(s, needle) != NULL
unfoldable pub contains : Bytes → Bytes → Bool
unfolding is_prefix
contains needle [] = is_empty needle
contains needle (c ∷ s) = is_prefix needle (c ∷ s) || contains needle s

-- Of the kernel's configuration, none where sysctlbyname() fails or calloc() does: 1, 0 or, as
-- none, -1.
unfoldable pub hwt_hooks_enabled : Option Bytes → Option Bool
hwt_hooks_enabled none = none
hwt_hooks_enabled (some conftxt) =
    if is_empty conftxt then none else some (contains (codes "options\tHWT_HOOKS") conftxt)

-- The first name that kldfind() knows.
first_loaded : (Bytes → Bool) → List Bytes → Option Bytes
first_loaded loaded [] = none
first_loaded loaded (name ∷ names) = if loaded name then some name else first_loaded loaded names

unfoldable pub hwt_detect_backend : (Bytes → Bool) → Option Bytes
unfolding first_loaded
hwt_detect_backend loaded = first_loaded loaded (codes "pt" ∷ codes "coresight" ∷ codes "spe" ∷ [])

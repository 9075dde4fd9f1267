-- ===== src/Resolve/Vmmap.antt =====
-- resolve.c: what is read off the VM map of a running process.
use observable_bsd.Prelude.{
  ℕ, ◌*◌, Bool, not, ◌&&◌, Option, none, some, List, [], ◌∷◌, ◌++◌, Bytes, is_empty, bytes_eq,
  strlcpy, leb, ◌==◌, if◌then◌else◌, length, ℤ,
}
use observable_bsd.Types.{PtImageInfo, mmap, maxpathlen}
use observable_bsd.Resolve.{KinfoVmentry, Host}

-- The tests on an entry that both walks share.
abbrev pub is_exec_file : KinfoVmentry → Bool
is_exec_file kve = kve.is_vnode && kve.is_exec && not (is_empty kve.path)

-- while (p < end) of process_load_addr(). An entry of size 0 ends the walk.
load_addr_in : Bytes → List KinfoVmentry → Option ℕ
load_addr_in exe_path [] = none
load_addr_in exe_path (kve ∷ rest) =
    if kve.structsize == 0
    then none
    else if is_exec_file kve && bytes_eq kve.path exe_path
    then some kve.start
    else load_addr_in exe_path rest

unfoldable pub process_load_addr : Host → ℤ → Bytes → Option ℕ
unfolding load_addr_in
process_load_addr host pid exe_path = elim (host.vmmap pid) [
  | none ↦ none
  | some entries ↦ load_addr_in exe_path entries
]

-- sections[nsections], filled in.
abbrev pub mapping_of : KinfoVmentry → PtImageInfo
mapping_of kve = record {
  path = strlcpy kve.path maxpathlen;
  load_addr = kve.start;
  base_addr = 0;
  type = mmap;
}

-- The growth of the array; `grown` says whether realloc() succeeds. None: it fails.
unfoldable pub grow_sections : ℕ → ℕ → Bool → Option ℕ
grow_sections nsections capacity grown =
    if leb capacity nsections
    then if grown then some (if capacity == 0 then 16 else capacity * 2) else none
    else some capacity

-- while (p < end) of process_exec_mmaps(). `grown n` answers the realloc() for entry n.
unfoldable pub exec_mmaps_in :
    (ℕ → Bool) → ℕ → List PtImageInfo → List KinfoVmentry → Option (List PtImageInfo)
unfolding grow_sections
exec_mmaps_in grown capacity sections [] = some sections
exec_mmaps_in grown capacity sections (kve ∷ rest) =
    if kve.structsize == 0
    then some sections
    else if is_exec_file kve
    then elim (grow_sections (length sections) capacity (grown (length sections))) [
      | none ↦ none
      | some cap ↦ exec_mmaps_in grown cap (sections ++ mapping_of kve ∷ []) rest
    ]
    else exec_mmaps_in grown capacity sections rest

unfoldable pub process_exec_mmaps : Host → (ℕ → Bool) → ℤ → Option (List PtImageInfo)
unfolding exec_mmaps_in
process_exec_mmaps host grown pid = elim (host.vmmap pid) [
  | none ↦ none
  | some entries ↦ exec_mmaps_in grown 0 [] entries
]

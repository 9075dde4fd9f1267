-- ===== src/Resolve/Mappings.antt =====
-- The mappings that an attach starts from, and what the offline decode of it reads.
use observable_bsd.Prelude.{
  ℕ, ◌*◌, ◌<◌, ◌≡◌, refl, ap, ◌∙◌, inl, inr, Bool, true, some, List, [], ◌∷◌, ◌++◌, append-nil,
  append_assoc, strlcpy, leb, ◌==◌, if◌then◌else◌, length, ℤ, arith, Bool-cases, if-both,
}
use observable_bsd.Types.{PtImageInfo}
use observable_bsd.Json.Escape.{All}
use observable_bsd.Types.{u64, maxpathlen}
use observable_bsd.Prelude.{strlcpy_fits}
use observable_bsd.Meta.{meta_read_sections}
use observable_bsd.Meta.Offline.{IsPlainPath, IsPlainRecord}
use observable_bsd.Meta.Session.{sidecar}
use observable_bsd.Meta.Seeded.{as_records, IsMapping, attached, meta_read_sections-attached}
use observable_bsd.Trace.Sections.{AllGrown}
use observable_bsd.Types.{BsdtraceRecord}
use observable_bsd.Resolve.{KinfoVmentry, Host}
use observable_bsd.Resolve.Vmmap.{
  is_exec_file, mapping_of, grow_sections, exec_mmaps_in, process_exec_mmaps,
}

-- The entries before the first of size 0.
unfoldable pub walked : List KinfoVmentry → List KinfoVmentry
walked [] = []
walked (kve ∷ rest) = let r = walked rest in if kve.structsize == 0 then [] else kve ∷ r

-- The executable mappings of files among some entries, in order.
unfoldable pub exec_mappings : List KinfoVmentry → List PtImageInfo
exec_mappings [] = []
exec_mappings (kve ∷ rest) =
    let r = exec_mappings rest in if is_exec_file kve then mapping_of kve ∷ r else r

grow_sections-grown :
    (n capacity : ℕ) (grown : Bool)
    → grown ≡ true
    → (c : ℕ) × (grow_sections n capacity grown ≡ some c)
unfolding grow_sections
grow_sections-grown n capacity grown g = elim (Bool-cases (leb capacity n)) [
  | inl e ↦ (if capacity == 0 then 16 else capacity * 2, rw (e, g) refl)
  | inr e ↦ (capacity, rw e refl)
]

exec_mmaps_in-mappings :
    (grown : ℕ → Bool) (capacity : ℕ) (sections : List PtImageInfo) (es : List KinfoVmentry)
    → ((n : ℕ) → grown n ≡ true)
    → exec_mmaps_in grown capacity sections es ≡ some (sections ++ exec_mappings (walked es))
unfolding exec_mmaps_in walked exec_mappings
exec_mmaps_in-mappings grown capacity sections [] g = rw (append-nil sections) refl
exec_mmaps_in-mappings grown capacity sections (e ∷ es) g = elim (Bool-cases (e.structsize == 0)) [
  | inl z ↦ rw (z, append-nil sections) refl
  | inr z ↦ elim (Bool-cases (is_exec_file e)) [
    | inr x ↦ rw (z, x) (exec_mmaps_in-mappings grown capacity sections es g)
    | inl x ↦
        let (c, f) =
          grow_sections-grown (length sections) capacity (grown (length sections))
            (g (length sections)) in
        rw (z, x, f)
          (exec_mmaps_in-mappings grown c (sections ++ mapping_of e ∷ []) es g
            ∙ ap some (append_assoc sections (mapping_of e ∷ []) _))
  ]
]

-- process_exec_mmaps() of a process whose map can be read gives, while there is memory, exactly the
-- executable mappings of files, in the order of the map, up to an entry of size 0.
pub process_exec_mmaps-mappings :
    (host : Host) (grown : ℕ → Bool) (pid : ℤ) (es : List KinfoVmentry)
    → host.vmmap pid ≡ some es
    → AllGrown grown
    → process_exec_mmaps host grown pid ≡ some (exec_mappings (walked es))
unfolding process_exec_mmaps
process_exec_mmaps-mappings host grown pid es e g =
    rw (e, process_exec_mmaps) (exec_mmaps_in-mappings grown 0 [] es g)

-- An entry with a plain path and a 64-bit address.
abbrev pub IsPlainEntry : KinfoVmentry → Type 0
IsPlainEntry e = IsPlainPath e.path × (e.start < u64)

exec_mappings-IsMapping : (es : List KinfoVmentry) → All IsMapping (exec_mappings es)
unfolding exec_mappings
exec_mappings-IsMapping [] = tt
exec_mappings-IsMapping (e ∷ es) =
    if-both (All IsMapping) (is_exec_file e) (refl, exec_mappings-IsMapping es)
      (exec_mappings-IsMapping es)

IsPlainImages : List PtImageInfo → Type 0
IsPlainImages ss = All IsPlainRecord (as_records ss)

mapping_of-IsPlainRecord :
    (e : KinfoVmentry) → IsPlainEntry e → All IsPlainRecord (as_records (mapping_of e ∷ []))
mapping_of-IsPlainRecord e h =
    let l = h.0.1 in
    let fits : strlcpy e.path maxpathlen ≡ e.path = strlcpy_fits e.path maxpathlen (omega arith) in
    (record { path = rw fits h.0; addr = h.1; baseaddr = omega arith }, tt)

exec_mappings-IsPlainImages :
    (es : List KinfoVmentry) → All IsPlainEntry es → IsPlainImages (exec_mappings (walked es))
unfolding exec_mappings walked IsPlainImages
exec_mappings-IsPlainImages [] h = tt
exec_mappings-IsPlainImages (e ∷ es) h = elim (Bool-cases (e.structsize == 0)) [
  | inl z ↦ rw z tt
  | inr z ↦ rw z (
      if-both (λ (ss : List PtImageInfo). All IsPlainRecord (as_records ss)) (is_exec_file e)
        ((mapping_of-IsPlainRecord e h.0).0, exec_mappings-IsPlainImages es h.1)
        (exec_mappings-IsPlainImages es h.1))
]

-- An attach to a process whose map can be read, and whose mappings and records have plain paths and
-- 64-bit addresses, while there is memory: process_exec_mmaps() gives exactly the
-- executable mappings of files before an entry of size 0, and where the trace is seeded with them,
-- reading the sidecar gives exactly the sections that the trace holds in the end.
pub process_exec_mmaps-attached :
    (host : Host) (grown_map grown grown' read_grown : ℕ → Bool) (pid tid : ℤ)
    (mtc_freq cyc_thresh : ℕ) (es : List KinfoVmentry) (rs : List BsdtraceRecord)
    → host.vmmap pid ≡ some es
    → AllGrown grown_map
    → AllGrown grown
    → AllGrown grown'
    → AllGrown read_grown
    → All IsPlainEntry es
    → All IsPlainRecord rs
    → (let ss = exec_mappings (walked es) in
        (process_exec_mmaps host grown_map pid ≡ some ss)
        × (meta_read_sections read_grown
              (sidecar (attached pid tid mtc_freq cyc_thresh grown grown' ss rs).meta)
            ≡ some (attached pid tid mtc_freq cyc_thresh grown grown' ss rs).sections))
process_exec_mmaps-attached host gm g g' rg pid tid mtc_freq cyc_thresh es rs e a b c d h k =
    let ss = exec_mappings (walked es) in
    (
      process_exec_mmaps-mappings host gm pid es e a,
      meta_read_sections-attached g g' rg pid tid mtc_freq cyc_thresh ss rs b c d
          (exec_mappings-IsMapping (walked es))
          (unfold IsPlainImages in exec_mappings-IsPlainImages es h) k,
    )

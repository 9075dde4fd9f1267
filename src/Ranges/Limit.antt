-- ===== src/Ranges/Limit.antt =====
-- build_bin_ranges() never writes past the array that its caller passes.
use observable_bsd.Prelude.{
  ℕ, ◌+◌, ◌≤◌, ◌≡◌, inl, inr, Bool, true, ◌&&◌, Option, none, some, List, [], ◌∷◌, ◌++◌, Bytes, ltb,
  if◌then◌else◌, length, length-append, arith, Bool-cases,
}
use observable_bsd.Types.{PtImageInfo}
use observable_bsd.Sections.{section_should_use}
use observable_bsd.Elf.{Phdr, is_text}
use observable_bsd.Ranges.{
  System, BinRange, add_ranges, add_interp_file, add_interp, add_section_at, add_section,
  build_from, build_bin_ranges,
}

room_for_one :
    (taken : Bool) (r : BinRange) (ranges : List BinRange) (maxranges : ℕ)
    → ltb (length ranges) maxranges ≡ true
    → length (if taken then ranges ++ r ∷ [] else ranges) ≤ maxranges
room_for_one taken r ranges maxranges room = ground (arith, length-append ranges (r ∷ []))

module _ (sys : System) where
  -- A loop that is entered with room for what it holds ends with room for what it holds.
  length-add_ranges :
      (name : Bytes) (copied : Bool) (slide base maxranges : ℕ) (ps : List (Option Phdr))
      (ranges : List BinRange)
      → length ranges ≤ maxranges
      → length (add_ranges sys name copied slide base maxranges ps ranges) ≤ maxranges
  unfolding add_ranges
  length-add_ranges name copied slide base maxranges [] ranges h = h
  length-add_ranges name copied slide base maxranges (none ∷ ps) ranges h =
      ground (arith, length-add_ranges name copied slide base maxranges ps ranges)
  length-add_ranges name copied slide base maxranges (some p ∷ ps) ranges h =
      elim (Bool-cases (ltb (length ranges) maxranges)) [
        | inl room ↦ rw room (
            length-add_ranges name copied slide base maxranges ps _
              (room_for_one (is_text p && copied) _ ranges maxranges room))
        | inr full ↦ rw full h
      ]

  length-add_interp :
      (sections : List PtImageInfo) (s : PtImageInfo) (load_addr maxranges : ℕ)
      (ranges : List BinRange)
      → length ranges ≤ maxranges
      → length (add_interp sys sections s load_addr maxranges ranges) ≤ maxranges
  unfolding add_interp add_interp_file
  length-add_interp sections s load_addr maxranges ranges h = grind (arith, length-add_ranges)

  length-add_section :
      (sections : List PtImageInfo) (s : PtImageInfo) (maxranges : ℕ) (ranges : List BinRange)
      → length ranges ≤ maxranges
      → length (add_section sys sections s maxranges ranges) ≤ maxranges
  unfolding add_section add_section_at
  length-add_section sections s maxranges ranges h =
      grind (arith, length-add_interp, length-add_ranges)

  length-build_from :
      (sections : List PtImageInfo) (i : ℕ) (ss : List PtImageInfo) (maxranges : ℕ)
      (ranges : List BinRange)
      → length ranges ≤ maxranges
      → length (build_from sys sections i ss maxranges ranges) ≤ maxranges
  unfolding build_from
  length-build_from sections i [] maxranges ranges h = h
  length-build_from sections i (s ∷ ss) maxranges ranges h =
      elim (Bool-cases (section_should_use sections i)) [
        | inl used ↦ rw used (
            ground (
              arith,
              length-add_section sections s maxranges ranges,
              length-build_from sections (i + 1) ss maxranges
                  (add_section sys sections s maxranges ranges),
            ))
        | inr unused ↦
            rw unused (ground (arith, length-build_from sections (i + 1) ss maxranges ranges))
      ]

  -- However many binaries and segments there are, the ranges fit the array of the caller.
  pub length-build_bin_ranges :
      (sections : List PtImageInfo) (maxranges : ℕ)
      → length (build_bin_ranges sys sections maxranges) ≤ maxranges
  unfolding build_bin_ranges
  length-build_bin_ranges sections maxranges =
      ground (arith, length-build_from sections 0 sections maxranges [])

-- ===== src/Collapsed/Output.antt =====
-- Sources/bsdtrace/decode.c: the two outputs of the collapsed stacks, collapsed_print() and
-- speedscope_print(), as the values that they print.
use observable_bsd.Prelude.{
  ℕ, suc, ◌+◌, Bool, true, false, ◌||◌, Option, none, some, List, [], ◌∷◌, ◌++◌, Bytes, bytes_eq,
  is_empty, ◌==◌, if◌then◌else◌, length, map,
}
use observable_bsd.Json.{json_escape}
use observable_bsd.Profile.{filter_matches}
use observable_bsd.Collapsed.{CollapsedEntry}

-- The text up to the first ';', and those between and behind the further ones.
unfoldable pub pieces : Bytes → Bytes × List Bytes
pieces [] = ([], [])
pieces (c ∷ cs) = let (w, ws) = pieces cs in if c == b';' then ([], w ∷ ws) else (c ∷ w, ws)

unfoldable pub non_empty : List Bytes → List Bytes
non_empty [] = []
non_empty (w ∷ ws) = let rest = non_empty ws in if is_empty w then rest else w ∷ rest

-- The tokens that the loop over strtok_r(s, ";", &saveptr) sees: what is not empty between two ';'.
unfoldable pub tokens : Bytes → List Bytes
unfolding pieces non_empty
tokens s = let (w, ws) = pieces s in non_empty (w ∷ ws)

-- The text behind the last ':'.
after_colon : Bytes → Option Bytes
after_colon [] = none
after_colon (c ∷ cs) = elim (after_colon cs) [
  | some b ↦ some b
  | none ↦ if c == b':' then some cs else none
]

func_part : Bytes → Bytes
unfolding after_colon
func_part tok = elim (after_colon tok) [ none ↦ tok | some name ↦ name ]

any_matches : List Bytes → List Bytes → Bool
unfolding func_part
any_matches filter [] = false
any_matches filter (tok ∷ toks) =
    filter_matches filter (some (func_part tok)) || any_matches filter toks

-- collapsed_stack_matches(); no options are an empty list of functions.
unfoldable pub collapsed_stack_matches : Bytes → List Bytes → Bool
unfolding any_matches
collapsed_stack_matches stack filter =
    if is_empty filter then true else any_matches filter (tokens stack)

shown_entries : List Bytes → List CollapsedEntry → List CollapsedEntry
shown_entries filter [] = []
shown_entries filter (e ∷ es) =
    let rest = shown_entries filter es in
    if collapsed_stack_matches e.stack filter then e ∷ rest else rest

-- The lines of collapsed_print(), for a qsort() by collapsed_cmp_count().
unfoldable pub collapsed_print :
    (List CollapsedEntry → List CollapsedEntry)
    → List CollapsedEntry
    → List Bytes
    → List CollapsedEntry
unfolding shown_entries
collapsed_print qsort entries filter = shown_entries filter (qsort entries)

unfoldable pub find_frame : List Bytes → Bytes → Option ℕ
find_frame [] name = none
find_frame (f ∷ fs) name =
    let rest = find_frame fs name in
    if bytes_eq f name then some 0 else elim rest [ none ↦ none | some i ↦ some (suc i) ]

-- speedscope_frame_idx(), whose realloc() and strdup() are taken to succeed.
unfoldable pub speedscope_frame_idx : List Bytes → Bytes → ℕ × List Bytes
speedscope_frame_idx frames name = elim (find_frame frames name) [
  | some i ↦ (i, frames)
  | none ↦ (length frames, frames ++ name ∷ [])
]

-- Phase 1: the frames of one stack, and of all.
unfoldable pub collect_frames : List Bytes → List Bytes → List Bytes
collect_frames frames [] = frames
collect_frames frames (tok ∷ toks) = collect_frames (speedscope_frame_idx frames tok).1 toks

unfoldable pub collect_stacks : List Bytes → List CollapsedEntry → List Bytes
collect_stacks frames [] = frames
collect_stacks frames (e ∷ es) = collect_stacks (collect_frames frames (tokens e.stack)) es

-- Phase 2: the indices of one stack, and of all.
unfoldable pub sample_of : List Bytes → List Bytes → List ℕ × List Bytes
sample_of frames [] = ([], frames)
sample_of frames (tok ∷ toks) =
    let (i, frames1) = speedscope_frame_idx frames tok in
    let (is, frames2) = sample_of frames1 toks in (i ∷ is, frames2)

unfoldable pub samples_of : List Bytes → List CollapsedEntry → List (List ℕ)
samples_of frames [] = []
samples_of frames (e ∷ es) =
    let (s, frames1) = sample_of frames (tokens e.stack) in s ∷ samples_of frames1 es

unfoldable pub total_weight : List CollapsedEntry → ℕ
total_weight [] = 0
total_weight (e ∷ es) = e.count + total_weight es

-- What speedscope_print() prints: the names of the frames as json_escape() leaves them in `escaped`, of
-- 256 bytes, the value of endValue, the samples and the weights.
pub record Speedscope : Type 0 where
  pub frames : List Bytes
  pub end_value : ℕ
  pub samples : List (List ℕ)
  pub weights : List ℕ

unfoldable pub speedscope_print : List CollapsedEntry → Speedscope
speedscope_print entries =
    let frames = collect_stacks [] entries in
    record {
      frames = map (json_escape 256) frames;
      end_value = total_weight entries;
      samples = samples_of frames entries;
      weights = map (λ e. e.count) entries;
    }

-- ===== src/Collapsed/Samples.antt =====
-- The samples of speedscope_print() lead back to the stacks.
use mathlib.Core.Option.{some-injective}
use observable_bsd.Prelude.{
  sym, ◌∙◌, ◌+◌, ℕ, ◌≡◌, refl, ap, some, List, [], ◌∷◌, Bytes, get_elem?, map, arith,
}
use observable_bsd.Json.Escape.{All}
use observable_bsd.Json.{json_escape}
use observable_bsd.Collapsed.{CollapsedEntry}
use observable_bsd.Collapsed.Output.{
  tokens, speedscope_frame_idx, collect_stacks, sample_of, samples_of, total_weight,
  speedscope_print,
}
use observable_bsd.Collapsed.Frames.{
  IsFrame, find_frame-get, AreDistinct, collect_stacks-IsFrame, collect_stacks-AreDistinct,
}

-- A stack whose names are all frames adds none, and its indices lead to its names.
sample_of-names :
    (fs toks : List Bytes)
    → All (IsFrame fs) toks
    → ((sample_of fs toks).1 ≡ fs) × (map (get_elem? fs) (sample_of fs toks).0 ≡ map some toks)
unfolding sample_of speedscope_frame_idx
sample_of-names fs [] h = (refl, refl)
sample_of-names fs (t ∷ ts) ((i, e), h) =
    let (same, names) = sample_of-names fs ts h in
    (
      rw (speedscope_frame_idx, e) same,
      rw (speedscope_frame_idx, e, find_frame-get fs t i e, names) refl,
    )

samples_of-names :
    (fs : List Bytes) (es : List CollapsedEntry)
    → All (λ e. All (IsFrame fs) (tokens e.stack)) es
    → map (map (get_elem? fs)) (samples_of fs es) ≡ map (λ e. map some (tokens e.stack)) es
unfolding samples_of
samples_of-names fs [] h = refl
samples_of-names fs (e ∷ es) (p, h) =
    let (same, names) = sample_of-names fs (tokens e.stack) p in
    rw (same, names, samples_of-names fs es h) refl

unfoldable pub sum : List ℕ → ℕ
sum [] = 0
sum (n ∷ ns) = n + sum ns

total_weight-sum : (es : List CollapsedEntry) → total_weight es ≡ sum (map (λ e. e.count) es)
unfolding total_weight sum
total_weight-sum [] = refl
total_weight-sum (e ∷ es) = ap (λ n. e.count + n) (total_weight-sum es)

find_frame-injective :
    (fs : List Bytes)
    → AreDistinct fs
    → (i j : ℕ) (name : Bytes) → get_elem? fs i ≡ some name
    → get_elem? fs j ≡ some name
    → i ≡ j
find_frame-injective fs d i j name a b = some-injective i j (sym (d i name a) ∙ d j name b)

-- speedscope_print() prints the frames, cut and escaped by json_escape() for 256 bytes, of names of
-- which no two are equal. The indices of each sample, which is made after the frames are printed, lead
-- among these to the names between the semicolons of its stack, in order. There is one weight for each
-- sample, the count of the stack, and the end value is their sum.
pub speedscope_print-samples :
    (es : List CollapsedEntry)
    → (names : List Bytes) × ((i j : ℕ) (name : Bytes)
        → get_elem? names i ≡ some name
        → get_elem? names j ≡ some name
        → i ≡ j)
      × ((speedscope_print es).frames ≡ map (json_escape 256) names)
      × (map (map (get_elem? names)) (speedscope_print es).samples
          ≡ map (λ e. map some (tokens e.stack)) es)
      × ((speedscope_print es).weights ≡ map (λ e. e.count) es)
      × ((speedscope_print es).end_value ≡ sum (speedscope_print es).weights)
unfolding speedscope_print
speedscope_print-samples es = (
  collect_stacks [] es,
  find_frame-injective _ (collect_stacks-AreDistinct [] es (λ i name e. absurd (ground arith))),
  refl,
  samples_of-names _ es (collect_stacks-IsFrame [] es),
  refl,
  total_weight-sum es,
)

-- ===== src/Collapsed/Tokens.antt =====
-- The text that collapsed_build_stack() makes of a stack is cut into its names again.
use observable_bsd.Prelude.{
  ◌≤◌, ◌≡◌, refl, true, false, List, [], ◌∷◌, ◌++◌, Bytes, append-nil, is_empty, ◌==◌, length,
}
use observable_bsd.Json.Escape.{All}
use observable_bsd.Collapsed.{string, reverse_onto, collapsed_build_stack}
use observable_bsd.Collapsed.Stack.{join, join_from, collapsed_build_stack-join}
use observable_bsd.Collapsed.Output.{pieces, non_empty, tokens}

-- A name that is not empty and has no ';'.
abbrev pub IsName : Bytes → Type 0
IsName name = (is_empty name ≡ false) × All (λ c. (c == b';') ≡ false) name

pieces-append :
    (name rest : Bytes)
    → All (λ c. (c == b';') ≡ false) name
    → pieces (name ++ rest) ≡ (name ++ (pieces rest).0, (pieces rest).1)
unfolding pieces
pieces-append [] rest h = refl
pieces-append (c ∷ cs) rest (p, h) = rw (pieces, pieces-append cs rest h, p) refl

pieces-join_from :
    (names : List Bytes) → All IsName names → pieces (join_from false names) ≡ ([], names)
unfolding pieces
pieces-join_from [] h = refl
pieces-join_from (n ∷ ns) ((e, p), h) =
    rw (pieces, pieces-append n (join_from false ns) p, pieces-join_from ns h, append-nil n) refl

non_empty-names : (names : List Bytes) → All IsName names → non_empty names ≡ names
unfolding non_empty
non_empty-names [] h = refl
non_empty-names (n ∷ ns) ((e, p), h) = rw (non_empty, e, non_empty-names ns h) refl

tokens-join : (names : List Bytes) → All IsName names → tokens (join names) ≡ names
unfolding tokens
tokens-join [] h = refl
tokens-join (n ∷ ns) ((e, p), h) =
    rw (tokens, pieces-append n (join_from false ns) p, pieces-join_from ns h, append-nil n)
      (non_empty-names (n ∷ ns) ((e, p), h))

All-reverse_onto {ℓ κ} :
    {A : Type ℓ} (P : A → Type κ) (xs ys : List A)
    → All P xs
    → All P ys
    → All P (reverse_onto xs ys)
All-reverse_onto P [] ys h k = k
All-reverse_onto P (x ∷ xs) ys (p, h) k = All-reverse_onto P xs (x ∷ ys) h (p, k)

-- Where strdup() succeeds, no name is empty or has a ';', and the names with a ';' between them have
-- at most 8191 bytes, collapsed_build_stack() gives a string, and the loop over strtok_r() sees in it
-- the names of the stack, from the outermost to the innermost.
pub tokens-collapsed_build_stack :
    (n : Bytes) (names : List Bytes)
    → All IsName (n ∷ names)
    → length (join (reverse_onto names (n ∷ []))) ≤ 8191
    → (text : Bytes) × (collapsed_build_stack true (n ∷ names) ≡ string text)
      × (tokens text ≡ reverse_onto names (n ∷ []))
tokens-collapsed_build_stack n names (p, h) l = (
  join (reverse_onto names (n ∷ [])),
  collapsed_build_stack-join n names l,
  tokens-join (reverse_onto names (n ∷ [])) (All-reverse_onto IsName names (n ∷ []) h (p, tt)),
)

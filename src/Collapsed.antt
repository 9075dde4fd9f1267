-- ===== src/Collapsed.antt =====
-- Sources/bsdtrace/decode.c: the collapsed stacks, which count the call stacks that a trace returns
-- from. The shadow stack is a list with the innermost function first.
pub mod Stack
pub mod Limits
pub mod Total
pub mod Output
pub mod Tokens
pub mod Frames
pub mod Samples
use observable_bsd.Prelude.{
  ℕ, zero, suc, ◌+◌, ◌-◌, ◌*◌, Bool, true, false, not, ◌&&◌, ◌||◌, Option, none, some, List, [],
  ◌∷◌, ◌++◌, Bytes, bytes_eq, ltb, leb, ◌==◌, if◌then◌else◌, length, take,
}
use observable_bsd.Symbols.{SymEntry}
use observable_bsd.Decode.{InsnClass, return, far_return}
use observable_bsd.Profile.{after_call}

abbrev pub max_collapsed_stacks : ℕ
max_collapsed_stacks = 4096

abbrev pub max_stack_depth : ℕ
max_stack_depth = 256

-- sizeof(buf) - 1
abbrev pub last_byte : ℕ
last_byte = 8191

-- struct collapsed_entry
pub record CollapsedEntry : Type 0 where
  pub stack : Bytes
  pub count : ℕ

-- struct collapsed; `count` is the length of `entries`, and `depth` that of `names`.
pub record Collapsed : Type 0 where
  pub entries : List CollapsedEntry
  pub capacity : ℕ
  pub names : List Bytes
  pub prev_class : InsnClass

abbrev pub collapsed_init : Collapsed
collapsed_init = record { entries = []; capacity = 0; names = []; prev_class = InsnClass.plain }

-- The loop of collapsed_build_stack(), from the outermost function on: the bytes in `buf`, and
-- `off`. snprintf() writes what fits and returns the length of the whole name.
build_from : Bool → List Bytes → Bytes → ℕ → Bytes × ℕ
build_from first [] text off = (text, off)
build_from first (name ∷ names) text off =
    let sep = not first && ltb off last_byte in
    let off1 = if sep then off + 1 else off in
    let text1 = (if sep then text ++ b';' ∷ [] else text) ++ take (last_byte - off1) name in
    let rest = build_from false names text1 (off1 + length name) in
    if leb last_byte (off1 + length name) then (text1, off1 + length name) else rest

-- What collapsed_build_stack() gives: NULL, a string, or nothing, since it has written the NUL
-- behind the end of `buf`.
pub data Built : Type 0 where
  null : Built
  string : Bytes → Built
  overrun : Built

end_string : Bytes × ℕ → Built
end_string (text, off) = if leb off last_byte then string text else overrun

abbrev pub reverse_onto {ℓ} : {A : Type ℓ} → List A → List A → List A
reverse_onto [] ys = ys
reverse_onto (x ∷ xs) ys = reverse_onto xs (x ∷ ys)

-- `copied` is whether strdup() succeeds.
unfoldable pub collapsed_build_stack : Bool → List Bytes → Built
unfolding build_from end_string
collapsed_build_stack copied [] = null
collapsed_build_stack copied (n ∷ names) =
    elim (end_string (build_from true (reverse_onto names (n ∷ [])) [] 0)) [
      | null ↦ null
      | string text ↦ if copied then string text else null
      | overrun ↦ overrun
    ]

-- The search for an entry, which counts it.
unfoldable pub count_found : Bytes → List CollapsedEntry → Option (List CollapsedEntry)
count_found stack [] = none
count_found stack (e ∷ es) =
    let rest = count_found stack es in
    if bytes_eq e.stack stack
    then some (record e { count = e.count + 1 } ∷ es)
    else elim rest [ none ↦ none | some es' ↦ some (e ∷ es') ]

-- newcap, with its limit.
abbrev pub new_cap : ℕ → ℕ
new_cap capacity =
    let newcap = if capacity == 0 then 256 else capacity * 2 in
    if ltb max_collapsed_stacks newcap then max_collapsed_stacks else newcap

add_stack : Collapsed → Bool → Bytes → Collapsed
add_stack col grown stack =
    if not (leb col.capacity (length col.entries))
    then record col { entries = col.entries ++ record { stack = stack; count = 1 } ∷ [] }
    else if leb (new_cap col.capacity) (length col.entries)
    then col
    else if grown
    then record col {
      capacity = new_cap col.capacity;
      entries = col.entries ++ record { stack = stack; count = 1 } ∷ [];
    }
    else col

pub count_string : Collapsed → Bool → Bytes → Collapsed
count_string col grown stack = elim (count_found stack col.entries) [
  | some entries ↦ record col { entries = entries }
  | none ↦ add_stack col grown stack
]

-- None: the write behind the buffer.
unfoldable pub collapsed_count_stack : Collapsed → Bool → Bool → Option Collapsed
unfolding add_stack count_string
collapsed_count_stack col copied grown = elim (collapsed_build_stack copied col.names) [
  | null ↦ some col
  | string stack ↦ some (count_string col grown stack)
  | overrun ↦ none
]

-- The arguments of collapsed_record(), and the allocators' answers.
pub record Seen : Type 0 where
  pub sym : Option SymEntry
  pub ip : ℕ
  pub iclass : InsnClass
  pub copied : Bool
  pub grown : Bool

push_entry : Collapsed → Seen → Option SymEntry → Collapsed
push_entry col x none = col
push_entry col x (some s) =
    if x.ip == s.addr && after_call col.prev_class && ltb (length col.names) max_stack_depth
    then record col { names = s.name.text ∷ col.names }
    else col

abbrev pop_name {ℓ} : {A : Type ℓ} → List A → List A
pop_name [] = []
pop_name (n ∷ names) = names

-- The second `if`, on returns.
leave_entry : Collapsed → Seen → Option Collapsed
leave_entry col x = elim (collapsed_count_stack col x.copied x.grown) [
  | none ↦ none
  | some col' ↦ some (record col' { names = pop_name col'.names })
]

abbrev pub is_return : InsnClass → Bool
is_return return = true
is_return far_return = true
is_return _ = false

unfoldable pub collapsed_record : Collapsed → Seen → Option Collapsed
unfolding push_entry leave_entry
collapsed_record col x =
    elim (if is_return x.iclass
      then leave_entry (push_entry col x x.sym) x
      else some (push_entry col x x.sym)) [
        | none ↦ none
        | some col' ↦ some (record col' { prev_class = x.iclass })
      ]

unfoldable pub collapsed_all : Collapsed → List Seen → Option Collapsed
collapsed_all col [] = some col
collapsed_all col (x ∷ xs) = elim (collapsed_record col x) [
  | none ↦ none
  | some col' ↦ collapsed_all col' xs
]

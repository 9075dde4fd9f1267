-- ===== src/Collapsed/Total.antt =====
-- Collapsed stacks never write behind their buffer while function names are short, and keep their
-- limits.
use observable_bsd.Prelude.{
  ◌≤◌, ◌<◌, ◌≡◌, refl, inl, inr, Bool, true, false, ◌&&◌, Option, none, some, List, [], ◌∷◌, Bytes,
  ltb, ◌==◌, length, arith, Bool-cases,
}
use observable_bsd.Symbols.{SymEntry}
use observable_bsd.Profile.{after_call}
use observable_bsd.Collapsed.{
  Collapsed, collapsed_init, null, string, reverse_onto, collapsed_build_stack, count_string,
  collapsed_count_stack, Seen, push_entry, pop_name, leave_entry, is_return, collapsed_record,
  collapsed_all,
}
use observable_bsd.Collapsed.Limits.{
  Short, Short-reverse_onto, length-reverse_onto, length-join, IsCollapsed,
  count_string-IsCollapsed,
}
use observable_bsd.Collapsed.Stack.{join, collapsed_build_stack-join, collapsed_build_stack-no_copy}

-- A state of a run: there is one, and it keeps the limits.
IsFine : Option Collapsed → Type 0
IsFine o = (col : Collapsed) × (o ≡ some col) × IsCollapsed col

count_null :
    (col : Collapsed) (copied grown : Bool)
    → collapsed_build_stack copied col.names ≡ null
    → IsCollapsed col
    → IsFine (collapsed_count_stack col copied grown)
unfolding IsFine collapsed_count_stack
count_null col copied grown e h = (col, rw (collapsed_count_stack, e) refl, h)

count_text :
    (col : Collapsed) (copied grown : Bool) (text : Bytes)
    → collapsed_build_stack copied col.names ≡ string text
    → IsCollapsed col
    → IsFine (collapsed_count_stack col copied grown)
unfolding IsFine collapsed_count_stack
count_text col copied grown text e h = (
  count_string col grown text,
  rw (collapsed_count_stack, e) refl,
  count_string-IsCollapsed col grown text h,
)

count_names-IsFine :
    (col : Collapsed) (copied grown : Bool) (names : List Bytes)
    → col.names ≡ names
    → IsCollapsed col
    → IsFine (collapsed_count_stack col copied grown)
count_names-IsFine col copied grown [] e h =
    count_null col copied grown (rw e (unfold collapsed_build_stack in refl)) h
count_names-IsFine col copied grown (n ∷ names) e h =
    let s : Short (n ∷ names) = rw e at (h.short) in
    let d : length (n ∷ names) ≤ 256 = rw e at (h.depth) in
    let b =
      length-join (reverse_onto names (n ∷ [])) (Short-reverse_onto names (n ∷ []) s.1 (s.0, tt)) in
    let r = length-reverse_onto names (n ∷ []) in
    let fits : length (join (reverse_onto names (n ∷ []))) ≤ 8191 = omega arith in
    elim copied as (λ c. IsFine (collapsed_count_stack col c grown)) [
      | true ↦
          count_text col true grown (join (reverse_onto names (n ∷ [])))
            (rw e (collapsed_build_stack-join n names fits)) h
      | false ↦ count_null col false grown (rw e (collapsed_build_stack-no_copy n names fits)) h
    ]

-- The symbols of a run have short names.
abbrev pub HasShortName : Option SymEntry → Type 0
HasShortName none = Unit
HasShortName (some s) = length s.name.text ≤ 31

abbrev pub AllShort : List Seen → Type 0
AllShort [] = Unit
AllShort (x ∷ xs) = HasShortName x.sym × AllShort xs

push_entry-IsCollapsed :
    (col : Collapsed) (x : Seen) (o : Option SymEntry)
    → HasShortName o
    → IsCollapsed col
    → IsCollapsed (push_entry col x o)
unfolding push_entry
push_entry-IsCollapsed col x none s h = h
push_entry-IsCollapsed col x (some y) s h =
    elim (Bool-cases (x.ip == y.addr && after_call col.prev_class && ltb (length col.names) 256)) [
      | inl e ↦
          let l : length col.names < 256 = ground arith in
          rw e
            (record { depth = omega arith; room = h.room; limit = h.limit; short = (s, h.short) })
      | inr e ↦ rw e h
    ]

pop_name-Short :
    (names : List Bytes)
    → Short names
    → Short (pop_name names) × (length (pop_name names) ≤ length names)
pop_name-Short [] h = (tt, omega arith)
pop_name-Short (n ∷ names) h = (h.1, omega arith)

leave_entry-IsFine : (col : Collapsed) (x : Seen) → IsCollapsed col → IsFine (leave_entry col x)
unfolding IsFine leave_entry
leave_entry-IsFine col x h =
    let (k, e, f) = count_names-IsFine col x.copied x.grown col.names refl h in
    let p = pop_name-Short k.names f.short in
    let q = p.1 in
    let d = f.depth in
    (
      record k { names = pop_name k.names },
      rw (leave_entry, e) refl,
      record { depth = omega arith; room = f.room; limit = f.limit; short = p.0 },
    )

record-IsFine :
    (col : Collapsed) (x : Seen)
    → HasShortName x.sym
    → IsCollapsed col
    → IsFine (collapsed_record col x)
unfolding IsFine collapsed_record
record-IsFine col x s h =
    let pushed = push_entry-IsCollapsed col x x.sym s h in
    elim (Bool-cases (is_return x.iclass)) [
      | inl r ↦
          let (k, e, f) = leave_entry-IsFine (push_entry col x x.sym) x pushed in
          (
            record k { prev_class = x.iclass },
            rw (collapsed_record, r, e) refl,
            record { depth = f.depth; room = f.room; limit = f.limit; short = f.short },
          )
      | inr r ↦ (
        record (push_entry col x x.sym) { prev_class = x.iclass },
        rw (collapsed_record, r) refl,
        record {
          depth = pushed.depth;
          room = pushed.room;
          limit = pushed.limit;
          short = pushed.short;
        },
      )
    ]

all-IsFine :
    (col : Collapsed) (xs : List Seen)
    → AllShort xs
    → IsCollapsed col
    → IsFine (collapsed_all col xs)
unfolding IsFine collapsed_all
all-IsFine col [] s h = (col, refl, h)
all-IsFine col (x ∷ xs) s h =
    let (k, e, f) = record-IsFine col x s.0 h in
    let (k', e', f') = all-IsFine k xs s.1 f in (k', rw (collapsed_all, e) e', f')

-- While no function's name has more than 31 bytes, any run of instructions goes through: no stack's
-- text is written behind the end of the 8192-byte buffer; and in the end the shadow stack has at
-- most 256 functions, the entries fill no more than their array, and the array has at most 4096.
pub collapsed_all-IsCollapsed :
    (xs : List Seen)
    → AllShort xs
    → (col : Collapsed) × (collapsed_all collapsed_init xs ≡ some col) × IsCollapsed col
unfolding IsFine
collapsed_all-IsCollapsed xs s =
    all-IsFine collapsed_init xs s
      (record { depth = omega arith; room = omega arith; limit = omega arith; short = tt })

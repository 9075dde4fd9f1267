-- ===== src/Profile.antt =====
-- Sources/bsdtrace/decode.c: the profile of a decode, one entry for each function seen, and the
-- filter on function names. The source line that a new entry gets is an argument; the module Dwarf has
-- its lookup.
pub mod Counts
use observable_bsd.Prelude.{
  ℕ, zero, suc, ◌+◌, ◌-◌, ◌*◌, Bool, true, false, not, ◌&&◌, ◌||◌, Option, none, some, List, [],
  ◌∷◌, ◌++◌, Bytes, bytes_eq, is_empty, ltb, leb, ◌==◌, if◌then◌else◌, length,
}
use observable_bsd.Types.{CStr, same_ptr, sub64, add64}
use observable_bsd.Symbols.{SymEntry}
use observable_bsd.Decode.{InsnClass, call, return, jump, cond_jump, far_call, far_return}

-- struct profile_entry; the source file and line are one optional pair.
pub record ProfileEntry : Type 0 where
  pub name : CStr
  pub binary : CStr
  pub calls : ℕ
  pub returns : ℕ
  pub branches : ℕ
  pub cumulative_tsc : ℕ
  pub entry_tsc : ℕ
  pub source : Option (Bytes × ℕ)

-- struct profile; `count` is the length of `entries`.
pub record Profile : Type 0 where
  pub entries : List ProfileEntry
  pub capacity : ℕ
  pub prev_class : InsnClass

-- memset() to 0, which is ptic_error as a class.
abbrev pub profile_init : Profile
profile_init = record { entries = []; capacity = 0; prev_class = InsnClass.plain }

-- The arguments of one profile_record() with a symbol, and what it gets from outside: whether
-- realloc() succeeds, and the source line that the DWARF lookup of a new entry gives.
pub record Sample : Type 0 where
  pub sym : SymEntry
  pub ip : ℕ
  pub iclass : InsnClass
  pub tsc : ℕ
  pub grown : Bool
  pub source : Option (Bytes × ℕ)

-- The names are compared by pointer.
abbrev pub is_entry_of : SymEntry → ProfileEntry → Bool
is_entry_of sym e = same_ptr e.name sym.name && same_ptr e.binary sym.binary

-- prev_class == ptic_call || prev_class == ptic_far_call
abbrev pub after_call : InsnClass → Bool
after_call call = true
after_call far_call = true
after_call _ = false

-- What happens to the entry that was found or made.
enter : InsnClass → Sample → ProfileEntry → ProfileEntry
enter prev_class x e =
    if x.ip == x.sym.addr && after_call prev_class
    then record e { calls = e.calls + 1; entry_tsc = if ltb 0 x.tsc then x.tsc else e.entry_tsc }
    else e

leave : Sample → ProfileEntry → ProfileEntry
leave x e =
    if ltb 0 x.tsc && ltb 0 e.entry_tsc && ltb e.entry_tsc x.tsc
    then record e {
      returns = e.returns + 1;
      cumulative_tsc = add64 e.cumulative_tsc (x.tsc - e.entry_tsc);
      entry_tsc = 0;
    }
    else record e { returns = e.returns + 1 }

by_class : InsnClass → Sample → ProfileEntry → ProfileEntry
by_class return x e = leave x e
by_class far_return x e = leave x e
by_class jump x e = record e { branches = e.branches + 1 }
by_class cond_jump x e = record e { branches = e.branches + 1 }
by_class _ x e = e

unfoldable pub update_entry : InsnClass → Sample → ProfileEntry → ProfileEntry
unfolding enter leave by_class
update_entry prev_class x e = by_class x.iclass x (enter prev_class x e)

-- The first entry of the symbol, updated; none where there is no entry.
unfoldable pub update_found : InsnClass → Sample → List ProfileEntry → Option (List ProfileEntry)
update_found prev_class x [] = none
update_found prev_class x (e ∷ es) =
    let rest = update_found prev_class x es in
    if is_entry_of x.sym e
    then some (update_entry prev_class x e ∷ es)
    else elim rest [ none ↦ none | some es' ↦ some (e ∷ es') ]

unfoldable pub new_entry : Sample → ProfileEntry
new_entry x = record {
  name = x.sym.name;
  binary = x.sym.binary;
  calls = 0;
  returns = 0;
  branches = 0;
  cumulative_tsc = 0;
  entry_tsc = 0;
  source = x.source;
}

-- A new entry at the end; none where realloc() fails.
add_entry : Profile → Sample → Option Profile
add_entry p x =
    if not (leb p.capacity (length p.entries))
    then some (record p { entries = p.entries ++ update_entry p.prev_class x (new_entry x) ∷ [] })
    else if x.grown
    then some (record p {
      capacity = if p.capacity == 0 then 128 else p.capacity * 2;
      entries = p.entries ++ update_entry p.prev_class x (new_entry x) ∷ [];
    })
    else none

-- profile_record() with a symbol. Where there is no memory for an entry, nothing changes, not even
-- prev_class.
unfoldable pub profile_record : Profile → Sample → Profile
unfolding add_entry
profile_record p x = elim (update_found p.prev_class x p.entries) [
  | some entries ↦ record p { entries = entries; prev_class = x.iclass }
  | none ↦ elim (add_entry p x) [ none ↦ p | some p' ↦ record p' { prev_class = x.iclass } ]
]

-- A decode calls profile_record() for every instruction, and it ignores those without a symbol.
unfoldable pub profile_all : Profile → List (Option Sample) → Profile
profile_all p [] = p
profile_all p (none ∷ xs) = profile_all p xs
profile_all p (some x ∷ xs) = profile_all (profile_record p x) xs

-- filter_matches(): no options are an empty list of functions; a NULL name is none.
filter_in : List Bytes → Bytes → Bool
filter_in [] name = false
filter_in (f ∷ fs) name = bytes_eq f name || filter_in fs name

unfoldable pub filter_matches : List Bytes → Option Bytes → Bool
unfolding filter_in
filter_matches filter name =
    if is_empty filter then true else elim name [ none ↦ false | some n ↦ filter_in filter n ]

-- The lines of profile_print() after its sort: an entry is shown if something was counted and the
-- filter lets it through.
is_shown : List Bytes → ProfileEntry → Bool
is_shown filter e =
    not (e.calls == 0 && e.returns == 0 && e.branches == 0)
    && filter_matches filter (some e.name.text)

unfoldable pub profile_shown : List Bytes → List ProfileEntry → List ProfileEntry
unfolding is_shown
profile_shown filter [] = []
profile_shown filter (e ∷ es) =
    let rest = profile_shown filter es in if is_shown filter e then e ∷ rest else rest

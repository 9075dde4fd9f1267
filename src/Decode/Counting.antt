-- ===== src/Decode/Counting.antt =====
-- The counters of the decode, for any run of the decoder.
use observable_bsd.Prelude.{
  ℕ, suc, ◌+◌, ◌<◌, ◌≡◌, ◌∙◌, Bool, true, false, some, List, [], ◌∷◌, arith, length, if◌then◌else◌,
}
use observable_bsd.Decode.{
  return, far_call, ok, eos, nomap, failed, InsnClass, call, jump, cond_jump, Insn, Event,
  ptev_overflow, Decoder, decode_trace, Counters, no_counts, count_event, count_error, count_class,
  count_insn, counters_sink,
}
use observable_bsd.Decode.Loop.{Step, saw, lost, got, feed, Run, Progress, decode_trace-Run}

-- The instructions of a run, in order, and the number of its steps of each other kind.
abbrev pub insns : List Step → List Insn
insns [] = []
insns (got insn ∷ xs) = insn ∷ insns xs
insns (_ ∷ xs) = insns xs

-- The steps that are lost for want of an image, and for any other error.
abbrev pub nomaps_of : List Step → ℕ
nomaps_of [] = 0
nomaps_of (lost nomap ∷ xs) = suc (nomaps_of xs)
nomaps_of (_ ∷ xs) = nomaps_of xs

abbrev pub errors_of : List Step → ℕ
errors_of [] = 0
errors_of (lost nomap ∷ xs) = errors_of xs
errors_of (lost e ∷ xs) = suc (errors_of xs)
errors_of (_ ∷ xs) = errors_of xs

abbrev pub is_overflow : Event → Bool
is_overflow ptev_overflow = true
is_overflow _ = false

abbrev pub overflows_of : List Step → ℕ
overflows_of [] = 0
overflows_of (saw ev ∷ xs) = (if is_overflow ev then 1 else 0) + overflows_of xs
overflows_of (_ ∷ xs) = overflows_of xs

abbrev pub count {ℓ} : {A : Type ℓ} → (A → Bool) → List A → ℕ
count f [] = 0
count f (x ∷ xs) = (if f x then 1 else 0) + count f xs

abbrev pub is_branch : InsnClass → Bool
is_branch jump = true
is_branch cond_jump = true
is_branch _ = false

abbrev pub is_call : InsnClass → Bool
is_call call = true
is_call _ = false

abbrev pub is_return : InsnClass → Bool
is_return return = true
is_return _ = false

abbrev pub is_syscall : InsnClass → Bool
is_syscall far_call = true
is_syscall _ = false

-- What a run leaves in the counters.
pub record Counted (steps : List Step) (c c' : Counters) : Type 0 where
  pub total : c'.total ≡ length (insns steps) + c.total
  pub calls : c'.calls ≡ count (λ i. is_call i.iclass) (insns steps) + c.calls
  pub branches : c'.branches ≡ count (λ i. is_branch i.iclass) (insns steps) + c.branches
  pub returns : c'.returns ≡ count (λ i. is_return i.iclass) (insns steps) + c.returns
  pub syscalls : c'.syscalls ≡ count (λ i. is_syscall i.iclass) (insns steps) + c.syscalls
  pub nomaps : c'.nomaps ≡ nomaps_of steps + c.nomaps
  pub errors : c'.errors ≡ errors_of steps + c.errors
  pub overflows : c'.ovf_count ≡ overflows_of steps + c.ovf_count

feed-counters : (steps : List Step) (c : Counters) → Counted steps c (feed counters_sink steps c)
unfolding count_event count_error count_insn count_class
feed-counters [] c = record {
  total = omega arith;
  calls = omega arith;
  branches = omega arith;
  returns = omega arith;
  syscalls = omega arith;
  nomaps = omega arith;
  errors = omega arith;
  overflows = omega arith;
}
feed-counters (saw ev ∷ xs) c =
    let f = feed-counters xs (count_event ev c) in
    record {
      total = f.total ∙ ground arith;
      calls = f.calls ∙ ground arith;
      branches = f.branches ∙ ground arith;
      returns = f.returns ∙ ground arith;
      syscalls = f.syscalls ∙ ground arith;
      nomaps = f.nomaps ∙ ground arith;
      errors = f.errors ∙ ground arith;
      overflows = f.overflows ∙ ground arith;
    }
feed-counters (lost (ok pending) ∷ xs) c =
    let f = feed-counters xs (count_error (ok pending) c) in
    record {
      total = f.total ∙ ground arith;
      calls = f.calls ∙ ground arith;
      branches = f.branches ∙ ground arith;
      returns = f.returns ∙ ground arith;
      syscalls = f.syscalls ∙ ground arith;
      nomaps = f.nomaps ∙ ground arith;
      errors = f.errors ∙ ground arith;
      overflows = f.overflows ∙ ground arith;
    }
feed-counters (lost eos ∷ xs) c =
    let f = feed-counters xs (count_error eos c) in
    record {
      total = f.total ∙ ground arith;
      calls = f.calls ∙ ground arith;
      branches = f.branches ∙ ground arith;
      returns = f.returns ∙ ground arith;
      syscalls = f.syscalls ∙ ground arith;
      nomaps = f.nomaps ∙ ground arith;
      errors = f.errors ∙ ground arith;
      overflows = f.overflows ∙ ground arith;
    }
feed-counters (lost nomap ∷ xs) c =
    let f = feed-counters xs (count_error nomap c) in
    record {
      total = f.total ∙ ground arith;
      calls = f.calls ∙ ground arith;
      branches = f.branches ∙ ground arith;
      returns = f.returns ∙ ground arith;
      syscalls = f.syscalls ∙ ground arith;
      nomaps = f.nomaps ∙ ground arith;
      errors = f.errors ∙ ground arith;
      overflows = f.overflows ∙ ground arith;
    }
feed-counters (lost failed ∷ xs) c =
    let f = feed-counters xs (count_error failed c) in
    record {
      total = f.total ∙ ground arith;
      calls = f.calls ∙ ground arith;
      branches = f.branches ∙ ground arith;
      returns = f.returns ∙ ground arith;
      syscalls = f.syscalls ∙ ground arith;
      nomaps = f.nomaps ∙ ground arith;
      errors = f.errors ∙ ground arith;
      overflows = f.overflows ∙ ground arith;
    }
feed-counters (got insn ∷ xs) c =
    let f = feed-counters xs (count_insn insn c) in
    record {
      total = f.total ∙ ground arith;
      calls = f.calls ∙ ground arith;
      branches = f.branches ∙ ground arith;
      returns = f.returns ∙ ground arith;
      syscalls = f.syscalls ∙ ground arith;
      nomaps = f.nomaps ∙ ground arith;
      errors = f.errors ∙ ground arith;
      overflows = f.overflows ∙ ground arith;
    }

module _ {D : Type 0} (dec : Decoder D) (left : D → ℕ) (progress : Progress dec left) where
  -- With more fuel than is left of the trace, and a decoder that uses it up, decode_pt_insn()'s
  -- loop ends; and there is a run of the decoder such that `total`, `calls`, `returns`, `syscalls` and
  -- `branches` are the numbers of its instructions, of its calls, returns and far calls, and of its
  -- jumps and conditional jumps, `nomaps` is the
  -- number of its steps that are lost for want of an image, `errors` that of the steps lost for another
  -- error, and `ovf_count` the number of its overflow events.
  pub decode_trace-counters :
      (fuel : ℕ) (d : D)
      → left d < fuel
      → (steps : List Step) × Run dec (dec.sync_forward d).0 (dec.sync_forward d).1 steps
        × (c : Counters) × (decode_trace dec counters_sink fuel d no_counts ≡ some c)
        × Counted steps no_counts c
  decode_trace-counters fuel d h =
      let (steps, run, feeds) = decode_trace-Run dec left progress fuel d h in
      (
        steps,
        run,
        feed counters_sink steps no_counts,
        feeds _ counters_sink no_counts,
        feed-counters steps no_counts,
      )

-- ===== src/Tests/Decoding.antt =====
-- Examples for the decode loop, the extent of a snapshot, and the reports.
use observable_bsd.Prelude.{
  map, get_elem?, ℕ, zero, suc, ◌≡◌, ◌≤◌, ◌<◌, refl, true, false, Option, none, some, List, [], ◌∷◌,
  Bytes, codes, length, pos, arith, ltb, if◌then◌else◌,
}
use observable_bsd.Prelude.Lists.{replicate, length-replicate}
use observable_bsd.Types.{buffer, BsdtraceRecord}
use observable_bsd.Symbols.{SymEntry}
use observable_bsd.Decode.{
  call, jump, return, plain, Insn, ptev_overflow, Status, ok, eos, Decoder, Sink, is_ok,
  decode_trace, Counters, no_counts, counters_sink,
}
use observable_bsd.Decode.Loop.{Step, Run, Progress, feed, decode_trace-Run}
use observable_bsd.Decode.Counting.{Counted, decode_trace-counters}
use observable_bsd.Trace.{trace_state_init}
use observable_bsd.Snapshot.{
  Polled, pt_scan_last_nonzero, choose_snapshot_len, process_batch, trace_state_drain_post_stop,
}
use observable_bsd.Snapshot.Extent.{IsChoice, choose_snapshot_len-IsChoice}
use observable_bsd.Snapshot.Drain.{delivered, trace_state_drain_post_stop-delivered}
use observable_bsd.Profile.{Sample, profile_init, profile_all}
use observable_bsd.Profile.Counts.{
  HasMemory, value, is_branch, is_return, is_entry, count_samples, profile_all-counts,
}
use observable_bsd.Collapsed.{
  CollapsedEntry, reverse_onto, string, Collapsed, collapsed_init, overrun, collapsed_build_stack,
  Seen, collapsed_all,
}
use observable_bsd.Collapsed.Stack.{collapsed_build_stack-overrun}
use observable_bsd.Collapsed.Limits.{IsCollapsed}
use observable_bsd.Collapsed.Total.{collapsed_all-IsCollapsed}
use observable_bsd.Collapsed.Output.{tokens, speedscope_print}
use observable_bsd.Json.{json_escape}
use observable_bsd.Collapsed.Samples.{sum, speedscope_print-samples}
use observable_bsd.Collapsed.Tokens.{tokens-collapsed_build_stack}

-- A decoder that counts down: at each number but 0 it has an instruction there, at 0 the trace ends.
abbrev an_insn : ℕ → Insn
an_insn d = record { ip = d; iclass = jump }

abbrev countdown_step : ℕ → Status × Insn × ℕ
countdown_step zero = (eos, an_insn 0, 0)
countdown_step (suc d) = (ok false, an_insn d, d)

abbrev countdown_sync : ℕ → Status × ℕ
countdown_sync zero = (eos, 0)
countdown_sync (suc d) = (ok false, d)

abbrev countdown : Decoder ℕ
countdown = record {
  sync_forward = countdown_sync;
  event = λ d. (eos, ptev_overflow, d);
  next = countdown_step;
}

abbrev whole : ℕ → ℕ
whole d = d

next_uses : (d : ℕ) → is_ok (countdown_step d).0 ≡ true → (countdown_step d).2 < d
next_uses zero h = ground arith
next_uses (suc d) h = omega arith

next_keeps : (d : ℕ) → (countdown_step d).2 ≤ d
next_keeps zero = omega arith
next_keeps (suc d) = omega arith

sync_uses : (d : ℕ) → is_ok (countdown_sync d).0 ≡ true → (countdown_sync d).1 < d
sync_uses zero h = ground arith
sync_uses (suc d) h = omega arith

progress : Progress countdown whole
progress = record {
  event_uses = λ d h. ground arith;
  next_uses = next_uses;
  next_keeps = next_keeps;
  sync_uses = sync_uses;
}

decode_trace-Run_example :
    (steps : List Step) × Run countdown (countdown_sync 3).0 (countdown_sync 3).1 steps
    × ((S : Type 0) (sink : Sink S) (s : S)
        → decode_trace countdown sink 4 3 s ≡ some (feed sink steps s))
decode_trace-Run_example = decode_trace-Run countdown whole progress 4 3 (omega arith)

decode_trace-counters_example :
    (steps : List Step) × Run countdown (countdown_sync 3).0 (countdown_sync 3).1 steps
    × (c : Counters) × (decode_trace countdown counters_sink 4 3 no_counts ≡ some c)
    × Counted steps no_counts c
decode_trace-counters_example = decode_trace-counters countdown whole progress 4 3 (omega arith)

abbrev data_bytes : Bytes
data_bytes = 1 ∷ 0 ∷ 7 ∷ 0 ∷ 0 ∷ []

choose_snapshot_len-IsChoice_example :
    IsChoice
      (if ltb (length data_bytes) 4 then length data_bytes else 4)
      (pt_scan_last_nonzero data_bytes (length data_bytes))
      (length data_bytes)
      (choose_snapshot_len (λ n. none) (some data_bytes) 4 true)
choose_snapshot_len-IsChoice_example =
    choose_snapshot_len-IsChoice (λ n. none) data_bytes 4 true (omega arith)

abbrev late_record : BsdtraceRecord
late_record = record {
  type = buffer;
  fullpath = [];
  addr = 0;
  baseaddr = 0;
  buf_id = pos 0;
  curpage = pos 3;
  offset = 0;
  thread_id = pos 7;
}

abbrev polls : List (Option (List Polled))
polls = some [] ∷ some ((late_record, true) ∷ []) ∷ none ∷ []

trace_state_drain_post_stop-delivered_example :
    (trace_state_drain_post_stop 200 polls (trace_state_init none)
      ≡ some (process_batch (delivered 40 polls) (trace_state_init none) 0))
    × ((process_batch (delivered 40 polls) (trace_state_init none) 0).1
        ≡ length (delivered 40 polls))
trace_state_drain_post_stop-delivered_example =
    trace_state_drain_post_stop-delivered 200 polls (trace_state_init none) (omega arith)

abbrev main_sym : SymEntry
main_sym = record {
  addr = 16;
  size = 8;
  slide = 0;
  name = record { loc = 1; text = codes "main" };
  binary = record { loc = 2; text = codes "a" };
}

abbrev samples : List (Option Sample)
samples =
    some (record { sym = main_sym; ip = 20; iclass = call; tsc = 0; grown = true; source = none })
    ∷ none
    ∷ some
        (record { sym = main_sym; ip = 16; iclass = return; tsc = 0; grown = true; source = none })
    ∷ []

profile_all-counts_example :
    (value (λ e. e.branches) main_sym (profile_all profile_init samples).entries
      ≡ count_samples (λ prev_class x. is_branch x.iclass) main_sym plain samples)
    × (value (λ e. e.returns) main_sym (profile_all profile_init samples).entries
        ≡ count_samples (λ prev_class x. is_return x.iclass) main_sym plain samples)
    × (value (λ e. e.calls) main_sym (profile_all profile_init samples).entries
        ≡ count_samples is_entry main_sym plain samples)
profile_all-counts_example =
    profile_all-counts main_sym samples (unfold HasMemory in (refl, (refl, tt)))

abbrev seen : List Seen
seen =
    record { sym = some main_sym; ip = 20; iclass = call; copied = true; grown = true }
    ∷ record { sym = some main_sym; ip = 16; iclass = return; copied = true; grown = true }
    ∷ []

collapsed_all-IsCollapsed_example :
    (col : Collapsed) × (collapsed_all collapsed_init seen ≡ some col) × IsCollapsed col
collapsed_all-IsCollapsed_example = collapsed_all-IsCollapsed seen (omega arith, (omega arith, tt))

abbrev long_name : Bytes
long_name = replicate 8192 97

collapsed_build_stack-overrun_example : collapsed_build_stack true (long_name ∷ []) ≡ overrun
collapsed_build_stack-overrun_example =
    collapsed_build_stack-overrun true long_name
      (let l = length-replicate {A = ℕ} 8192 97 in omega arith)

-- Two stacks that share a function.
abbrev two_stacks : List CollapsedEntry
two_stacks =
    record { stack = codes "main;f"; count = 3 }
    ∷ record { stack = codes "main;g;f"; count = 1 }
    ∷ []

speedscope_print-samples_example :
    (names : List Bytes) × ((i j : ℕ) (name : Bytes)
      → get_elem? names i ≡ some name
      → get_elem? names j ≡ some name
      → i ≡ j)
    × ((speedscope_print two_stacks).frames ≡ map (json_escape 256) names)
    × (map (map (get_elem? names)) (speedscope_print two_stacks).samples
        ≡ map (λ e. map some (tokens e.stack)) two_stacks)
    × ((speedscope_print two_stacks).weights ≡ map (λ e. e.count) two_stacks)
    × ((speedscope_print two_stacks).end_value ≡ sum (speedscope_print two_stacks).weights)
speedscope_print-samples_example = speedscope_print-samples two_stacks

tokens-collapsed_build_stack_example :
    (text : Bytes) × (collapsed_build_stack true (codes "f" ∷ codes "main" ∷ []) ≡ string text)
    × (tokens text ≡ reverse_onto (codes "main" ∷ []) (codes "f" ∷ []))
tokens-collapsed_build_stack_example =
    tokens-collapsed_build_stack (codes "f") (codes "main" ∷ [])
      ((refl, (refl, tt)), ((refl, (refl, (refl, (refl, (refl, tt))))), tt)) (omega arith)

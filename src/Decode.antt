-- ===== src/Decode.antt =====
-- Sources/bsdtrace/decode.c: the decode of a trace by libipt's instruction decoder, the counters of
-- decode_pt_insn(), and decode_pt_probe(). The decoder is the repository's dependency, so its three
-- calls are a record of functions on a decoder state.
pub mod Loop
pub mod Counting
use observable_bsd.Prelude.{
  ℕ, zero, suc, ◌+◌, Bool, true, false, not, ◌&&◌, ◌||◌, Option, none, some, List, [], ◌∷◌, ◌++◌,
  Bytes, bytes_eq, strlcpy, is_empty, ltb, leb, ◌==◌, if◌then◌else◌, length,
}
use observable_bsd.Types.{RecordType, is_executable, PtImageInfo}
use observable_bsd.Symbols.{SymEntry, SymTable, sym_table_lookup}
use observable_bsd.Ranges.{BinRange, find_binary_for_ip}

-- enum pt_insn_class, as the source names its values; `plain` is any other one.
pub data InsnClass : Type 0 where
  call return jump cond_jump far_call far_return far_jump ptwrite plain : InsnClass

-- The source's use of struct pt_insn.
pub record Insn : Type 0 where
  pub ip : ℕ
  pub iclass : InsnClass

-- A status of libipt: not negative, with pts_event_pending or without; -pte_eos; -pte_nomap; or
-- another error.
pub data Status : Type 0 where
  ok : Bool → Status
  eos nomap failed : Status

pub data Event : Type 0 where
  ptev_overflow ptev_ptwrite ptev_other : Event

-- pt_insn_sync_forward(), pt_insn_event() and pt_insn_next(), each with the decoder it leaves.
pub record Decoder (D : Type 0) : Type 0 where
  pub sync_forward : D → Status × D
  pub event : D → Status × Event × D
  pub next : D → Status × Insn × D

-- What a loop does with the events, errors and instructions it sees.
pub record Sink (S : Type 0) : Type 0 where
  pub on_event : Event → S → S
  pub on_error : Status → S → S
  pub on_insn : Insn → S → S

abbrev pub is_ok : Status → Bool
is_ok (ok pending) = true
is_ok _ = false

module _ {D S : Type 0} (dec : Decoder D) (sink : Sink S) where
  -- What follows a call, given how the loop goes on.
  step_event : (Status → D → S → Option S) → Status × Event × D → S → Option S
  step_event go (status, ev, d) s = go status d (if is_ok status then sink.on_event ev s else s)

  step_sync : (Status → D → S → Option S) → Status × D → S → Option S
  step_sync go (status, d) s = go status d s

  step_next : (Status → D → S → Option S) → Status × Insn × D → S → Option S
  step_next go (ok pending, insn, d) s = go (ok pending) d (sink.on_insn insn s)
  step_next go (eos, insn, d) s = some s
  step_next go (nomap, insn, d) s = step_sync go (dec.sync_forward d) (sink.on_error nomap s)
  step_next go (failed, insn, d) s = step_sync go (dec.sync_forward d) (sink.on_error failed s)

  -- The two nested loops that decode_pt_insn() and decode_pt_probe() share, from a status on. An
  -- event is taken when one is pending, else the next instruction; on an error other than the end
  -- of the trace, the decoder goes to the next sync point. None: the fuel did not suffice.
  unfoldable pub decode_loop : ℕ → Status → D → S → Option S
  unfolding step_event step_sync step_next
  decode_loop zero status d s = none
  decode_loop (suc fuel) eos d s = some s
  decode_loop (suc fuel) nomap d s = some s
  decode_loop (suc fuel) failed d s = some s
  decode_loop (suc fuel) (ok true) d s = step_event (decode_loop fuel) (dec.event d) s
  decode_loop (suc fuel) (ok false) d s = step_next (decode_loop fuel) (dec.next d) s

  -- The loop with the sync before it.
  unfoldable pub decode_trace : ℕ → D → S → Option S
  decode_trace fuel d s = let (status, d') = dec.sync_forward d in decode_loop fuel status d' s

-- The counters of decode_pt_insn().
pub record Counters : Type 0 where
  pub total : ℕ
  pub calls : ℕ
  pub branches : ℕ
  pub returns : ℕ
  pub syscalls : ℕ
  pub nomaps : ℕ
  pub errors : ℕ
  pub ovf_count : ℕ

abbrev pub no_counts : Counters
no_counts = record {
  total = 0;
  calls = 0;
  branches = 0;
  returns = 0;
  syscalls = 0;
  nomaps = 0;
  errors = 0;
  ovf_count = 0;
}

unfoldable pub count_event : Event → Counters → Counters
count_event ptev_overflow c = record c { ovf_count = c.ovf_count + 1 }
count_event _ c = c

unfoldable pub count_error : Status → Counters → Counters
count_error nomap c = record c { nomaps = c.nomaps + 1 }
count_error _ c = record c { errors = c.errors + 1 }

-- The switch on the instruction's class.
count_class : InsnClass → Counters → Counters
count_class call c = record c { calls = c.calls + 1 }
count_class jump c = record c { branches = c.branches + 1 }
count_class cond_jump c = record c { branches = c.branches + 1 }
count_class return c = record c { returns = c.returns + 1 }
count_class far_call c = record c { syscalls = c.syscalls + 1 }
count_class _ c = c

unfoldable pub count_insn : Insn → Counters → Counters
unfolding count_class
count_insn insn c = count_class insn.iclass (record c { total = c.total + 1 })

abbrev pub counters_sink : Sink Counters
counters_sink = record { on_event = count_event; on_error = count_error; on_insn = count_insn }

-- path_basename(): the text behind the last '/', if there is any.
unfoldable pub after_slash : Bytes → Option Bytes
after_slash [] = none
after_slash (c ∷ cs) = elim (after_slash cs) [
  | some b ↦ some b
  | none ↦ if c == b'/' then some cs else none
]

unfoldable pub path_basename : Bytes → Bytes
unfolding after_slash
path_basename path = elim (after_slash path) [
  | none ↦ path
  | some b ↦ if is_empty b then path else b
]

-- The search loop of is_exec_binary(), and that over `j` in collect_exec_binaries().
unfoldable pub in_bins : List Bytes → Bytes → Bool
in_bins [] b = false
in_bins (x ∷ xs) b = bytes_eq x b || in_bins xs b

-- The loop from section i on, with the names that the array has.
collect_from : List PtImageInfo → ℕ → List Bytes → List Bytes
collect_from [] maxbins bins = bins
collect_from (s ∷ ss) maxbins bins =
    if not (ltb (length bins) maxbins)
    then bins
    else collect_from ss maxbins (
        if not (is_executable s.type)
        then bins
        else if is_empty s.path
        then bins
        else if in_bins bins (path_basename s.path)
        then bins
        else bins ++ strlcpy (path_basename s.path) 64 ∷ [])

unfoldable pub collect_exec_binaries : List PtImageInfo → ℕ → List Bytes
unfolding collect_from
collect_exec_binaries sections maxbins = collect_from sections maxbins []

-- The pointer is none where the source has NULL.
unfoldable pub is_exec_binary : Option Bytes → List Bytes → Bool
is_exec_binary none bins = false
is_exec_binary (some b) bins = if is_empty b then false else in_bins bins b

-- struct decode_probe_result
pub record DecodeProbeResult : Type 0 where
  pub total : ℕ
  pub exec_hits : ℕ

-- The test of the probe's loop: is the instruction in one of the executables?
unfoldable pub in_exec : SymTable → List BinRange → List Bytes → ℕ → Bool
in_exec st ranges bins ip = elim (sym_table_lookup st ip) [
  | some sym ↦ is_exec_binary (some sym.binary.text) bins
  | none ↦ elim (find_binary_for_ip ranges ip) [
    | some (bn, boff) ↦ is_exec_binary (some bn) bins
    | none ↦ false
  ]
]

unfoldable pub probe_insn : (ℕ → Bool) → Insn → DecodeProbeResult → DecodeProbeResult
probe_insn hit insn probe = record {
  total = probe.total + 1;
  exec_hits = if hit insn.ip then probe.exec_hits + 1 else probe.exec_hits;
}

abbrev pub probe_sink : (ℕ → Bool) → Sink DecodeProbeResult
probe_sink hit = record { on_event = λ ev s. s; on_error = λ e s. s; on_insn = probe_insn hit }

-- ===== src/Decode/Loop.antt =====
-- The decode loop ends, and hands its sink the decoder's run.
use observable_bsd.Prelude.{
  ℕ, zero, suc, ◌+◌, ◌≤◌, ◌<◌, ◌≡◌, refl, ◌⊎◌, inl, inr, Bool, true, false, some, List, [], ◌∷◌,
  arith,
}
use observable_bsd.Decode.{
  Insn, Event, Status, ok, eos, nomap, failed, Decoder, Sink, is_ok, step_event, step_sync,
  step_next, decode_loop, decode_trace,
}

-- What a decoder can deliver to a loop.
pub data Step : Type 0 where
  saw : Event → Step
  lost : Status → Step
  got : Insn → Step

-- The sink takes the steps in order.
abbrev pub feed : {S : Type 0} → Sink S → List Step → S → S
feed sink [] s = s
feed sink (saw ev ∷ xs) s = feed sink xs (sink.on_event ev s)
feed sink (lost e ∷ xs) s = feed sink xs (sink.on_error e s)
feed sink (got insn ∷ xs) s = feed sink xs (sink.on_insn insn s)

module _ {D : Type 0} (dec : Decoder D) where
  -- The steps that a decoder delivers from a status on, until an end of the trace or an error that
  -- no sync point follows.
  pub data Run : Status → D → List Step → Type 0 where
    ends : (status : Status) (d : D) → is_ok status ≡ false → Run status d []
    at_event :
        (status : Status) (ev : Event) (d d' : D) (xs : List Step)
        → dec.event d ≡ (status, ev, d')
        → is_ok status ≡ true
        → Run status d' xs
        → Run (ok true) d (saw ev ∷ xs)
    no_event :
        (status : Status) (ev : Event) (d d' : D)
        → dec.event d ≡ (status, ev, d')
        → is_ok status ≡ false
        → Run (ok true) d []
    at_insn :
        (pending : Bool) (insn : Insn) (d d' : D) (xs : List Step)
        → dec.next d ≡ (ok pending, insn, d')
        → Run (ok pending) d' xs
        → Run (ok false) d (got insn ∷ xs)
    at_end : (insn : Insn) (d d' : D) → dec.next d ≡ (eos, insn, d') → Run (ok false) d []
    at_nomap :
        (insn : Insn) (status : Status) (d d' d'' : D) (xs : List Step)
        → dec.next d ≡ (nomap, insn, d')
        → dec.sync_forward d' ≡ (status, d'')
        → Run status d'' xs
        → Run (ok false) d (lost nomap ∷ xs)
    at_error :
        (insn : Insn) (status : Status) (d d' d'' : D) (xs : List Step)
        → dec.next d ≡ (failed, insn, d')
        → dec.sync_forward d' ≡ (status, d'')
        → Run status d'' xs
        → Run (ok false) d (lost failed ∷ xs)

  -- What the loops rely on to end: each call that succeeds uses up some of what is left of the
  -- trace, and a failing one does not bring any of it back.
  pub record Progress (left : D → ℕ) : Type 0 where
    pub event_uses : (d : D) → is_ok (dec.event d).0 ≡ true → left (dec.event d).2 < left d
    pub next_uses : (d : D) → is_ok (dec.next d).0 ≡ true → left (dec.next d).2 < left d
    pub next_keeps : (d : D) → left (dec.next d).2 ≤ left d
    pub sync_uses :
        (d : D) → is_ok (dec.sync_forward d).0 ≡ true → left (dec.sync_forward d).1 < left d

  -- A run together with the claim that the loop of this fuel feeds it to any sink.
  pub record Fed (fuel : ℕ) (status : Status) (d : D) : Type 1 where
    pub steps : List Step
    pub run : Run status d steps
    pub feeds :
        (S : Type 0) (sink : Sink S) (s : S)
        → decode_loop dec sink fuel status d s ≡ some (feed sink steps s)

  module _ (left : D → ℕ) (progress : Progress left) where
    no_more : (fuel : ℕ) (status : Status) (d : D) → is_ok status ≡ false → Fed (suc fuel) status d
    unfolding decode_loop step_event step_sync step_next
    no_more fuel (ok p) d h = ground arith
    no_more fuel eos d h = record { steps = []; run = ends eos d h; feeds = λ S sink s. refl }
    no_more fuel nomap d h = record { steps = []; run = ends nomap d h; feeds = λ S sink s. refl }
    no_more fuel failed d h = record { steps = []; run = ends failed d h; feeds = λ S sink s. refl }

    after_event :
        (fuel : ℕ) (d d' : D) (status : Status) (ev : Event)
        → dec.event d ≡ (status, ev, d')
        → 1 ≤ fuel
        → (is_ok status ≡ true → Fed fuel status d')
        → Fed (suc fuel) (ok true) d
    unfolding decode_loop step_event step_sync step_next
    after_event fuel d d' (ok p) ev e k rest =
        let f = rest refl in
        record {
          steps = saw ev ∷ f.steps;
          run = at_event (ok p) ev d d' f.steps e refl f.run;
          feeds = λ S sink s. rw e (f.feeds S sink (sink.on_event ev s));
        }
    after_event (suc fuel) d d' eos ev e k rest = record {
      steps = [];
      run = no_event eos ev d d' e refl;
      feeds = λ S sink s. rw e refl;
    }
    after_event (suc fuel) d d' nomap ev e k rest = record {
      steps = [];
      run = no_event nomap ev d d' e refl;
      feeds = λ S sink s. rw e refl;
    }
    after_event (suc fuel) d d' failed ev e k rest = record {
      steps = [];
      run = no_event failed ev d d' e refl;
      feeds = λ S sink s. rw e refl;
    }
    after_event zero d d' status ev e k rest = absurd (omega arith)

    after_sync :
        (fuel : ℕ) (d d' d'' : D) (status : Status) (e : Status) (insn : Insn)
        → (e ≡ nomap) ⊎ (e ≡ failed)
        → dec.next d ≡ (e, insn, d')
        → dec.sync_forward d' ≡ (status, d'')
        → Fed fuel status d''
        → Fed (suc fuel) (ok false) d
    unfolding decode_loop step_event step_sync step_next
    after_sync fuel d d' d'' status e insn (inl n) q y f = record {
      steps = lost nomap ∷ f.steps;
      run = at_nomap insn status d d' d'' f.steps (rw n at q) y f.run;
      feeds = λ S sink s. rw (q, n, y) (f.feeds S sink (sink.on_error nomap s));
    }
    after_sync fuel d d' d'' status e insn (inr n) q y f = record {
      steps = lost failed ∷ f.steps;
      run = at_error insn status d d' d'' f.steps (rw n at q) y f.run;
      feeds = λ S sink s. rw (q, n, y) (f.feeds S sink (sink.on_error failed s));
    }

    -- A failing `next` is followed by a sync, which uses something up if it succeeds.
    resync :
        (fuel : ℕ) (d d' : D) (e : Status) (insn : Insn)
        → (e ≡ nomap) ⊎ (e ≡ failed)
        → dec.next d ≡ (e, insn, d')
        → ((status : Status) (d'' : D)
            → (is_ok status ≡ true → left d'' < left d)
            → Fed fuel status d'')
        → Fed (suc fuel) (ok false) d
    resync fuel d d' e insn n q rest =
        let k = progress.next_keeps d in
        let y = dec.sync_forward d' in
        after_sync fuel d d' y.1 y.0 e insn n q refl
          (rest y.0 y.1 (λ h. let u = progress.sync_uses d' h in let k' = rw q at k in omega arith))

    after_next :
        (fuel : ℕ) (d d' : D) (status : Status) (insn : Insn)
        → dec.next d ≡ (status, insn, d')
        → ((status : Status) (d'' : D)
            → (is_ok status ≡ true → left d'' < left d)
            → Fed fuel status d'')
        → Fed (suc fuel) (ok false) d
    unfolding decode_loop step_event step_sync step_next
    after_next fuel d d' (ok p) insn e rest =
        let f = rest (ok p) d' (λ h. rw e at (progress.next_uses d (rw e refl))) in
        record {
          steps = got insn ∷ f.steps;
          run = at_insn p insn d d' f.steps e f.run;
          feeds = λ S sink s. rw e (f.feeds S sink (sink.on_insn insn s));
        }
    after_next fuel d d' eos insn e rest = record {
      steps = [];
      run = at_end insn d d' e;
      feeds = λ S sink s. rw e refl;
    }
    after_next fuel d d' nomap insn e rest = resync fuel d d' nomap insn (inl refl) e rest
    after_next fuel d d' failed insn e rest = resync fuel d d' failed insn (inr refl) e rest

    decode_loop-Fed :
        (fuel : ℕ) (status : Status) (d : D)
        → 1 ≤ fuel
        → (is_ok status ≡ true → left d + 2 ≤ fuel)
        → Fed fuel status d
    decode_loop-Fed zero status d h k = absurd (omega arith)
    decode_loop-Fed (suc fuel) eos d h k = no_more fuel eos d refl
    decode_loop-Fed (suc fuel) nomap d h k = no_more fuel nomap d refl
    decode_loop-Fed (suc fuel) failed d h k = no_more fuel failed d refl
    decode_loop-Fed (suc fuel) (ok true) d h k =
        let l = k refl in
        let y = dec.event d in
        after_event fuel d y.2 y.0 y.1 refl (omega arith) (λ g.
          decode_loop-Fed fuel y.0 y.2 (omega arith)
            (λ g'. let u = progress.event_uses d g in omega arith))
    decode_loop-Fed (suc fuel) (ok false) d h k =
        let l = k refl in
        let y = dec.next d in
        after_next fuel d y.2 y.0 y.1 refl (λ status d'' g.
          decode_loop-Fed fuel status d'' (omega arith) (λ g'. let u = g g' in omega arith))

    -- With more fuel than is left of the trace, and a decoder that uses it up, the loop ends, and
    -- there is a run of the decoder, from its first sync point, whose steps every sink takes in order.
    pub decode_trace-Run :
        (fuel : ℕ) (d : D)
        → left d < fuel
        → (steps : List Step) × Run (dec.sync_forward d).0 (dec.sync_forward d).1 steps
          × ((S : Type 0) (sink : Sink S) (s : S)
              → decode_trace dec sink fuel d s ≡ some (feed sink steps s))
    unfolding decode_trace
    decode_trace-Run fuel d h =
        let y = dec.sync_forward d in
        let f =
          decode_loop-Fed fuel y.0 y.1 (omega arith)
            (λ g. let u = progress.sync_uses d g in omega arith) in
        (f.steps, f.run, f.feeds)

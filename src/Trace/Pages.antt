-- ===== src/Trace/Pages.antt =====
-- The extent of the trace buffer that a trace has seen: the pages of its BUFFER records.
use observable_bsd.Prelude.{
  ℕ, ◌+◌, ◌≡◌, refl, ◌∙◌, inl, inr, Bool, true, false, ◌&&◌, ◌||◌, List, [], ◌∷◌, if◌then◌else◌,
  arith, Bool-cases, ℤ, pos, negsuc, ltb_ℤ, leb_ℤ,
}
use observable_bsd.Types.{
  RecordType, mmap, munmap, executable, kernel, thread_create, thread_set_name, buffer, overflow,
  other, BsdtraceRecord,
}
use observable_bsd.Meta.{MetaWriter}
use observable_bsd.Trace.{
  TraceState, trace_state_init, process_buffer, process_image, by_type, trace_state_process,
  process_all, trace_state_add_section, trace_state_reset_sections,
}

-- The pages of the BUFFER records, in order.
abbrev page_of : RecordType → ℤ → List ℤ → List ℤ
page_of buffer p ps = p ∷ ps
page_of _ p ps = ps

abbrev pub pages : List BsdtraceRecord → List ℤ
pages [] = []
pages (r ∷ rs) = page_of r.type r.curpage (pages rs)

-- Some page is below p.
unfoldable any_below : ℤ → List ℤ → Bool
any_below p [] = false
any_below p (q ∷ qs) = ltb_ℤ q p || any_below p qs

-- Some page is below a page that came before it and is not negative.
unfoldable pub drops : List ℤ → Bool
unfolding any_below
drops [] = false
drops (p ∷ ps) = leb_ℤ (pos 0) p && any_below p ps || drops ps

-- The largest page, or m if none is larger.
abbrev pub max_page : ℤ → List ℤ → ℤ
max_page m [] = m
max_page m (p ∷ ps) = max_page (if ltb_ℤ m p then p else m) ps

any_below_mono :
    (p q : ℤ) (ps : List ℤ) → leb_ℤ p q ≡ true → any_below p ps ≡ true → any_below q ps ≡ true
unfolding any_below
any_below_mono p q [] h e = e
any_below_mono p q (x ∷ ps) h e = ground (arith, any_below_mono p q ps h)

-- What the two fields become over the pages, starting from w and m.
wraps : Bool → ℤ → List ℤ → Bool
wraps w m [] = w
wraps w m (p ∷ ps) =
    wraps (if leb_ℤ (pos 0) m && ltb_ℤ p m then true else w) (if ltb_ℤ m p then p else m) ps

wraps_step :
    (w : Bool) (m p : ℤ) (ps : List ℤ) (m' : ℤ)
    → m' ≡ (if ltb_ℤ m p then p else m)
    → ((if leb_ℤ (pos 0) m && ltb_ℤ p m then true else w)
        || (leb_ℤ (pos 0) m' && any_below m' ps || drops ps))
      ≡ (w || (leb_ℤ (pos 0) m && any_below m (p ∷ ps) || drops (p ∷ ps)))
unfolding any_below drops
wraps_step w m p ps m' e = elim (Bool-cases (ltb_ℤ m p)) [
  | inl h ↦ let up = any_below_mono m p ps (ground arith) in rw (e, h) (ground arith)
  | inr h ↦ let up = any_below_mono p m ps (ground arith) in rw (e, h) (ground arith)
]

wraps-drops :
    (w : Bool) (m : ℤ) (ps : List ℤ)
    → wraps w m ps ≡ (w || (leb_ℤ (pos 0) m && any_below m ps || drops ps))
unfolding wraps
wraps-drops w m [] = unfold any_below drops in ground arith
wraps-drops w m (p ∷ ps) =
    wraps-drops (if leb_ℤ (pos 0) m && ltb_ℤ p m then true else w) (if ltb_ℤ m p then p else m) ps
    ∙ wraps_step w m p ps _ refl

image-pages :
    (ts : TraceState) (grown : Bool) (r : BsdtraceRecord)
    → ((process_image ts grown r).buf_wrapped ≡ ts.buf_wrapped)
      × ((process_image ts grown r).max_buf_page ≡ ts.max_buf_page)
unfolding process_image trace_state_add_section trace_state_reset_sections
image-pages ts grown r = ground arith

-- How a record changes the fields: by its page, if it is a BUFFER record.
by_type-pages :
    (type : RecordType) (ts : TraceState) (grown : Bool) (r : BsdtraceRecord) (ps : List ℤ)
    → (wraps (by_type type ts grown r).buf_wrapped (by_type type ts grown r).max_buf_page ps
        ≡ wraps ts.buf_wrapped ts.max_buf_page (page_of type r.curpage ps))
      × (max_page (by_type type ts grown r).max_buf_page ps
          ≡ max_page ts.max_buf_page (page_of type r.curpage ps))
unfolding by_type process_buffer wraps
by_type-pages buffer ts grown r ps = (refl, refl)
by_type-pages overflow ts grown r ps = (refl, refl)
by_type-pages executable ts grown r ps =
    let i = image-pages ts grown r in rw (i.0, i.1) (refl, refl)
by_type-pages mmap ts grown r ps = let i = image-pages ts grown r in rw (i.0, i.1) (refl, refl)
by_type-pages kernel ts grown r ps = let i = image-pages ts grown r in rw (i.0, i.1) (refl, refl)
by_type-pages munmap ts grown r ps = (refl, refl)
by_type-pages thread_create ts grown r ps = (refl, refl)
by_type-pages thread_set_name ts grown r ps = (refl, refl)
by_type-pages (other n) ts grown r ps = (refl, refl)

process_all-pages :
    (ts : TraceState) (grown : ℕ → Bool) (rs : List BsdtraceRecord)
    → ((process_all ts grown rs).buf_wrapped ≡ wraps ts.buf_wrapped ts.max_buf_page (pages rs))
      × ((process_all ts grown rs).max_buf_page ≡ max_page ts.max_buf_page (pages rs))
unfolding process_all trace_state_process
process_all-pages ts grown [] = unfold wraps in (refl, refl)
process_all-pages ts grown (r ∷ rs) =
    let rest = process_all-pages (trace_state_process ts (grown 0) r) (λ k. grown (k + 1)) rs in
    let step = by_type-pages r.type _ (grown 0) r (pages rs) in (rest.0 ∙ step.0, rest.1 ∙ step.1)

-- After a trace has taken any records from its initial state, whatever realloc() answered:
-- buf_wrapped says exactly whether the page of some BUFFER record lies below the page of an earlier
-- one that was not negative, and max_buf_page is the largest page of a BUFFER record, -1 at least.
pub process_all-buf_wrapped :
    (meta : MetaWriter) (grown : ℕ → Bool) (rs : List BsdtraceRecord)
    → ((process_all (trace_state_init meta) grown rs).buf_wrapped ≡ drops (pages rs))
      × ((process_all (trace_state_init meta) grown rs).max_buf_page
          ≡ max_page (negsuc 0) (pages rs))
unfolding trace_state_init
process_all-buf_wrapped meta grown rs =
    let h = process_all-pages (trace_state_init meta) grown rs in
    (h.0 ∙ wraps-drops false (negsuc 0) (pages rs), h.1)

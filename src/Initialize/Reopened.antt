-- ===== src/Initialize/Reopened.antt =====
-- What a process leaves in the file is what the next one recovers.
use firebase_telemetry_persi.Common.{
  ℕ, zero, suc, ◌^◌, ◌≤◌, ◌<◌, ◌≡◌, refl, ap, sym, subst, ◌∙◌, some, none, ok, List, [], ◌∷◌, All,
  length, get_elem?, get_elem?-lt, get_elem?-take, arith, >>=-eq-ok,
}
use firebase_telemetry_persi.Layout.{
  MmapSize, value_of, MarkedSpan, RawSpan, MemoryLayout, get_memory_layout_size,
}
use firebase_telemetry_persi.Span.{Span, of_raw_span}
use firebase_telemetry_persi.Span.Valid.{of_raw_span_total, IsRawSpan}
use firebase_telemetry_persi.RawSpanData.{slot?}
use firebase_telemetry_persi.RawSpanData.Remove.{active}
use firebase_telemetry_persi.RawSpanData.Recoverable.{
  recoverable, recoverable-active, length-active, spans,
}
use firebase_telemetry_persi.SpanDataImpl.{DataVariant, visit, visit-of_size}
use firebase_telemetry_persi.MutableSpanData.{MutableSpanData, empty_map}
use firebase_telemetry_persi.MutableSpanData.Invariant.{view-some, view-at}
use firebase_telemetry_persi.MutableSpanData.History.{Call, run, IsCall}
use firebase_telemetry_persi.MutableSpanData.Promise.{SpanMap, Steps, Shows}
use firebase_telemetry_persi.MutableSpanData.Promise.Kept.{run-Keeps}
use firebase_telemetry_persi.Context.{Context}
use firebase_telemetry_persi.Initialize
use firebase_telemetry_persi.Initialize.{
  System, Contents, layout_in, get_page_size, initialize_span_data,
}
use firebase_telemetry_persi.Initialize.Recovery.{read_spans}
use firebase_telemetry_persi.Initialize.Success.{IsCurrent, IsRecoverable}
use firebase_telemetry_persi.Initialize.AfterCrash.{layout-IsRecoverable}
use firebase_telemetry_persi.Initialize.Prepared.{Succeeds, IsFresh, initialize_span_data-recovers}

-- The recovered spans are the spans of the map: as many, each of them, and no other.
pub record Matches (recovered : List Span) (b : SpanMap) : Type 0 where
  pub size : length recovered ≡ b.count
  pub all :
      (id : ℕ) (s : MarkedSpan)
      → b.entries id ≡ some s
      → (i : ℕ) × (span : Span) × (get_elem? recovered i ≡ some span)
        × (of_raw_span s.span ≡ ok span)
        × (span.span_id ≡ id)
  pub only :
      (i : ℕ) (span : Span)
      → get_elem? recovered i ≡ some span
      → (s : MarkedSpan) × (b.entries span.span_id ≡ some s) × (of_raw_span s.span ≡ ok span)

-- The map of an empty file.
abbrev pub no_spans : SpanMap
no_spans = record { entries = λ id. none; count = 0; last_mark = 0 }

abbrev pub fresh-Shows :
    {size : MmapSize} {c : Context} (f : IsFresh size c) → Shows size c.mutable_span_data no_spans
fresh-Shows f = record {
  store = f.store;
  map = empty_map;
  shape = f.shape;
  valid = f.valid;
  entries = λ id. refl;
  count = f.empty;
  last_mark = f.unmarked;
}

-- The content of the file behind an object.
abbrev pub file_of : DataVariant → MemoryLayout
file_of = visit (λ size d. d.layout)

-- Each span is what the raw span in its place reads as.
abbrev Reads : List RawSpan → List Span → Type 0
Reads [] [] = Unit {0}
Reads [] (span ∷ found) = ⊥
Reads (r ∷ rs) [] = ⊥
Reads (r ∷ rs) (span ∷ found) = (of_raw_span r ≡ ok span) × Reads rs found

pub read_spans-Reads :
    (rs : List RawSpan) (found : List Span) → read_spans rs ≡ ok found → Reads rs found
unfolding read_spans
read_spans-Reads [] found e = let same : [] ≡ found = cc in subst (Reads []) same tt
read_spans-Reads (r ∷ rs) found e =
    let (span, k, f) = >>=-eq-ok (of_raw_span r) _ e in
    let (rest, l, g) = >>=-eq-ok (read_spans rs) _ f in
    let same : span ∷ rest ≡ found = cc in
    subst (Reads (r ∷ rs)) same (k, read_spans-Reads rs rest l)

pub length-Reads :
    (rs : List RawSpan) (found : List Span) → Reads rs found → length found ≡ length rs
length-Reads [] [] v = refl
length-Reads [] (span ∷ found) v = elim v [ ]
length-Reads (r ∷ rs) [] v = elim v [ ]
length-Reads (r ∷ rs) (span ∷ found) v = ap suc (length-Reads rs found v.1)

pub Reads-forth :
    (rs : List RawSpan) (found : List Span) (i : ℕ) (r : RawSpan)
    → Reads rs found
    → get_elem? rs i ≡ some r
    → (span : Span) × (get_elem? found i ≡ some span) × (of_raw_span r ≡ ok span)
Reads-forth [] found i r v h = absurd (cc)
Reads-forth (q ∷ rs) [] i r v h = elim v [ ]
Reads-forth (q ∷ rs) (span ∷ found) zero r v h =
    let same : q ≡ r = cc in (span, refl, subst (λ x. of_raw_span x ≡ ok span) same v.0)
Reads-forth (q ∷ rs) (span ∷ found) (suc i) r v h = Reads-forth rs found i r v.1 h

pub Reads-back :
    (rs : List RawSpan) (found : List Span) (i : ℕ) (span : Span)
    → Reads rs found
    → get_elem? found i ≡ some span
    → (r : RawSpan) × (get_elem? rs i ≡ some r) × (of_raw_span r ≡ ok span)
Reads-back rs [] i span v h = absurd (cc)
Reads-back [] (s ∷ found) i span v h = elim v [ ]
Reads-back (r ∷ rs) (s ∷ found) zero span v h =
    let same : s ≡ span = cc in (r, refl, subst (λ x. of_raw_span r ≡ ok x) same v.0)
Reads-back (r ∷ rs) (s ∷ found) (suc i) span v h = Reads-back rs found i span v.1 h

-- The active slots, as raw spans.
pub get_elem?-spans :
    (ss : List MarkedSpan) (i : ℕ) (s : MarkedSpan)
    → get_elem? ss i ≡ some s
    → get_elem? (spans ss) i ≡ some (s.span)
get_elem?-spans [] i s h = absurd (cc)
get_elem?-spans (t ∷ ss) zero s h = let same : t ≡ s = cc in ap (λ x. some (x.span)) same
get_elem?-spans (t ∷ ss) (suc i) s h = get_elem?-spans ss i s h

spans-get_elem? :
    (ss : List MarkedSpan) (i : ℕ) (r : RawSpan)
    → get_elem? (spans ss) i ≡ some r
    → (s : MarkedSpan) × (get_elem? ss i ≡ some s) × (s.span ≡ r)
spans-get_elem? [] i r h = absurd (cc)
spans-get_elem? (t ∷ ss) zero r h = (t, refl, cc)
spans-get_elem? (t ∷ ss) (suc i) r h = spans-get_elem? ss i r h

pub length-spans : (ss : List MarkedSpan) → length (spans ss) ≡ length ss
length-spans [] = refl
length-spans (s ∷ ss) = ap suc (length-spans ss)

id_of_read :
    {n : ℕ} (r : RawSpan) (span : Span)
    → IsRawSpan n r
    → of_raw_span r ≡ ok span
    → span.span_id ≡ r.span_id
id_of_read {n = n} r span v e =
    let (span', e', id, _, _, _, _) = of_raw_span_total n r v in
    let same : span ≡ span' = cc in ap (λ (x : Span). x.span_id) same ∙ id

module _ {size : MmapSize} {m : MutableSpanData} {b : SpanMap} (t : Shows size m b) where
  abbrev pub active_spans : List RawSpan
  active_spans = spans (active t.store.layout)

  -- A span of the map is in the list, and one of the list is in the map.
  pub entry_there :
      (id : ℕ) (s : MarkedSpan)
      → b.entries id ≡ some s
      → (i : ℕ) × (t.map id ≡ some i) × (get_elem? active_spans i ≡ some s.span)
  entry_there id s h =
      let l = t.store.layout in
      let (i, there, at, lt, same) = view-some t.valid id s (t.entries id ∙ h) in
      (
        i,
        there,
        get_elem?-spans (active l) i s
            (get_elem?-take l.header.active_span_count l.marked_spans i lt ∙ at),
      )

  pub there_entry :
      (i : ℕ) (r : RawSpan) (span : Span)
      → get_elem? active_spans i ≡ some r
      → of_raw_span r ≡ ok span
      → (s : MarkedSpan) × (b.entries span.span_id ≡ some s) × (of_raw_span s.span ≡ ok span)
  there_entry i r span k q =
      let l = t.store.layout in
      let v = t.valid.layout in
      let (s, at, same) = spans-get_elem? (active l) i r k in
      let lt : i < l.header.active_span_count =
        omega (arith, get_elem?-lt (active l) i s at, length-active l v) in
      let slot : slot? l i ≡ some s =
        sym (get_elem?-take l.header.active_span_count l.marked_spans i lt) ∙ at in
      let read : of_raw_span s.span ≡ ok span = ap of_raw_span same ∙ q in
      let id : span.span_id ≡ s.span.span_id = id_of_read s.span span (v.slots i s slot).raw read in
      let shown =
        sym (t.entries s.span.span_id)
        ∙ view-at t.store t.map s.span.span_id i (t.valid.indexed i s lt slot)
        ∙ slot in
      (s, ap b.entries id ∙ shown, read)

-- What is read from the file of an object matches the map that the object stands for.
pub Shows-Matches :
    {size : MmapSize} {m : MutableSpanData} {b : SpanMap} (t : Shows size m b) (found : List Span)
    → read_spans (recoverable t.store.layout) ≡ ok found
    → Matches found b
Shows-Matches {b = b} t found e =
    let l = t.store.layout in
    let v = t.valid.layout in
    let rs = spans (active l) in
    let reads : Reads rs found =
      read_spans-Reads rs found (sym (ap read_spans (recoverable-active l v)) ∙ e) in
    record {
      size = length-Reads rs found reads ∙ length-spans (active l) ∙ length-active l v ∙ t.count;
      all = λ id s h.
          let (i, _, at) = entry_there t id s h in
          let (span, k, r) = Reads-forth rs found i s.span reads at in
          let (j, _, slot, lt, same) = view-some t.valid id s (t.entries id ∙ h) in
          (i, span, k, r, id_of_read s.span span (v.slots j s slot).raw r ∙ same);
      only = λ i span h.
          let (r, k, q) = Reads-back rs found i span reads h in there_entry t i r span k q;
    }

-- The store of an object that stands for a map, in a file of the current version, is recoverable.
file_of-shape :
    {size : MmapSize} {m : MutableSpanData} {b : SpanMap} (t : Shows size m b)
    → file_of m.impl ≡ t.store.layout
file_of-shape {size = size} t = rw t.shape (visit-of_size (λ z d. d.layout) size t.store)

-- From a fresh handle any sequence of calls is carried out, and the file is then opened again, with
-- the content that they left and with system calls that succeed, for the same size or for another.
-- The new handle is fresh again, and what it has recovered are exactly the spans of the map that the
-- calls lead to, by steps that the map allows: as many, each of them, and no other. No span that is
-- added has the id 0, there are fewer than 2^64 calls, and the file is at least as long as its layout
-- and a page.
pub initialize_span_data-Matches :
    (size target : MmapSize) (c : Context) (calls : List Call) (m : MutableSpanData) (sys : System)
    (fd length' : ℕ) (old new : Contents)
    → IsFresh size c
    → All IsCall calls
    → length calls < 2 ^ 64
    → run c.mutable_span_data calls ≡ ok m
    → Succeeds sys fd length' old new
    → layout_in old ≡ file_of m.impl
    → get_page_size sys.sysconf ≤ length'
    → get_memory_layout_size (value_of size) ≤ length'
    → (b : SpanMap) × (os_calls : List Initialize.Call) × (c' : Context) × Steps size no_spans calls
        b
      × (initialize_span_data sys (value_of target) ≡ ok (os_calls, some c'))
      × Matches c'.recovered_spans b
      × IsFresh target c'
initialize_span_data-Matches size target c calls m sys fd length' old new f h bound ran s file page
      fits =
    let (m', b, e, steps, _, t, same) =
      run-Keeps calls c.mutable_span_data no_spans (fresh-Shows f) h (omega arith) in
    let ended : m' ≡ m = cc in
    let stored : layout_in old ≡ t.store.layout =
      file ∙ sym (ap (λ (x : MutableSpanData). file_of x.impl) ended) ∙ file_of-shape t in
    let current : IsCurrent old.header = record {
      signature =
          ap (λ (l : MemoryLayout). l.header.signature) stored
          ∙ same.signature
          ∙ f.current.signature;
      version =
          ap (λ (l : MemoryLayout). l.header.version) stored ∙ same.version ∙ f.current.version;
    } in
    let (os_calls, c', opened, read, fresh) =
      initialize_span_data-recovers sys size target fd length' old new s current
        (subst (IsRecoverable size) (sym stored)
          (layout-IsRecoverable t.store.layout t.valid.layout))
        page fits in
    (
      b,
      os_calls,
      c',
      steps,
      opened,
      Shows-Matches t c'.recovered_spans (sym (ap (λ l. read_spans (recoverable l)) stored) ∙ read),
      fresh,
    )

-- ===== src/Initialize/CrashReopened.antt =====
-- A process that dies inside `add`, and what the next one recovers.
use firebase_telemetry_persi.Common.{
  ℕ, ◌+◌, ◌-◌, ◌^◌, ◌≤◌, ◌<◌, ◌≡◌, refl, ap, sym, subst, ◌∙◌, ◌⊎◌, inl, inr, some, none, ok, List,
  [], ◌∷◌, arith,
}
use firebase_telemetry_persi.Common.Interrupts.{finished, torn, next}
use firebase_telemetry_persi.Layout.{
  MmapSize, mmap_config, value_of, MemoryLayout, Header, get_memory_layout_size,
}
use firebase_telemetry_persi.Span.{Span, to_raw_span}
use firebase_telemetry_persi.Span.Valid.{to_raw_span-IsRawSpan}
use firebase_telemetry_persi.RawSpanData.{
  Write, write, set_mark, set_span, set_count, clear_spans, add_writes, next_mark,
}
use firebase_telemetry_persi.RawSpanData.Valid.{slot_total}
use firebase_telemetry_persi.RawSpanData.Crash.{Crash, TornWrite, add-Crash, recoverable-added}
use firebase_telemetry_persi.RawSpanData.Recoverable.{recoverable}
use firebase_telemetry_persi.RawSpanData.SameFile.{SameFile, SameFile-refl, SameFile-trans}
use firebase_telemetry_persi.MutableSpanData.{MutableSpanData}
use firebase_telemetry_persi.MutableSpanData.Invariant.{active_count, view}
use firebase_telemetry_persi.MutableSpanData.Add.{next_mark_lem}
use firebase_telemetry_persi.MutableSpanData.Insert.{with_new-Added, absent_of_view}
use firebase_telemetry_persi.MutableSpanData.Promise.{SpanMap, put, Shows}
use firebase_telemetry_persi.MutableSpanData.Promise.Kept.{Shows-put}
use firebase_telemetry_persi.Context.{Context}
use firebase_telemetry_persi.Initialize.{
  System, Contents, Call, layout_in, get_page_size, initialize_span_data,
}
use firebase_telemetry_persi.Initialize.Recovery.{read_spans}
use firebase_telemetry_persi.Initialize.Success.{IsCurrent, IsRecoverable}
use firebase_telemetry_persi.Initialize.AfterCrash.{add-Crash-IsRecoverable}
use firebase_telemetry_persi.Initialize.Prepared.{Succeeds, IsFresh, initialize_span_data-recovers}
use firebase_telemetry_persi.Initialize.Reopened.{Matches, Shows-Matches}

write-SameFile : (w : Write) (l : MemoryLayout) → SameFile l.header (write w l).header
unfolding write
write-SameFile (set_mark i m) l = SameFile-refl l.header
write-SameFile (set_span i r) l = SameFile-refl l.header
write-SameFile (set_count n) l = record { signature = refl; version = refl }
write-SameFile (clear_spans size) l = SameFile-refl l.header

same_of :
    (a : Header) (l mid : MemoryLayout) → mid ≡ l → SameFile a l.header → SameFile a mid.header
same_of a l mid e s = subst (λ (x : MemoryLayout). SameFile a x.header) (sym e) s

torn-SameFile :
    (w : Write) (l mid : MemoryLayout) → TornWrite w l mid → SameFile l.header mid.header
torn-SameFile (set_mark i m) l mid (inl e) = same_of l.header l mid e (SameFile-refl l.header)
torn-SameFile (set_mark i m) l mid (inr e) =
    same_of l.header _ mid e (write-SameFile (set_mark i m) l)
torn-SameFile (set_count n) l mid (inl e) = same_of l.header l mid e (SameFile-refl l.header)
torn-SameFile (set_count n) l mid (inr e) =
    same_of l.header _ mid e (write-SameFile (set_count n) l)
torn-SameFile (set_span i r) l mid (r', e) =
    same_of l.header _ mid e (write-SameFile (set_span i r') l)
torn-SameFile (clear_spans size) l mid (ss, e) = same_of l.header _ mid e (SameFile-refl l.header)

-- A crash leaves the signature and the version.
Crash-SameFile :
    (ws : List Write) (l mid : MemoryLayout) → Crash ws l mid → SameFile l.header mid.header
Crash-SameFile [] l mid finished = SameFile-refl l.header
Crash-SameFile (w ∷ ws) l mid (torn t) = torn-SameFile w l mid t
Crash-SameFile (w ∷ ws) l mid (next c) =
    SameFile-trans l.header (write w l).header mid.header (write-SameFile w l)
      (Crash-SameFile ws (write w l) mid c)

pub Crash-IsCurrent :
    (ws : List Write) (l mid : MemoryLayout) (old : Contents)
    → Crash ws l mid
    → layout_in old ≡ mid
    → IsCurrent l.header
    → IsCurrent old.header
Crash-IsCurrent ws l mid old crash file current =
    let same = Crash-SameFile ws l mid crash in
    record {
      signature =
          ap (λ (x : MemoryLayout). x.header.signature) file ∙ same.signature ∙ current.signature;
      version = ap (λ (x : MemoryLayout). x.header.version) file ∙ same.version ∙ current.version;
    }

-- An object stands for a map, in a file of the current version, and the process dies inside the stores
-- of `add` for a new span, at any place. When the file is opened again, with system calls that
-- succeed, a fresh handle is returned, and what it has recovered are exactly the spans of the map, or
-- exactly these and the whole new span with the next mark. There was room for the span, its id is not
-- 0, and the last mark is below 2^64 - 1; the file is at least as long as its layout and a page.
pub initialize_span_data-CrashMatches :
    (size target : MmapSize) (m : MutableSpanData) (b : SpanMap) (span : Span) (mid : MemoryLayout)
    (sys : System) (fd length' : ℕ) (old new : Contents) (t : Shows size m b)
    → IsCurrent t.store.layout.header
    → b.entries span.span_id ≡ none
    → b.count < (mmap_config size).max_spans
    → 0 < span.span_id
    → b.last_mark < 2 ^ 64 - 1
    → Crash
        (add_writes (active_count t.store) (to_raw_span size span) (next_mark t.store))
        t.store.layout
        mid
    → Succeeds sys fd length' old new
    → layout_in old ≡ mid
    → get_page_size sys.sysconf ≤ length'
    → get_memory_layout_size (value_of size) ≤ length'
    → (os_calls : List Call) × (c : Context) × (initialize_span_data sys (value_of target)
        ≡ ok (os_calls, some c))
      × ((Matches c.recovered_spans b) ⊎ (Matches c.recovered_spans (put size span b)))
      × IsFresh target c
initialize_span_data-CrashMatches size target m b span mid sys fd length' old new t current fresh
      room nonzero bound crash s file page fits =
    let d = t.store in
    let r = to_raw_span size span in
    let free : active_count d < (mmap_config size).max_spans = omega (arith, t.count) in
    let marks : d.mark_counter < 2 ^ 64 - 1 = omega (arith, t.last_mark) in
    let absent : t.map span.span_id ≡ none =
      absent_of_view t.valid span.span_id (t.entries span.span_id ∙ fresh) in
    let whole =
      Shows-put t span (view d t.map) b _
        (with_new-Added size d t.map span t.valid absent free nonzero marks) t.entries refl
        (ap (λ n. n + 1) t.count) in
    let marked : 0 < next_mark d =
      omega (arith, next_mark_lem d t.map span t.valid absent free nonzero marks) in
    let kept =
      Crash-IsCurrent (add_writes (active_count d) r (next_mark d)) d.layout mid old crash file
        current in
    let (os_calls, c, opened, read, f) =
      initialize_span_data-recovers sys size target fd length' old new s kept
        (subst (IsRecoverable size) (sym file) (
          add-Crash-IsRecoverable size d.layout mid r (next_mark d) t.valid.layout free marked
            (to_raw_span-IsRawSpan size span) crash))
        page fits in
    let found : read_spans (recoverable mid) ≡ ok c.recovered_spans =
      sym (ap (λ l. read_spans (recoverable l)) file) ∙ read in
    (
      os_calls,
      c,
      opened,
      elim (add-Crash size d.layout mid r (next_mark d) t.valid.layout free marked crash) [
        | inl e ↦ inl (Shows-Matches t c.recovered_spans (sym (ap read_spans e) ∙ found))
        | inr e ↦
            let (slot, there) = slot_total d.layout (active_count d) t.valid.layout free in
            let both = e ∙ sym (recoverable-added d.layout r (next_mark d) slot there marked) in
            inr (Shows-Matches whole c.recovered_spans (sym (ap read_spans both) ∙ found))
      ],
      f,
    )

-- ===== src/Initialize/RemoveReopened.antt =====
-- A process that dies inside `remove`, and what the next one recovers.
use firebase_telemetry_persi.Common.{
  ℕ, suc, ◌-◌, ◌≤◌, ◌≡◌, ◌≢◌, ap, sym, subst, ◌∙◌, some, ok, List, arith, length, get_elem?,
  get_elem?-take,
}
use firebase_telemetry_persi.Layout.{
  MmapSize, value_of, MarkedSpan, RawSpan, MemoryLayout, get_memory_layout_size,
}
use firebase_telemetry_persi.Span.{Span, of_raw_span}
use firebase_telemetry_persi.RawSpanData.{slot?}
use firebase_telemetry_persi.RawSpanData.Remove.{active}
use firebase_telemetry_persi.RawSpanData.Recoverable.{
  recoverable, recoverable-active, length-active,
}
use firebase_telemetry_persi.RawSpanData.Crash.{Crash}
use firebase_telemetry_persi.RawSpanData.CrashRemove.{Removal, stores_of_remove, remove-Crash}
use firebase_telemetry_persi.RawSpanData.Survivors.{Survives, Removal-Survives}
use firebase_telemetry_persi.MutableSpanData.{MutableSpanData}
use firebase_telemetry_persi.MutableSpanData.Invariant.{index_injective, active_count}
use firebase_telemetry_persi.MutableSpanData.Promise.{SpanMap, Shows}
use firebase_telemetry_persi.Context.{Context}
use firebase_telemetry_persi.Initialize.{
  System, Contents, Call, layout_in, get_page_size, initialize_span_data,
}
use firebase_telemetry_persi.Initialize.Recovery.{read_spans}
use firebase_telemetry_persi.Initialize.Success.{IsCurrent, IsRecoverable}
use firebase_telemetry_persi.Initialize.AfterCrash.{remove-Crash-IsRecoverable}
use firebase_telemetry_persi.Initialize.Prepared.{Succeeds, IsFresh, initialize_span_data-recovers}
use firebase_telemetry_persi.Initialize.Reopened.{
  active_spans, entry_there, there_entry, read_spans-Reads, length-Reads, Reads-forth, Reads-back,
  get_elem?-spans, length-spans,
}
use firebase_telemetry_persi.Initialize.CrashReopened.{Crash-IsCurrent}

-- Each span of the map under another id was recovered, nothing but spans of the map was, and there are
-- no more of them.
pub record MatchesBut (id : ℕ) (recovered : List Span) (b : SpanMap) : Type 0 where
  pub size : length recovered ≤ b.count
  pub others :
      (other : ℕ) (s : MarkedSpan)
      → b.entries other ≡ some s
      → id ≢ other
      → (k : ℕ) × (span : Span) × (get_elem? recovered k ≡ some span)
        × (of_raw_span s.span ≡ ok span)
  pub only :
      (k : ℕ) (span : Span)
      → get_elem? recovered k ≡ some span
      → (s : MarkedSpan) × (b.entries span.span_id ≡ some s) × (of_raw_span s.span ≡ ok span)

Survives-MatchesBut :
    {size : MmapSize} {m : MutableSpanData} {b : SpanMap} (t : Shows size m b) (id i : ℕ)
    (raws : List RawSpan) (found : List Span)
    → t.map id ≡ some i
    → Survives (active_spans t) i raws
    → read_spans raws ≡ ok found
    → MatchesBut id found b
Survives-MatchesBut t id i raws found at v e =
    let reads = read_spans-Reads raws found e in
    record {
      size = omega (
        arith,
        length-Reads raws found reads,
        v.shorter,
        length-spans (active t.store.layout),
        length-active t.store.layout t.valid.layout,
        t.count,
      );
      others = λ other s h ne.
          let (j, there, raw) = entry_there t other s h in
          let (k, kept) =
            v.forth j s.span raw
              (λ same. ne (index_injective t.valid id other j (at ∙ ap some same) there)) in
          let (span, f, q) = Reads-forth raws found k s.span reads kept in (k, span, f, q);
      only = λ k span h.
          let (r, f, q) = Reads-back raws found k span reads h in
          let (j, raw) = v.back k r f in there_entry t j r span raw q;
    }

-- An object stands for a map, in a file of the current version, and the process dies inside the stores
-- of `remove` for the span with the given id, which is in slot i while `last` is in the last active
-- slot. When the file is opened again, with system calls that succeed, a fresh handle is returned. It
-- has recovered every span of the map but perhaps the one that was being removed, nothing that is not
-- a span of the map, and no more spans than the map has. The file is at least as long as its layout
-- and a page.
pub initialize_span_data-MatchesBut :
    (size target : MmapSize) (m : MutableSpanData) (b : SpanMap) (id i : ℕ) (last : MarkedSpan)
    (mid : MemoryLayout) (sys : System) (fd length' : ℕ) (old new : Contents) (t : Shows size m b)
    → IsCurrent t.store.layout.header
    → t.map id ≡ some i
    → slot? t.store.layout (active_count t.store - 1) ≡ some last
    → Crash (stores_of_remove i (active_count t.store - 1) last) t.store.layout mid
    → Succeeds sys fd length' old new
    → layout_in old ≡ mid
    → get_page_size sys.sysconf ≤ length'
    → get_memory_layout_size (value_of size) ≤ length'
    → (os_calls : List Call) × (c : Context) × (initialize_span_data sys (value_of target)
        ≡ ok (os_calls, some c))
      × MatchesBut id c.recovered_spans b
      × IsFresh target c
initialize_span_data-MatchesBut size target m b id i last mid sys fd length' old new t current at
      at_last crash s file page fits =
    let l = t.store.layout in
    let n = active_count t.store - 1 in
    let v = t.valid.layout in
    let (_, _, _, lt) = t.valid.points id i at in
    let inside : i ≤ n = omega arith in
    let whole : active_count t.store ≡ suc n = omega arith in
    let kept = Crash-IsCurrent (stores_of_remove i n last) l mid old crash file current in
    let (os_calls, c, opened, read, f) =
      initialize_span_data-recovers sys size target fd length' old new s kept
        (subst (IsRecoverable size) (sym file)
          (remove-Crash-IsRecoverable size l mid i n last v inside whole at_last crash))
        page fits in
    let survives =
      Removal-Survives (active_spans t) i n last.span (recoverable mid) inside
        (omega (arith, length-spans (active l), length-active l v))
        (get_elem?-spans (active l) n last
          (get_elem?-take l.header.active_span_count l.marked_spans n (omega arith) ∙ at_last))
        (subst (λ rs. Removal rs i n last.span (recoverable mid)) (recoverable-active l v)
          (remove-Crash l mid i n last v inside whole at_last crash)) in
    (
      os_calls,
      c,
      opened,
      Survives-MatchesBut t id i (recoverable mid) c.recovered_spans at survives
          (sym (ap (λ l. read_spans (recoverable l)) file) ∙ read),
      f,
    )

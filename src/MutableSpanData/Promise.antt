-- ===== src/MutableSpanData/Promise.antt =====
-- What `MutableSpanData` promises, without slots, indices and files: a finite map from span ids to
-- marked spans that is bounded and gives up its oldest span for a new one.
pub mod Kept
use firebase_telemetry_persi.Common.{
  ℕ, zero, suc, ◌+◌, ◌-◌, ◌^◌, ◌≤◌, ◌<◌, ◌≡◌, refl, sym, ap, ◌∙◌, Option, none, some, List, [], ◌∷◌,
  Result, ok, ◌>>=◌, arith, All, length, Option-cases, Bool-cases, inl, inr, ltb, ltb→lt,
  ltb_false→le, ◌==◌, if◌then◌else◌,
}
use firebase_telemetry_persi.CopyString.{Bytes}
use firebase_telemetry_persi.Layout.{MmapSize, mmap_config, MarkedSpan}
use firebase_telemetry_persi.Span.{Span, to_raw_span}
use firebase_telemetry_persi.RawSpanData.{RawSpanData}
use firebase_telemetry_persi.RawSpanData.Attributes.{put_raw}
use firebase_telemetry_persi.MutableSpanData
use firebase_telemetry_persi.MutableSpanData.{MutableSpanData, Map}
use firebase_telemetry_persi.MutableSpanData.Invariant.{
  active_count, state, IsIndexed, view, view-at, view-absent,
}
use firebase_telemetry_persi.MutableSpanData.Remove.{Removed, remove-present, remove-absent}
use firebase_telemetry_persi.MutableSpanData.Insert.{
  Added, all_but, absent_of_view, add-present, add-room, add-full, count-of_size,
}
use firebase_telemetry_persi.MutableSpanData.Updates.{
  Updated, set_attribute_on_span-present, end-present, updates-absent,
}
use firebase_telemetry_persi.MutableSpanData.History.{
  Call, adds, removes, sets, ends, step, run, IsCall,
}

pub record SpanMap : Type 0 where
  pub entries : ℕ → Option MarkedSpan
  pub count : ℕ
  pub last_mark : ℕ

-- A new span, with the next mark.
abbrev pub put : MmapSize → Span → SpanMap → SpanMap
put size span a = record {
  entries = λ j.
      if span.span_id == j
      then some (record { mark = a.last_mark + 1; span = to_raw_span size span })
      else a.entries j;
  count = a.count + 1;
  last_mark = a.last_mark + 1;
}

abbrev pub drop : ℕ → SpanMap → SpanMap
drop id a = record a { entries = all_but id a.entries; count = a.count - 1 }

abbrev pub replace : ℕ → MarkedSpan → SpanMap → SpanMap
replace id s a = record a { entries = λ j. if id == j then some s else a.entries j }

-- The id that a call is about.
abbrev pub target : Call → ℕ
target (adds span) = span.span_id
target (removes id) = id
target (sets id key value) = id
target (ends now id end_time) = id

abbrev pub IsAdd : Call → Type 0
IsAdd (adds span) = Unit {0}
IsAdd c = ⊥

-- What a call may do.
pub data Step (size : MmapSize) (a : SpanMap) : Call → SpanMap → Type 0 where
  added_already :
      {span : Span} {s : MarkedSpan} → a.entries span.span_id ≡ some s → Step size a (adds span) a
  added :
      {span : Span}
      → a.entries span.span_id ≡ none
      → a.count < (mmap_config size).max_spans
      → Step size a (adds span) (put size span a)
  evicted :
      {span : Span} {oldest : MarkedSpan}
      → a.entries span.span_id ≡ none
      → a.count ≡ (mmap_config size).max_spans
      → a.entries oldest.span.span_id ≡ some oldest
      → ((id : ℕ) (t : MarkedSpan) → a.entries id ≡ some t → oldest.mark ≤ t.mark)
      → Step size a (adds span) (put size span (drop oldest.span.span_id a))
  absent : {c : Call} → (IsAdd c → ⊥) → a.entries (target c) ≡ none → Step size a c a
  removed : {id : ℕ} {s : MarkedSpan} → a.entries id ≡ some s → Step size a (removes id) (drop id a)
  attribute_set :
      {id : ℕ} {key value : Bytes} {s : MarkedSpan}
      → a.entries id ≡ some s
      → Step size a
          (sets id key value)
          (replace id (record s { span = (put_raw size s.span key value).1 }) a)
  ended :
      {now id end_time : ℕ} {s : MarkedSpan}
      → a.entries id ≡ some s
      → Step size a (ends now id end_time) (
          replace id
            (record s {
              span = record (s.span) { end_time = if end_time == 0 then now else end_time };
            })
            a)

pub data Steps (size : MmapSize) : SpanMap → List Call → SpanMap → Type 0 where
  done : {a : SpanMap} → Steps size a [] a
  and_then :
      {a b c : SpanMap} {call : Call} {calls : List Call}
      → Step size a call b
      → Steps size b calls c
      → Steps size a (call ∷ calls) c

-- The object stands for the map: it meets the invariant, and shows under each id what the map has.
pub record Shows (size : MmapSize) (m : MutableSpanData) (a : SpanMap) : Type 0 where
  pub store : RawSpanData
  pub map : Map
  pub shape : m ≡ state size store map
  pub valid : IsIndexed size store map
  pub entries : (j : ℕ) → view store map j ≡ a.entries j
  pub count : active_count store ≡ a.count
  pub last_mark : store.mark_counter ≡ a.last_mark

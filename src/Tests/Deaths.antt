-- ===== src/Tests/Deaths.antt =====
-- The theorems on processes that die inside a call.
use firebase_telemetry_persi.Tests.Runs.{opened, contents_of}
use firebase_telemetry_persi.Initialize.RemoveReopened.{MatchesBut, initialize_span_data-MatchesBut}
use firebase_telemetry_persi.RawSpanData.CrashRemove.{stores_of_remove}
use firebase_telemetry_persi.RawSpanData.Crash.{Crash}
use firebase_telemetry_persi.RawSpanData.Valid.{slot_total}
use firebase_telemetry_persi.Initialize.Success.{IsCurrent}
use firebase_telemetry_persi.MutableSpanData.Insert.{add-room, absent_of_view}
use firebase_telemetry_persi.Common.Interrupts.{torn, next}
use firebase_telemetry_persi.RawSpanData.{
  slot?, remove_writes, remove_last_writes, write, set_span, set_mark, add_writes,
}
use firebase_telemetry_persi.MutableSpanData.Invariant.{view-some, active_count}
use firebase_telemetry_persi.Initialize.CrashReopened.{initialize_span_data-CrashMatches}
use firebase_telemetry_persi.Tests.Data.{request}
use firebase_telemetry_persi.Tests.Files.{system, system-Succeeds, small_size, page_size}
use firebase_telemetry_persi.Common.{
  inr, ◌<◌, ◌+◌, ◌-◌, ◌^◌, ◌∙◌, ap, Bool-cases, ◌==◌, ℕ, ◌≡◌, ◌⊎◌, refl, inl, ok, some, none, List,
  arith,
}
use firebase_telemetry_persi.Layout.{MarkedSpan, small, medium, value_of, MemoryLayout}
use firebase_telemetry_persi.Span.{to_raw_span}
use firebase_telemetry_persi.MutableSpanData.{MutableSpanData}
use firebase_telemetry_persi.MutableSpanData.Promise.{put, SpanMap, Shows}
use firebase_telemetry_persi.MutableSpanData.Promise.Kept.{Shows-put}
use firebase_telemetry_persi.Context.{Context}
use firebase_telemetry_persi.Initialize
use firebase_telemetry_persi.Initialize.{
  System, Contents, layout_in, get_page_size, initialize_span_data,
}
use firebase_telemetry_persi.Initialize.Prepared.{IsFresh}
use firebase_telemetry_persi.Initialize.Reopened.{Matches, no_spans, fresh-Shows}

-- The object for an empty file, and a crash in front of the third store of `add`.
abbrev empty_file : Shows small opened.context.mutable_span_data no_spans
empty_file = fresh-Shows opened.fresh

abbrev half_written : MemoryLayout
half_written =
    write (set_span (active_count empty_file.store) (to_raw_span small (request 9)))
      (write (set_mark (active_count empty_file.store) 0) empty_file.store.layout)

initialize_span_data-CrashMatches_example :
    (os_calls : List Initialize.Call) × (c : Context) × (initialize_span_data
        (system (contents_of half_written))
        (value_of small)
      ≡ ok (os_calls, some c))
    × ((Matches c.recovered_spans no_spans)
        ⊎ (Matches c.recovered_spans (put small (request 9) no_spans)))
    × IsFresh small c
unfolding add_writes
initialize_span_data-CrashMatches_example =
    initialize_span_data-CrashMatches small small opened.context.mutable_span_data no_spans
      (request 9) half_written (system (contents_of half_written)) 3 413696
      (contents_of half_written) (contents_of half_written) empty_file opened.fresh.current refl
      (omega arith) (omega arith) (omega arith) (next (next (torn (inl refl))))
      (system-Succeeds (contents_of half_written)) refl page_size small_size

-- An object in a current file, with the map that it stands for.
record Standing (b : SpanMap) : Type 0 where
  object : MutableSpanData
  shows : Shows small object b
  current : IsCurrent shows.store.layout.header

standing : Standing no_spans
standing = record {
  object = opened.context.mutable_span_data;
  shows = empty_file;
  current = opened.fresh.current;
}

added_to :
    (b : SpanMap) (id : ℕ)
    → Standing b
    → b.entries id ≡ none
    → b.count < 128
    → b.last_mark < 2 ^ 64 - 1
    → 0 < id
    → Standing (put small (request id) b)
added_to b id a new room bound nonzero =
    let t = a.shows in
    let (m, _, r, c) =
      add-room small t.store t.map (request id) t.valid
        (absent_of_view t.valid id (t.entries id ∙ new)) (omega (arith, t.count)) nonzero
        (omega (arith, t.last_mark)) in
    record {
      object = m;
      shows = Shows-put t (request id) _ b m r t.entries refl (c ∙ ap (λ n. n + 1) t.count);
      current = record {
        signature = r.same_file.signature ∙ a.current.signature;
        version = r.same_file.version ∙ a.current.version;
      };
    }

abbrev two_spans : SpanMap
two_spans = put small (request 9) (put small (request 8) no_spans)

abbrev standing_two : Standing two_spans
standing_two =
    added_to (put small (request 8) no_spans) 9
      (added_to no_spans 8 standing refl (omega arith) (omega arith) (omega arith)) refl
      (omega arith) (omega arith) (omega arith)

-- The first of them is removed, and the process dies after the first store.
record Dying : Type 0 where
  index : ℕ
  last : MarkedSpan
  at : standing_two.shows.map 8 ≡ some index
  at_last :
      slot? standing_two.shows.store.layout (active_count standing_two.shows.store - 1) ≡ some last

dying : Dying
dying =
    let t = standing_two.shows in
    let (i, e, _, _, _) = view-some t.valid 8 _ (t.entries 8) in
    let (s, there) =
      slot_total t.store.layout (active_count t.store - 1) t.valid.layout
        (omega (arith, t.count)) in
    record { index = i; last = s; at = e; at_last = there }

abbrev half_removed : MemoryLayout
half_removed = write (set_mark dying.index 0) standing_two.shows.store.layout

half_removed-Crash :
    Crash
      (stores_of_remove dying.index (active_count standing_two.shows.store - 1) dying.last)
      standing_two.shows.store.layout
      half_removed
unfolding remove_writes remove_last_writes
half_removed-Crash =
    elim (Bool-cases (dying.index == (active_count standing_two.shows.store - 1))) [
      | inl e ↦ rw e (torn (inr refl))
      | inr e ↦ rw e (torn (inr refl))
    ]

initialize_span_data-MatchesBut_example :
    (os_calls : List Initialize.Call) × (c : Context) × (initialize_span_data
        (system (contents_of half_removed))
        (value_of medium)
      ≡ ok (os_calls, some c))
    × MatchesBut 8 c.recovered_spans two_spans
    × IsFresh medium c
initialize_span_data-MatchesBut_example =
    initialize_span_data-MatchesBut small medium standing_two.object two_spans 8 dying.index
      dying.last half_removed (system (contents_of half_removed)) 3 413696
      (contents_of half_removed) (contents_of half_removed) standing_two.shows standing_two.current
      dying.at dying.at_last half_removed-Crash (system-Succeeds (contents_of half_removed)) refl
      page_size small_size

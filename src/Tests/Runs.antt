-- ===== src/Tests/Runs.antt =====
-- The theorems on whole runs, from a new file on.
use firebase_telemetry_persi.Initialize.Resources.{initialize_span_data_releases}
use firebase_telemetry_persi.Initialize.Held.{settle, nothing_held}
use firebase_telemetry_persi.Tests.Data.{request, red, blue, new_file}
use firebase_telemetry_persi.Tests.Files.{system, system-Succeeds, small_size, page_size}
use firebase_telemetry_persi.Common.{
  inr, true, ℕ, ◌≡◌, ◌⊎◌, refl, inl, ok, some, none, List, [], ◌∷◌, arith, length, get_elem?,
}
use firebase_telemetry_persi.Layout.{small, medium, value_of, MemoryLayout}
use firebase_telemetry_persi.Span.{Span}
use firebase_telemetry_persi.MutableSpanData
use firebase_telemetry_persi.MutableSpanData.{MutableSpanData}
use firebase_telemetry_persi.MutableSpanData.History.{Call, adds, removes, sets, ends, run}
use firebase_telemetry_persi.MutableSpanData.Promise.{SpanMap, Steps, Shows}
use firebase_telemetry_persi.MutableSpanData.Promise.Kept.{run-Keeps}
use firebase_telemetry_persi.RawSpanData.SameFile.{SameFile}
use firebase_telemetry_persi.Context.{Context}
use firebase_telemetry_persi.Initialize
use firebase_telemetry_persi.Initialize.{
  get_aligned_size, System, Contents, layout_in, get_page_size, initialize_span_data,
}
use firebase_telemetry_persi.Initialize.Prepared.{Succeeds, IsFresh}
use firebase_telemetry_persi.Initialize.StartsOver.{initialize_span_data_starts_over}
use firebase_telemetry_persi.Initialize.Reopened.{
  Matches, no_spans, fresh-Shows, file_of, initialize_span_data-Matches,
}
use firebase_telemetry_persi.Main.{main}
use firebase_telemetry_persi.Main.Again.{HasId, written, main_lem, main_again, printed}

-- The bytes of a layout.
abbrev pub contents_of : MemoryLayout → Contents
contents_of l = record { header = l.header; spans_as = λ size. l.marked_spans }

-- A file that `open` has made.
abbrev pub new_system : System
new_system = record {
  size_bits = 64;
  fd = some 3;
  st_size = some 0;
  sysconf = some 4096;
  mapped = none;
  truncated = true;
  remapped = some (contents_of new_file);
}

abbrev emptied : System
emptied = record new_system { mapped = some (contents_of new_file) }

emptied-Succeeds : Succeeds emptied 3 0 (contents_of new_file) (contents_of new_file)
unfolding get_page_size
emptied-Succeeds = record {
  opened = refl;
  sized = refl;
  mapped = refl;
  truncated = refl;
  remapped = refl;
  wide = inr refl;
  paged = omega arith;
}

-- What opening it gives.
pub record Opened : Type 0 where
  pub os_calls : List Initialize.Call
  pub context : Context
  pub returns : initialize_span_data emptied (value_of small) ≡ ok (os_calls, some context)
  pub fresh : IsFresh small context

pub opened : Opened
unfolding get_page_size
opened =
    let (os_calls, c, e, _, f) =
      initialize_span_data_starts_over emptied small 3 0 (contents_of new_file)
        (contents_of new_file) emptied-Succeeds (inl (omega arith)) in
    record { os_calls = os_calls; context = c; returns = e; fresh = f }

-- A handle is returned, and its mapping stays.
initialize_span_data_releases_example :
    settle opened.os_calls nothing_held
    ≡ some (record { files = []; regions = get_aligned_size 64 (some 4096) (value_of small) ∷ [] })
initialize_span_data_releases_example =
    initialize_span_data_releases emptied (value_of small) opened.os_calls (some opened.context)
      opened.returns

abbrev some_calls : List Call
some_calls = adds (request 7) ∷ sets 7 red blue ∷ adds (request 8) ∷ ends 200 7 0 ∷ removes 8 ∷ []

run-Keeps_example :
    (m : MutableSpanData) × (b : SpanMap) × (run opened.context.mutable_span_data some_calls ≡ ok m)
    × Steps small no_spans some_calls b
    × (MutableSpanData.count m ≡ b.count)
    × (t : Shows small m b) × SameFile
        (fresh-Shows opened.fresh).store.layout.header
        t.store.layout.header
run-Keeps_example =
    run-Keeps some_calls opened.context.mutable_span_data no_spans (fresh-Shows opened.fresh)
      (omega arith, (tt, (omega arith, (tt, (tt, tt))))) (omega arith)

-- What those calls leave.
abbrev left : (m : MutableSpanData) × (run opened.context.mutable_span_data some_calls ≡ ok m)
left =
    let (m, _, e, _, _, _, _) =
      run-Keeps some_calls opened.context.mutable_span_data no_spans (fresh-Shows opened.fresh)
        (omega arith, (tt, (omega arith, (tt, (tt, tt))))) (omega arith) in
    (m, e)

abbrev left_file : Contents
left_file = contents_of (file_of left.0.impl)

initialize_span_data-Matches_example :
    (b : SpanMap) × (os_calls : List Initialize.Call) × (c' : Context) × Steps small no_spans
      some_calls b
    × (initialize_span_data (system left_file) (value_of medium) ≡ ok (os_calls, some c'))
    × Matches c'.recovered_spans b
    × IsFresh medium c'
initialize_span_data-Matches_example =
    initialize_span_data-Matches small medium opened.context some_calls left.0 (system left_file) 3
      413696 left_file left_file opened.fresh (omega arith, (tt, (omega arith, (tt, (tt, tt)))))
      (omega arith) left.1 (system-Succeeds left_file) refl page_size small_size

-- The first run of the program.
abbrev first_run :
    (m : MutableSpanData) × (run opened.context.mutable_span_data written ≡ ok m)
    × (main emptied
        ≡ ok (record { code = 0; output = printed opened.context.recovered_spans; left = some m }))
first_run = main_lem emptied opened.os_calls opened.context opened.returns opened.fresh

abbrev after_run : Contents
after_run = contents_of (file_of first_run.0.impl)

main_again_example :
    (recovered : List Span) × (m : MutableSpanData) × (length recovered ≡ 2)
    × ((i : ℕ) (span : Span)
        → get_elem? recovered i ≡ some span
        → (span.span_id ≡ 271) ⊎ (span.span_id ≡ 272))
    × HasId recovered 271
    × HasId recovered 272
    × (main (system after_run)
        ≡ ok (record { code = 0; output = printed recovered; left = some m }))
main_again_example =
    main_again emptied (system after_run) opened.os_calls opened.context
      (record {
        code = 0;
        output = printed opened.context.recovered_spans;
        left = some (first_run.0);
      })
      first_run.0 3 413696 after_run after_run opened.returns opened.fresh first_run.2 refl
      (system-Succeeds after_run) refl page_size small_size

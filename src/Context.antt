-- ===== src/Context.antt =====
-- src/initialize.cpp: the class `Context`, and the functions on a handle of it.
use firebase_telemetry_persi.Common.{
  ◌≡◌, refl, Bool, true, false, Option, none, some, List, [], if◌then◌else◌,
}
use firebase_telemetry_persi.Span.{Span}
use firebase_telemetry_persi.SpanDataImpl
use firebase_telemetry_persi.SpanDataImpl.{DataVariant}
use firebase_telemetry_persi.MutableSpanData.{MutableSpanData, make_mutable_span_data}

-- `span_data_impl_` is the object that `mutable_span_data_` refers to, so it stands there only.
pub record Context : Type 0 where
  pub recovered_spans : List Span
  pub is_recovered : Bool
  pub mutable_span_data : MutableSpanData

-- The constructor removes all spans from the file.
unfoldable pub make_context : DataVariant → List Span → Context
make_context impl recovered_spans = record {
  recovered_spans = recovered_spans;
  is_recovered = false;
  mutable_span_data = make_mutable_span_data (SpanDataImpl.remove_all impl);
}

-- The methods of `Context` and the functions on a handle; `none` is the null pointer. What is left
-- of the moved vector is empty here; no method reads it again.
unfoldable pub take_recovered_spans : Context → List Span × Context
take_recovered_spans c = (c.recovered_spans, record c { recovered_spans = []; is_recovered = true })

unfoldable pub get_recovered_spans : Option Context → List Span × Option Context
unfolding take_recovered_spans
get_recovered_spans none = ([], none)
get_recovered_spans (some c) =
    if c.is_recovered
    then ([], some c)
    else (let (spans, c') = take_recovered_spans c in (spans, some c'))

unfoldable pub get_mutable_span_data : Option Context → Option MutableSpanData
get_mutable_span_data none = none
get_mutable_span_data (some c) = if c.is_recovered then some (c.mutable_span_data) else none

-- What the handle is afterwards.
unfoldable pub release_span_data : Option Context → Option Context
release_span_data context = none

-- On a fresh handle: the mutable data is not there before the recovered spans have been fetched; the
-- first call gives all of them, and the data is there from then on; another call gives nothing and
-- changes nothing.
pub recovered_once :
    (impl : DataVariant) (spans : List Span)
    → let c = make_context impl spans in
      let after = (get_recovered_spans (some c)).1 in
      (get_mutable_span_data (some c) ≡ none)
      × ((get_recovered_spans (some c)).0 ≡ spans)
      × (get_mutable_span_data after ≡ some (c.mutable_span_data))
      × (get_recovered_spans after ≡ ([], after))
unfolding make_context get_mutable_span_data get_recovered_spans take_recovered_spans
recovered_once impl spans = (refl, refl, refl, refl)

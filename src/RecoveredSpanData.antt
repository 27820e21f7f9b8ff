-- ===== src/RecoveredSpanData.antt =====
-- include/firebase/telemetry/persistence/recovered_span_data.h and src/recovered_span_data.cpp: the
-- view of the slots that recovery reads through. `impl` is the object that `impl_` refers to.
use firebase_telemetry_persi.Common.{ℕ, Result}
use firebase_telemetry_persi.Span.{Span}
use firebase_telemetry_persi.SpanDataImpl
use firebase_telemetry_persi.SpanDataImpl.{DataVariant}

pub record RecoveredSpanData : Type 0 where
  pub impl : DataVariant

-- The constructor.
abbrev pub make_recovered_span_data : DataVariant → RecoveredSpanData
make_recovered_span_data impl = record { impl = impl }

abbrev pub count : RecoveredSpanData → ℕ
count r = SpanDataImpl.count r.impl

abbrev pub max_count : RecoveredSpanData → ℕ
max_count r = SpanDataImpl.max_count r.impl

abbrev pub get_mark : RecoveredSpanData → ℕ → Result ℕ
get_mark r raw_index = SpanDataImpl.get_mark r.impl raw_index

abbrev pub get : RecoveredSpanData → ℕ → Result Span
get r raw_index = SpanDataImpl.get r.impl raw_index

-- ===== src/Initialize/Corrupt.antt =====
-- A file whose header counts more spans than the layout has slots.
use firebase_telemetry_persi.Span.{Span}
use firebase_telemetry_persi.RawSpanData
use firebase_telemetry_persi.RawSpanData.{RawSpanData, slot?}
use firebase_telemetry_persi.SpanDataImpl
use firebase_telemetry_persi.Context.{Context}

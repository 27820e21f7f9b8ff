-- ===== src/Tests/Slots.antt =====
-- The theorems on layouts and slots at concrete layouts.
use firebase_telemetry_persi.Tests.Data.{request, cleared, new_file, red, blue}
use firebase_telemetry_persi.Tests.Strings.{red-NulFree, blue-NulFree}
use firebase_telemetry_persi.Common.{
  replicate, ℕ, ◌≢◌, ◌≡◌, refl, inr, ok, arith, ◌⊎◌, some, [], ◌∷◌, ◌++◌,
}
use firebase_telemetry_persi.Common.Interrupts.{torn, next}
use firebase_telemetry_persi.Layout.{
  zero_marked_span, RawAttribute, small, MemoryLayout, RawSpan, zero_raw_span,
}
use firebase_telemetry_persi.CopyString.{get_utf8_length, retreat, is_utf8_continuation_byte}
use firebase_telemetry_persi.CopyString.Buffers.{c_str, until_nul, truncate}
use firebase_telemetry_persi.Span.{of_raw_span, to_raw_span}
use firebase_telemetry_persi.Span.Valid.{to_raw_span-IsRawSpan, IsRawSpan}
use firebase_telemetry_persi.Span.RoundTrip.{of_raw_span-to_raw_span, kept_span}
use firebase_telemetry_persi.RawSpanData.{make_raw_span_data, write, set_mark, set_span, add_writes}
use firebase_telemetry_persi.RawSpanData.Valid.{IsLayout}
use firebase_telemetry_persi.RawSpanData.Clear.{remove_all-IsLayout}
use firebase_telemetry_persi.RawSpanData.Attributes.{put_raw, get_attribute, HasRoom}
use firebase_telemetry_persi.RawSpanData.Dictionary.{
  get_attribute-put_raw_self, get_attribute-put_raw_other,
}
use firebase_telemetry_persi.RawSpanData.Recoverable.{recoverable}
use firebase_telemetry_persi.RawSpanData.Crash.{add-Crash}

abbrev raw_request : RawSpan
raw_request = to_raw_span small (request 7)

raw_request-IsRawSpan : IsRawSpan 16 raw_request
raw_request-IsRawSpan = to_raw_span-IsRawSpan small (request 7)

of_raw_span-to_raw_span_example : of_raw_span raw_request ≡ ok (kept_span small (request 7))
of_raw_span-to_raw_span_example = of_raw_span-to_raw_span small (request 7)

remove_all-IsLayout_example :
    IsLayout small cleared.layout
    × (cleared.layout.header.active_span_count ≡ 0)
    × (cleared.layout.header ≡ record new_file.header { active_span_count = 0 })
    × (cleared.layout.marked_spans ≡ replicate 128 (zero_marked_span small))
    × (cleared.mark_counter ≡ 0)
remove_all-IsLayout_example = remove_all-IsLayout small (make_raw_span_data new_file) refl

request-HasRoom : HasRoom small raw_request blue
unfolding to_raw_span
request-HasRoom = inr (omega arith)

get_attribute-put_raw_self_example :
    (a : RawAttribute) × (get_attribute blue (put_raw small raw_request blue red).1 ≡ some a)
    × (c_str a.value ≡ ok (until_nul (truncate 128 red)))
get_attribute-put_raw_self_example =
    get_attribute-put_raw_self small raw_request blue red raw_request-IsRawSpan request-HasRoom

different_keys : truncate 64 blue ≢ truncate 64 red
unfolding get_utf8_length retreat is_utf8_continuation_byte
different_keys = λ e. absurd (cc)

get_attribute-put_raw_other_example :
    get_attribute red (put_raw small raw_request blue red).1 ≡ get_attribute red raw_request
get_attribute-put_raw_other_example =
    get_attribute-put_raw_other small raw_request blue red raw_request-IsRawSpan red blue-NulFree
      red-NulFree different_keys

abbrev first_free : ℕ
first_free = cleared.layout.header.active_span_count

-- A crash inside the copy of the span.
abbrev half_added : MemoryLayout
half_added =
    write (set_span first_free (zero_raw_span small)) (write (set_mark first_free 0) cleared.layout)

cleared-empty : first_free ≡ 0
cleared-empty = (remove_all-IsLayout small (make_raw_span_data new_file) refl).1

add-Crash_example :
    (recoverable half_added ≡ recoverable cleared.layout)
    ⊎ (recoverable half_added ≡ recoverable cleared.layout ++ (raw_request ∷ []))
unfolding add_writes
add-Crash_example =
    add-Crash small cleared.layout half_added raw_request 1
      (remove_all-IsLayout small (make_raw_span_data new_file) refl).0
      (omega (arith, cleared-empty)) (omega arith) (next (torn (zero_raw_span small, refl)))

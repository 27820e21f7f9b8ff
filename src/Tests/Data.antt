-- ===== src/Tests/Data.antt =====
-- Test data: strings, spans and stores.
use firebase_telemetry_persi.Common.{ℕ, refl, [], ◌∷◌}
use firebase_telemetry_persi.CopyString.{Bytes, is_utf8_continuation_byte}
use firebase_telemetry_persi.CopyString.Characters.{Character}
use firebase_telemetry_persi.Layout.{small, value_of, MemoryLayout}
use firebase_telemetry_persi.Span.{Span}
use firebase_telemetry_persi.RawSpanData.{RawSpanData, remove_all, make_raw_span_data}

-- "ab" and two bytes that encode one character.
abbrev pub cafe : Bytes
cafe = 97 ∷ 98 ∷ 195 ∷ 169 ∷ []

abbrev pub letter : Character
unfolding is_utf8_continuation_byte
letter = record { lead = 97; rest = []; starts = refl; continues = tt }

abbrev pub accent : Character
unfolding is_utf8_continuation_byte
accent = record { lead = 195; rest = 169 ∷ []; starts = refl; continues = (refl, tt) }

abbrev pub red : Bytes
red = 114 ∷ 101 ∷ 100 ∷ []

abbrev pub blue : Bytes
blue = 98 ∷ 108 ∷ 117 ∷ 101 ∷ []

abbrev pub four_bytes : Bytes
four_bytes = 1 ∷ 0 ∷ 3 ∷ 4 ∷ []

abbrev pub request : ℕ → Span
request id = record {
  trace_id = record { high = 5; low = 6 };
  span_id = id;
  parent_span_id = 0;
  start_time = 100;
  end_time = 0;
  name = red;
  attributes = (red, blue) ∷ [];
}

abbrev pub new_file : MemoryLayout
new_file = record {
  header = record {
    signature = 1213416003;
    version = 2;
    mmap_size = value_of small;
    active_span_count = 0;
  };
  marked_spans = [];
}

-- The store of a small file, once it has been cleared.
abbrev pub cleared : RawSpanData
cleared = remove_all small (make_raw_span_data new_file)

-- The four bytes with the third one cleared.
abbrev pub half_cleared : Bytes
half_cleared = 1 ∷ 0 ∷ 0 ∷ 4 ∷ []

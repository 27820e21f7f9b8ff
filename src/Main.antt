-- ===== src/Main.antt =====
-- src/main.cpp: the demonstration program. What it prints is a list of lines, and `data.mmap` is the
-- file that `System` answers for.
pub mod Again
use firebase_telemetry_persi.Common.{
  ℕ, Option, none, some, List, [], ◌∷◌, ◌++◌, Result, ok, ◌>>=◌, length,
}
use firebase_telemetry_persi.CopyString.{Bytes}
use firebase_telemetry_persi.Layout.{small, value_of}
use firebase_telemetry_persi.Span.{Span, make_span, AttributesList}
use firebase_telemetry_persi.MutableSpanData
use firebase_telemetry_persi.MutableSpanData.{MutableSpanData}
use firebase_telemetry_persi.Context.{Context, get_recovered_spans, get_mutable_span_data}
use firebase_telemetry_persi.Initialize.{System, initialize_span_data}

pub data Line : Type 0 where
  recovered_span_count : ℕ → Line
  recovered_span : ℕ → Bytes → Line
  attribute : Bytes → Bytes → Line
  failed_to_acquire : Line
  count_before_writing : ℕ → Line
  count_after_writing : ℕ → Line

-- `left` is the mutable data when the context is released.
pub record Exit : Type 0 where
  pub code : ℕ
  pub output : List Line
  pub left : Option MutableSpanData

unfoldable pub print_attributes : AttributesList → List Line
print_attributes [] = []
print_attributes ((key, val) ∷ rest) = attribute key val ∷ print_attributes rest

unfoldable pub print_spans : List Span → List Line
unfolding print_attributes
print_spans [] = []
print_spans (span ∷ rest) =
    recovered_span span.span_id span.name ∷ print_attributes span.attributes ++ print_spans rest

-- "hello" and "world"
abbrev pub hello : Bytes
hello = 104 ∷ 101 ∷ 108 ∷ 108 ∷ 111 ∷ []

abbrev pub world : Bytes
world = 119 ∷ 111 ∷ 114 ∷ 108 ∷ 100 ∷ []

abbrev pub empty_span : ℕ → Result Span
empty_span span_id = make_span (record { high = 0; low = 0 }) span_id 0 0 0 [] []

-- The part of `main` that has the mutable data.
unfoldable pub write_spans : Span → Span → MutableSpanData → Result MutableSpanData
unfolding MutableSpanData.add MutableSpanData.set_attribute_on_span
write_spans span span2 mutable_span_data = do
  m ← MutableSpanData.add mutable_span_data span
  m' ← MutableSpanData.add m span2
  MutableSpanData.set_attribute_on_span m' span2.span_id hello world

unfoldable pub main : System → Result Exit
unfolding make_span initialize_span_data print_spans write_spans get_recovered_spans
main system = do
  span ← empty_span 271
  span2 ← empty_span 272
  (_, context) ← initialize_span_data system (value_of small)
  let (recovered_spans, context') = get_recovered_spans context
  let printed = recovered_span_count (length recovered_spans) ∷ print_spans recovered_spans
  elim (get_mutable_span_data context') [
    | none ↦ ok (record { code = 1; output = printed ++ (failed_to_acquire ∷ []); left = none })
    | some mutable_span_data ↦ do
      m ← write_spans span span2 mutable_span_data
      ok (record {
        code = 0;
        output =
            printed
            ++ (count_before_writing (MutableSpanData.count mutable_span_data)
                ∷ count_after_writing (MutableSpanData.count m)
                ∷ []);
        left = some m;
      })
  ]

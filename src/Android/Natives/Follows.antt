-- ===== src/Android/Natives/Follows.antt =====
-- src/android/android_span_data.cpp: what a sequence of calls of the native methods is to the store.
use firebase_telemetry_persi.Common.{All, ℕ, ◌≤◌, Bool, true, false, Option, List, [], ◌∷◌, length}
use firebase_telemetry_persi.CopyString.{Bytes}
use firebase_telemetry_persi.Span.{Span, AttributesList}
use firebase_telemetry_persi.MutableSpanData.History
use firebase_telemetry_persi.MutableSpanData.History.{Call}
use firebase_telemetry_persi.Android.Java.{Ref}
use firebase_telemetry_persi.Android.Natives.{NativeCall, recovers, adds, ends, sets, SpanIds}
use firebase_telemetry_persi.Android.Natives.Protocol.{IsMutation}

-- The span that a call adds. Its end time is 0.
abbrev pub span_with : SpanIds → Bytes → AttributesList → Span
span_with ids name attributes = record {
  trace_id = record { high = ids.trace_id_high; low = ids.trace_id_low };
  span_id = ids.span_id;
  parent_span_id = ids.parent_span_id;
  start_time = ids.start_time;
  end_time = 0;
  name = name;
  attributes = attributes;
}

-- A native call, and the call of `MutableSpanData` with the strings that were read: names and keys of at
-- most 64 bytes, and values of at most 128.
pub data Translates : NativeCall → Call → Type 0 where
  added :
      {ids : SpanIds} {name attributes : Option Ref} (name' : Bytes) (attributes' : AttributesList)
      → length name' ≤ 64
      → All (λ a. (length a.0 ≤ 64) × (length a.1 ≤ 128)) attributes'
      → Translates (adds ids name attributes) (History.adds (span_with ids name' attributes'))
  ended : {now span_id : ℕ} → Translates (ends now span_id) (History.ends now span_id 0)
  put :
      {span_id : ℕ} {key value : Option Ref} (key' value' : Bytes)
      → length key' ≤ 64
      → length value' ≤ 128
      → Translates (sets span_id key value) (History.sets span_id key' value')

-- A sequence of native calls, and the calls of `MutableSpanData` that it makes. The Boolean tells
-- whether the recovered spans have been fetched: calls before that are ignored.
pub data Follows : Bool → List NativeCall → List Call → Type 0 where
  nothing : {b : Bool} → Follows b [] []
  fetched :
      {b : Bool} {cs : List NativeCall} {hs : List Call}
      → Follows true cs hs
      → Follows b (recovers ∷ cs) hs
  ignored :
      {c : NativeCall} {cs : List NativeCall} {hs : List Call}
      → IsMutation c
      → Follows false cs hs
      → Follows false (c ∷ cs) hs
  carried :
      {c : NativeCall} {h : Call} {cs : List NativeCall} {hs : List Call}
      → Translates c h
      → Follows true cs hs
      → Follows true (c ∷ cs) (h ∷ hs)

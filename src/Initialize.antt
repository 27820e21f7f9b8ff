-- ===== src/Initialize.antt =====
-- src/initialize.cpp and page_size.h of
-- include/firebase/telemetry/persistence/detail: a file is opened, what it still holds is recovered,
-- and it is prepared for new spans. What the operating system answers is the record `System`. A
-- mapping stands for a `ManagedMmap` that is initialised.
pub mod Sizes
pub mod Held
pub mod Resources
pub mod Recovery
pub mod Success
pub mod Prepared
pub mod StartsOver
pub mod Reopened
pub mod CrashReopened
pub mod RemoveReopened
pub mod Corrupt
pub mod AfterCrash
use firebase_telemetry_persi.Common.{
  ◌||◌, ℕ, zero, suc, ◌+◌, ◌*◌, ◌-◌, ◌/◌, ◌%◌, ◌^◌, Bool, false, ◌&&◌, not, Option, none, some,
  List, [], ◌∷◌, ◌++◌, Result, ok, ◌>>=◌, ◌>>◌, assert, ltb, leb, ◌==◌, if◌then◌else◌,
}
use firebase_telemetry_persi.Layout.{
  MmapSize, MarkedSpan, Header, MemoryLayout, sizeof_header, layout_of, get_memory_layout_size,
}
use firebase_telemetry_persi.Span.{Span}
use firebase_telemetry_persi.Header.{is_header_valid, is_header_version_current, reset_header}
use firebase_telemetry_persi.SpanDataImpl
use firebase_telemetry_persi.RecoveredSpanData
use firebase_telemetry_persi.RecoveredSpanData.{RecoveredSpanData, make_recovered_span_data}
use firebase_telemetry_persi.Context.{Context, make_context}
use firebase_telemetry_persi.SpanDataImpl.{DataVariant, make_data}

-- `sysconf (_SC_PAGESIZE)`: `none` is a negative result.
unfoldable pub get_page_size : Option ℕ → ℕ
get_page_size none = 4096
get_page_size (some n) = if n == 0 then 4096 else n

-- The first argument is the number of bits of `size_t`.
unfoldable pub get_aligned_size : ℕ → Option ℕ → ℕ → ℕ
unfolding get_page_size
get_aligned_size size_bits sysconf size =
    let page_size = get_page_size sysconf in
    let layout_size = get_memory_layout_size size in
    ((layout_size + page_size + 2 ^ size_bits - 1) % 2 ^ size_bits / page_size * page_size)
    % 2 ^ size_bits

-- The bytes of a mapped file: its header, and the slots as each of the three layouts reads them.
pub record Contents : Type 0 where
  pub header : Header
  pub spans_as : MmapSize → List MarkedSpan

pub record Mapping : Type 0 where
  pub contents : Contents
  pub required_size : ℕ

-- The number of bits of `size_t`, and the results of `open`, `fstat` (the size as a `size_t`),
-- `sysconf`, the first `mmap`, `ftruncate` and the second `mmap`.
pub record System : Type 0 where
  pub size_bits : ℕ
  pub fd : Option ℕ
  pub st_size : Option ℕ
  pub sysconf : Option ℕ
  pub mapped : Option Contents
  pub truncated : Bool
  pub remapped : Option Contents

-- The constructor of `ManagedMmap<Header>`; `mmap` refuses a length of 0.
unfoldable pub make_managed_mmap : Option Contents → ℕ → Result (Option Mapping)
make_managed_mmap none required_size = do
  assert ((required_size == 0) || leb sizeof_header required_size)
  ok none
make_managed_mmap (some c) required_size = do
  assert ((required_size == 0) || leb sizeof_header required_size)
  ok (
      if required_size == 0
      then none
      else some (record { contents = c; required_size = required_size }))

abbrev pub layout_in : Contents → MemoryLayout
layout_in c = record { header = c.header; marked_spans = c.spans_as (layout_of c.header.mmap_size) }

-- The constructor of `SpanDataImpl`, with the `assert` of the conversion between mappings.
unfoldable pub make_span_data_impl : Mapping → Result DataVariant
unfolding make_data
make_span_data_impl m = do
  assert (leb (get_memory_layout_size m.contents.header.mmap_size) m.required_size)
  ok (make_data (layout_in m.contents))

unfoldable pub should_do_recovery : Option Header → ℕ → Bool
should_do_recovery none mapped_size = false
should_do_recovery (some header) mapped_size =
    if not (is_header_valid (some header)) || not (is_header_version_current (some header))
    then false
    else if ltb mapped_size (get_memory_layout_size header.mmap_size)
    then false
    else ltb 0 header.active_span_count

-- One round of the loop over the slots, and the loop with n rounds left.
unfoldable pub recover_slot : RecoveredSpanData → ℕ → Result (List Span)
recover_slot spans i = do
  mark ← RecoveredSpanData.get_mark spans i
  if mark == 0 then ok [] else (do span ← RecoveredSpanData.get spans i; ok (span ∷ []))

unfoldable pub recover_slots : RecoveredSpanData → ℕ → ℕ → Result (List Span)
unfolding recover_slot
recover_slots spans zero i = ok []
recover_slots spans (suc n) i = do
  found ← recover_slot spans i
  rest ← recover_slots spans n (i + 1)
  ok (found ++ rest)

-- The system calls that take or give back a resource.
pub data Call : Type 0 where
  opens closes : ℕ → Call
  maps unmaps : ℕ → Call

-- What a part of `initialize_span_data` leaves: the calls, the recovered spans, and the object for
-- the mapping that is kept, if any.
pub record Outcome : Type 0 where
  pub calls : List Call
  pub recovered : List Span
  pub impl : Option DataVariant

-- The destructor of a `ManagedMmap` that is initialised: its address is not null, and its length not 0.
abbrev pub destroy_mapping : Mapping → List Call
destroy_mapping m = unmaps m.required_size ∷ []

-- The block for a file of at least one page, once it is mapped. What still owns the mapping at the end
-- of the block is destroyed there.
unfoldable pub recover : Mapping → ℕ → ℕ → Result Outcome
recover m target_size required_size =
    if should_do_recovery (some (m.contents.header)) m.required_size
    then (do
      impl ← make_span_data_impl m
      let recovered = make_recovered_span_data impl
      spans ← recover_slots recovered (RecoveredSpanData.count recovered) 0
      size ← SpanDataImpl.size_of impl
      ok (
          if (size == target_size) && (m.required_size == required_size)
          then record { calls = maps m.required_size ∷ []; recovered = spans; impl = some impl }
          else record {
            calls = maps m.required_size ∷ destroy_mapping m;
            recovered = spans;
            impl = none;
          }))
    else ok
        (record { calls = maps m.required_size ∷ destroy_mapping m; recovered = []; impl = none })

-- `none` is a failed `mmap`.
unfoldable pub try_recovery : System → ℕ → ℕ → ℕ → Result (Option Outcome)
unfolding recover make_managed_mmap
try_recovery sys original_size target_size required_size =
    if leb (get_page_size sys.sysconf) original_size
    then (do
      header ← make_managed_mmap sys.mapped original_size
      elim header [
        | none ↦ ok none
        | some m ↦ do o ← recover m target_size required_size; ok (some o)
      ])
    else ok (some (record { calls = []; recovered = []; impl = none }))

abbrev pub reset_mapping : Mapping → ℕ → Mapping
reset_mapping m target_size = elim (reset_header (some (m.contents.header)) target_size) [
  | none ↦ m
  | some header ↦ record m { contents = record (m.contents) { header = header } }
]

-- The block that gives the file its size. It closes the file where it fails, and returns null then.
unfoldable pub remake : System → ℕ → ℕ → ℕ → Outcome → Result Outcome
unfolding make_managed_mmap make_span_data_impl
remake sys fd target_size required_size o =
    if sys.truncated
    then (do
      header ← make_managed_mmap sys.remapped required_size
      elim header [
        | none ↦ ok (record { calls = o.calls ++ (closes fd ∷ []); recovered = []; impl = none })
        | some m ↦ do
          impl ← make_span_data_impl (reset_mapping m target_size)
          ok (record {
            calls = o.calls ++ (maps m.required_size ∷ []);
            recovered = o.recovered;
            impl = some impl;
          })
      ])
    else ok (record { calls = o.calls ++ (closes fd ∷ []); recovered = []; impl = none })

-- `if (!span_data_impl.has_value ())`
unfoldable pub remake_unless : System → ℕ → ℕ → ℕ → Outcome → Result Outcome
unfolding remake
remake_unless sys fd target_size required_size o = elim o.impl [
  | none ↦ remake sys fd target_size required_size o
  | some impl ↦ ok o
]

-- From the size of the file to the object for its mapping. Without an object null was returned, and the
-- file has been closed.
unfoldable pub prepare : System → ℕ → ℕ → ℕ → Result Outcome
unfolding try_recovery remake_unless
prepare sys fd original_size target_size = do
  let required_size = get_aligned_size sys.size_bits sys.sysconf target_size
  tried ← try_recovery sys original_size target_size required_size
  elim tried [
    | none ↦ ok (record { calls = closes fd ∷ []; recovered = []; impl = none })
    | some o ↦ remake_unless sys fd target_size required_size o
  ]

-- The end: the file is closed, and the context is made.
abbrev pub finish : ℕ → Outcome → List Call × Option Context
finish fd o = elim o.impl [
  | none ↦ (opens fd ∷ o.calls, none)
  | some impl ↦ (opens fd ∷ o.calls ++ (closes fd ∷ []), some (make_context impl o.recovered))
]

unfoldable pub initialize_span_data : System → ℕ → Result (List Call × Option Context)
unfolding prepare
initialize_span_data sys target_size = elim sys.fd [
  | none ↦ ok ([], none)
  | some fd ↦ elim sys.st_size [
    | none ↦ ok (opens fd ∷ closes fd ∷ [], none)
    | some original_size ↦ do o ← prepare sys fd original_size target_size; ok (finish fd o)
  ]
]

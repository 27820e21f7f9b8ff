-- ===== src/Initialize/Success.antt =====
-- When the system calls succeed, `initialize_span_data` recovers what the file holds and prepares an
-- empty store.
use firebase_telemetry_persi.Common.{
  ap, ==→eq, Bool, false, ◌&&◌, le→leb, eq→==, ◌⊎◌, ℕ, ◌≤◌, ◌≡◌, refl, sym, ◌∙◌, true, false, ok,
  some, none, List, [], ◌∷◌, Result, arith, length, Bool-cases, inl, inr, ltb, ltb_false→le, le→ltb,
  ◌==◌,
}
use firebase_telemetry_persi.Layout.{
  MmapSize, small, medium, large, value_of, mmap_config, Header, MemoryLayout, layout_of,
  get_memory_layout_size,
}
use firebase_telemetry_persi.Layout.Sizes.{layout_of-value_of}
use firebase_telemetry_persi.Span.{Span}
use firebase_telemetry_persi.RawSpanData
use firebase_telemetry_persi.RawSpanData.{RawSpanData, make_raw_span_data}
use firebase_telemetry_persi.RawSpanData.Recoverable.{recoverable, marked_of}
use firebase_telemetry_persi.SpanDataImpl
use firebase_telemetry_persi.SpanDataImpl.{DataVariant, of_size, visit-of_size, make_data}
use firebase_telemetry_persi.Header.{
  header_signature, header_version, is_header_valid, is_header_version_current, is_supported_size,
}
use firebase_telemetry_persi.Initialize.{
  maps, unmaps, Mapping, Outcome, layout_in, recover_slots, should_do_recovery, make_span_data_impl,
  recover,
}
use firebase_telemetry_persi.Initialize.Recovery.{read_spans, Readable, recover_slots_lem}

-- A layout from which recovery reads: the marked ones among its active slots hold raw spans that can
-- be read. Nothing is asked of the other slots.
pub record IsRecoverable (size : MmapSize) (l : MemoryLayout) : Type 0 where
  pub sized : length l.marked_spans ≡ (mmap_config size).max_spans
  pub counted : l.header.active_span_count ≤ (mmap_config size).max_spans
  pub headed : l.header.mmap_size ≡ value_of size
  pub readable : Readable size (recoverable l)

-- A header of this library and of its current version.
pub record IsCurrent (header : Header) : Type 0 where
  pub signature : header.signature ≡ header_signature
  pub version : header.version ≡ header_version

is_supported_size-value_of : (size : MmapSize) → is_supported_size (value_of size) ≡ true
unfolding is_supported_size
is_supported_size-value_of small = refl
is_supported_size-value_of medium = refl
is_supported_size-value_of large = refl

pub should_do_recovery_lem :
    (size : MmapSize) (header : Header) (mapped_size : ℕ)
    → IsCurrent header
    → header.mmap_size ≡ value_of size
    → get_memory_layout_size (value_of size) ≤ mapped_size
    → should_do_recovery (some header) mapped_size ≡ ltb 0 header.active_span_count
unfolding should_do_recovery is_header_valid is_header_version_current
should_do_recovery_lem size header mapped_size v h fits = rw (
  v.signature,
  v.version,
  h,
  is_supported_size-value_of size,
  le→ltb mapped_size (get_memory_layout_size (value_of size)) fits,
)

pub make_span_data_impl_lem :
    (size : MmapSize) (m : Mapping)
    → m.contents.header.mmap_size ≡ value_of size
    → get_memory_layout_size (value_of size) ≤ m.required_size
    → make_span_data_impl m ≡ ok (of_size size (make_raw_span_data (layout_in m.contents)))
unfolding make_span_data_impl make_data
make_span_data_impl_lem size m h fits = rw (
  h,
  layout_of-value_of size,
  le→leb (get_memory_layout_size (value_of size)) m.required_size fits,
)

value_of-injective : (a b : MmapSize) → (value_of a == value_of b) ≡ true → a ≡ b
value_of-injective a b h =
    sym (layout_of-value_of a)
    ∙ ap layout_of (==→eq (value_of a) (value_of b) h)
    ∙ layout_of-value_of b

and_left : (a b : Bool) → (a && b) ≡ true → a ≡ true
and_left true b h = refl
and_left false b h = h

-- Where no span counts as active, none is recoverable.
recoverable_none : (l : MemoryLayout) → l.header.active_span_count ≡ 0 → recoverable l ≡ []
unfolding marked_of
recoverable_none l h = rw h

-- What the first block leaves: the spans that the layout holds, and perhaps an object for the target.
pub record Recovers (target : MmapSize) (l : MemoryLayout) (r : Result Outcome) : Type 0 where
  pub outcome : Outcome
  pub returns : r ≡ ok outcome
  pub reads : read_spans (recoverable l) ≡ ok outcome.recovered
  pub object :
      (outcome.impl ≡ none)
      ⊎ ((d : RawSpanData) × (outcome.impl ≡ some (of_size target d))
          × (d.layout.header.mmap_size ≡ value_of target)
          × IsCurrent d.layout.header
          × (d.mark_counter ≡ 0))

module _ (size target : MmapSize) (m : Mapping) (required_size : ℕ)
    (v : IsRecoverable size (layout_in m.contents)) (w : IsCurrent m.contents.header)
    (fits : get_memory_layout_size (value_of size) ≤ m.required_size) where
  abbrev stored : RawSpanData
  stored = make_raw_span_data (layout_in m.contents)

  slots_read :
      (spans : List Span) × (recover_slots
          (record { impl = of_size size stored })
          (SpanDataImpl.count (of_size size stored))
          0
        ≡ ok spans)
      × (read_spans (recoverable (layout_in m.contents)) ≡ ok spans)
  unfolding SpanDataImpl.count RawSpanData.count
  slots_read = rw (visit-of_size (λ z d. RawSpanData.count d) size stored) (
      recover_slots_lem size stored m.contents.header.active_span_count 0
        (omega (arith, v.sized, v.counted)) v.readable)

  size_read : SpanDataImpl.size_of (of_size size stored) ≡ ok (value_of size)
  unfolding SpanDataImpl.size_of RawSpanData.size_of
  size_read = rw (
    visit-of_size (λ z d. RawSpanData.size_of z d) size stored,
    eq→== m.contents.header.mmap_size (value_of size) v.headed,
  )

  abbrev dropped : List Span → Outcome
  dropped spans = record {
    calls = maps m.required_size ∷ unmaps m.required_size ∷ [];
    recovered = spans;
    impl = none;
  }

  pub recover-Recovers :
      Recovers target (layout_in m.contents) (recover m (value_of target) required_size)
  unfolding recover read_spans
  recover-Recovers = elim (Bool-cases (ltb 0 m.contents.header.active_span_count)) [
    | inl some_active ↦
        let (spans, k, l) = slots_read in
        let t = should_do_recovery_lem size m.contents.header m.required_size w v.headed fits in
        let i = make_span_data_impl_lem size m v.headed fits in
        elim (Bool-cases
          ((value_of size == value_of target) && (m.required_size == required_size))) [
            | inl same ↦ record {
              outcome = record {
                calls = maps m.required_size ∷ [];
                recovered = spans;
                impl = some (of_size size stored);
              };
              returns = rw (t, some_active, i, k, size_read, same);
              reads = l;
              object = inr (
                  let q = value_of-injective size target (and_left _ _ same) in
                  (stored, rw q, v.headed ∙ rw q, w, refl));
            }
            | inr other ↦ record {
              outcome = dropped spans;
              returns = rw (t, some_active, i, k, size_read, other);
              reads = l;
              object = inl refl;
            }
          ]
    | inr none_active ↦
        let t = should_do_recovery_lem size m.contents.header m.required_size w v.headed fits in
        let zero_active = ltb_false→le 0 m.contents.header.active_span_count none_active in
        record {
          outcome = dropped [];
          returns = rw (t, none_active);
          reads = rw (recoverable_none (layout_in m.contents) (omega (arith, zero_active)));
          object = inl refl;
        }
  ]

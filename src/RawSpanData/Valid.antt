-- ===== src/RawSpanData/Valid.antt =====
-- The invariant of the mapped span slots, and what each operation does when it holds: none faults.
use firebase_telemetry_persi.Common.{
  get_elem?-lt, ℕ, ◌+◌, ◌%◌, ◌^◌, ◌≤◌, ◌<◌, ◌≡◌, ◌∙◌, subst, true, some, ok, ◌==◌, get_elem?-some,
  get_elem?-set, modify-set, modify-set_self, set, length, length-set, arith, lt→ltb, eq→==,
  Bool-cases, inl, inr, ==→eq, ==_false→ne, ◌≢◌,
}
use firebase_telemetry_persi.Common.Interrupts.{run_all}
use firebase_telemetry_persi.Layout.{
  MmapSize, small, medium, large, value_of, mmap_config, RawSpan, MarkedSpan, Header, MemoryLayout,
}
use firebase_telemetry_persi.Span.{Span, to_raw_span}
use firebase_telemetry_persi.Span.Valid.{IsRawSpan}
use firebase_telemetry_persi.RawSpanData.{
  set_end_time, RawSpanData, write, slot?, count, max_count, next_mark, add_writes, add,
}

-- A slot at index i, where `active` slots are in use.
pub record IsSlot (size : MmapSize) (active i : ℕ) (s : MarkedSpan) : Type 0 where
  pub marked : i < active → 0 < s.mark
  pub unmarked : active ≤ i → s.mark ≡ 0
  pub raw : IsRawSpan (mmap_config size).max_attributes s.span

-- The slots in use come first, marked; the others are unmarked; every slot can be read back.
pub record IsLayout (size : MmapSize) (l : MemoryLayout) : Type 0 where
  pub sized : length l.marked_spans ≡ (mmap_config size).max_spans
  pub counted : l.header.active_span_count ≤ (mmap_config size).max_spans
  pub headed : l.header.mmap_size ≡ value_of size
  pub slots :
      (i : ℕ) (s : MarkedSpan) → slot? l i ≡ some s → IsSlot size l.header.active_span_count i s

pub max_spans-bounds :
    (size : MmapSize) → (0 < (mmap_config size).max_spans) × ((mmap_config size).max_spans ≤ 2048)
max_spans-bounds small = omega arith
max_spans-bounds medium = omega arith
max_spans-bounds large = omega arith

-- A slot below `max_spans` is there.
pub slot_total :
    {size : MmapSize} (l : MemoryLayout) (i : ℕ)
    → IsLayout size l
    → i < (mmap_config size).max_spans
    → (s : MarkedSpan) × (slot? l i ≡ some s)
slot_total l i v h = get_elem?-some l.marked_spans i (omega (arith, v.sized))

abbrev pub with_count : Header → ℕ → Header
with_count h n = record h { active_span_count = n }

-- The layout after `add`.
abbrev pub added : MemoryLayout → RawSpan → ℕ → MemoryLayout
added l raw_span mark =
    let n = l.header.active_span_count in
    record {
      header = with_count l.header (n + 1);
      marked_spans = set l.marked_spans n (record { mark = mark; span = raw_span });
    }

-- The stores of `add` amount to one new slot and one more in the count.
pub run_all-add_writes :
    (l : MemoryLayout) (raw_span : RawSpan) (mark : ℕ) (s : MarkedSpan)
    → slot? l l.header.active_span_count ≡ some s
    → l.header.active_span_count < 2048
    → run_all write (add_writes l.header.active_span_count raw_span mark) l ≡ added l raw_span mark
unfolding add_writes write
run_all-add_writes l raw_span mark s e h =
    let n = l.header.active_span_count in
    let wrap : (n + 1) % 2 ^ 64 ≡ n + 1 = omega arith in
    rw (
      modify-set l.marked_spans n (λ s. record s { mark = 0 }) s e,
      modify-set_self l.marked_spans n (λ s. record s { span = raw_span }) (record s { mark = 0 }),
      modify-set_self l.marked_spans n (λ s. record s { mark = mark })
          (record s { mark = 0; span = raw_span }),
      wrap,
    )

-- With room left, `add` writes the span into the first free slot and returns its index.
pub add_lem :
    (size : MmapSize) (d : RawSpanData) (span : Span)
    → IsLayout size d.layout
    → count d < max_count size
    → add size d span
      ≡ ok (
        count d,
        record {
          layout = added d.layout (to_raw_span size span) (next_mark d);
          mark_counter = next_mark d;
        },
      )
unfolding add count max_count
add_lem size d span v h =
    let n = d.layout.header.active_span_count in
    let (s, e) = slot_total d.layout n v h in
    let free : (s.mark == 0) ≡ true = eq→== s.mark 0 ((v.slots n s e).unmarked (omega arith)) in
    rw (
      lt→ltb n (mmap_config size).max_spans h,
      e,
      free,
      run_all-add_writes d.layout (to_raw_span size span) (next_mark d) s e
          (omega (arith, max_spans-bounds size)),
    )

IsSlot-more :
    {size : MmapSize} {n i : ℕ} {s : MarkedSpan}
    → n ≢ i
    → IsSlot size n i s
    → IsSlot size (n + 1) i s
IsSlot-more ne v = record {
  marked = λ h. v.marked (omega arith);
  unmarked = λ h. v.unmarked (omega arith);
  raw = v.raw;
}

pub added-IsLayout :
    {size : MmapSize} (l : MemoryLayout) (raw_span : RawSpan) (mark : ℕ)
    → IsLayout size l
    → l.header.active_span_count < (mmap_config size).max_spans
    → IsRawSpan (mmap_config size).max_attributes raw_span
    → 0 < mark
    → IsLayout size (added l raw_span mark)
added-IsLayout {size} l raw_span mark v h r m = record {
  sized = length-set l.marked_spans n new ∙ v.sized;
  counted = omega arith;
  headed = v.headed;
  slots = λ i s e. elim (Bool-cases (n == i)) [
    | inl here ↦
        let same : new ≡ s =
          ground (arith, get_elem?-set l.marked_spans n i new (omega (arith, v.sized))) in
        subst (IsSlot size (n + 1) i) same (record {
          marked = λ _. m;
          unmarked = λ k. absurd (omega (arith, ==→eq n i here));
          raw = r;
        })
    | inr there ↦ IsSlot-more (==_false→ne n i there) (
        v.slots i s (ground (arith, get_elem?-set l.marked_spans n i new (omega (arith, v.sized)))))
  ];
}
  where
    n : ℕ
    n = l.header.active_span_count

    new : MarkedSpan
    new = record { mark = mark; span = raw_span }

-- The layout with another raw span in slot i.
abbrev pub with_span : MemoryLayout → ℕ → MarkedSpan → RawSpan → MemoryLayout
with_span l i s r = record l { marked_spans = set l.marked_spans i (record s { span = r }) }

IsSlot-with_span :
    {size : MmapSize} {n i : ℕ} {s : MarkedSpan} (r : RawSpan)
    → IsRawSpan (mmap_config size).max_attributes r
    → IsSlot size n i s
    → IsSlot size n i (record s { span = r })
IsSlot-with_span r w v = record { marked = v.marked; unmarked = v.unmarked; raw = w }

-- The invariant does not depend on what a raw span holds, as long as it can be read back.
pub with_span-IsLayout :
    {size : MmapSize} (l : MemoryLayout) (i : ℕ) (s : MarkedSpan) (r : RawSpan)
    → IsLayout size l
    → slot? l i ≡ some s
    → IsRawSpan (mmap_config size).max_attributes r
    → IsLayout size (with_span l i s r)
with_span-IsLayout {size} l i s r v e w = record {
  sized = length-set l.marked_spans i new ∙ v.sized;
  counted = v.counted;
  headed = v.headed;
  slots = λ j t k. elim (Bool-cases (i == j)) [
    | inl here ↦
        let same : new ≡ t =
          ground
            (arith, get_elem?-set l.marked_spans i j new (get_elem?-lt l.marked_spans i s e)) in
        let q : i ≡ j = ==→eq i j here in
        subst (IsSlot size n j) same
          (IsSlot-with_span r w (v.slots j s (subst (λ x. slot? l x ≡ some s) q e)))
    | inr there ↦
        v.slots j t
          (ground (arith, get_elem?-set l.marked_spans i j new (get_elem?-lt l.marked_spans i s e)))
  ];
}
  where
    n : ℕ
    n = l.header.active_span_count

    new : MarkedSpan
    new = record s { span = r }

-- On an active slot, `set_end_time` stores the time and touches nothing else.
pub set_end_time_lem :
    (size : MmapSize) (d : RawSpanData) (i end_time : ℕ) (s : MarkedSpan)
    → IsLayout size d.layout
    → i < count d
    → slot? d.layout i ≡ some s
    → set_end_time d i end_time
      ≡ ok (record d { layout = with_span d.layout i s (record (s.span) { end_time = end_time }) })
unfolding set_end_time count write
set_end_time_lem size d i end_time s v h e =
    let r = record (s.span) { end_time = end_time } in
    rw (
      lt→ltb i d.layout.header.active_span_count h,
      e,
      lt→ltb 0 s.mark ((v.slots i s e).marked h),
      modify-set d.layout.marked_spans i (λ t. record t { span = r }) s e,
    )

pub end_time-IsRawSpan :
    {m : ℕ} {r : RawSpan} (t : ℕ) → IsRawSpan m r → IsRawSpan m (record r { end_time = t })
end_time-IsRawSpan t v = record {
  sized = v.sized;
  counted = v.counted;
  name = v.name;
  attributes = v.attributes;
}

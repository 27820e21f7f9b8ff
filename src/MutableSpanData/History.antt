-- ===== src/MutableSpanData/History.antt =====
-- Any sequence of calls, from the empty store that an initialised environment starts with.
use firebase_telemetry_persi.Common.{
  ℕ, ◌+◌, ◌-◌, ◌^◌, ◌≤◌, ◌<◌, ◌≡◌, refl, ◌∙◌, List, [], ◌∷◌, Result, ok, ◌>>=◌, arith, All, length,
  Option-cases, Bool-cases, inl, inr, ltb, ltb→lt, ltb_false→le,
}
use firebase_telemetry_persi.CopyString.{Bytes}
use firebase_telemetry_persi.Layout.{MmapSize, value_of, mmap_config, MarkedSpan}
use firebase_telemetry_persi.Span.{Span}
use firebase_telemetry_persi.RawSpanData
use firebase_telemetry_persi.RawSpanData.{RawSpanData}
use firebase_telemetry_persi.RawSpanData.Clear.{remove_all-IsLayout}
use firebase_telemetry_persi.MutableSpanData
use firebase_telemetry_persi.MutableSpanData.{MutableSpanData, Map, empty_map}
use firebase_telemetry_persi.MutableSpanData.Invariant.{active_count, state, IsIndexed, view-at}
use firebase_telemetry_persi.MutableSpanData.Remove.{remove-present, remove-absent}
use firebase_telemetry_persi.MutableSpanData.Insert.{add-present, add-room, add-full}
use firebase_telemetry_persi.MutableSpanData.Updates.{
  Updated, set_attribute_on_span-present, end-present, updates-absent,
}

-- A call, with the clock's time where the code may read it.
pub data Call : Type 0 where
  adds : Span → Call
  removes : ℕ → Call
  sets : ℕ → Bytes → Bytes → Call
  ends : ℕ → ℕ → ℕ → Call

unfoldable pub step : MutableSpanData → Call → Result MutableSpanData
step m (adds span) = MutableSpanData.add m span
step m (removes id) = MutableSpanData.remove m id
step m (sets id key value) = MutableSpanData.set_attribute_on_span m id key value
step m (ends now id end_time) = MutableSpanData.end now m id end_time

unfoldable pub run : MutableSpanData → List Call → Result MutableSpanData
run m [] = ok m
run m (c ∷ cs) = do m' ← step m c; run m' cs

-- The `Span` constructor refuses the id 0.
abbrev pub IsCall : Call → Type 0
IsCall (adds span) = 0 < span.span_id
IsCall c = Unit {0}

-- A state that meets the invariant, with a mark counter of at most n.
pub record Sound (size : MmapSize) (n : ℕ) (m : MutableSpanData) : Type 0 where
  pub store : RawSpanData
  pub map : Map
  pub shape : m ≡ state size store map
  pub valid : IsIndexed size store map
  pub marks : store.mark_counter ≤ n

-- A call that is carried out, on a sound state.
abbrev Done : MmapSize → ℕ → Result MutableSpanData → Type 0
Done size n r = (m : MutableSpanData) × (r ≡ ok m) × Sound size n m

add-Done :
    (size : MmapSize) (d : RawSpanData) (index : Map) (span : Span)
    → IsIndexed size d index
    → 0 < span.span_id
    → d.mark_counter < 2 ^ 64 - 1
    → Done size (d.mark_counter + 1) (MutableSpanData.add (state size d index) span)
add-Done size d index span v h bound = elim (Option-cases (index span.span_id)) [
  | inr (i, there) ↦ (
    state size d index,
    add-present size d index span i there,
    record { store = d; map = index; shape = refl; valid = v; marks = omega arith },
  )
  | inl absent ↦ elim (Bool-cases (ltb (active_count d) (mmap_config size).max_spans)) [
    | inl room ↦
        let (m, e, r, _) = add-room size d index span v absent (ltb→lt _ _ room) h bound in
        (
          m,
          e,
          record {
            store = r.store;
            map = r.map;
            shape = r.result;
            valid = r.valid;
            marks = omega (arith, r.counter);
          },
        )
    | inr full ↦
        let (m, _, e, _, _, r, _) =
          add-full size d index span v absent
            (omega (arith, v.layout.counted, ltb_false→le _ _ full)) h bound in
        (
          m,
          e,
          record {
            store = r.store;
            map = r.map;
            shape = r.result;
            valid = r.valid;
            marks = omega (arith, r.counter);
          },
        )
  ]
]

unchanged :
    (size : MmapSize) (d : RawSpanData) (index : Map)
    → IsIndexed size d index
    → Sound size (d.mark_counter + 1) (state size d index)
unchanged size d index v = record {
  store = d;
  map = index;
  shape = refl;
  valid = v;
  marks = omega arith;
}

updated :
    (size : MmapSize) (d : RawSpanData) (index : Map) (id : ℕ) (s : MarkedSpan)
    (m : MutableSpanData)
    → Updated size d index id s m
    → Sound size (d.mark_counter + 1) m
updated size d index id s m u = record {
  store = u.store;
  map = index;
  shape = u.result;
  valid = u.valid;
  marks = omega (arith, u.counter);
}

step-Done :
    (size : MmapSize) (d : RawSpanData) (index : Map) (c : Call)
    → IsIndexed size d index
    → IsCall c
    → d.mark_counter < 2 ^ 64 - 1
    → Done size (d.mark_counter + 1) (step (state size d index) c)
unfolding step
step-Done size d index (adds span) v h bound = add-Done size d index span v h bound
step-Done size d index (removes id) v h bound = elim (Option-cases (index id)) [
  | inl absent ↦
      (state size d index, remove-absent size d index id absent, unchanged size d index v)
  | inr (i, there) ↦
      let (m, e, r, _) = remove-present size d index id i v there in
      (
        m,
        e,
        record {
          store = r.store;
          map = r.map;
          shape = r.result;
          valid = r.valid;
          marks = omega (arith, r.counter);
        },
      )
]
step-Done size d index (sets id key value) v h bound = elim (Option-cases (index id)) [
  | inl absent ↦ (
    state size d index,
    (updates-absent 0 (state size d index) id key value 0 absent).0,
    unchanged size d index v,
  )
  | inr (i, there) ↦
      let (s, at, _, _) = v.points id i there in
      let (m, e, u) =
        set_attribute_on_span-present size d index id s key value v
          (view-at d index id i there ∙ at) in
      (m, e, updated size d index id _ m u)
]
step-Done size d index (ends now id end_time) v h bound = elim (Option-cases (index id)) [
  | inl absent ↦ (
    state size d index,
    (updates-absent now (state size d index) id [] [] end_time absent).1,
    unchanged size d index v,
  )
  | inr (i, there) ↦
      let (s, at, _, _) = v.points id i there in
      let (m, e, u) =
        end-present now size d index id s end_time v (view-at d index id i there ∙ at) in
      (m, e, updated size d index id _ m u)
]

-- One call from a sound state.
pub step-Sound :
    (size : MmapSize) (n : ℕ) (m : MutableSpanData) (c : Call)
    → Sound size n m
    → IsCall c
    → n < 2 ^ 64 - 1
    → (m' : MutableSpanData) × (step m c ≡ ok m') × Sound size (n + 1) m'
step-Sound size n m c s h bound =
    let (m', e, s') = step-Done size s.store s.map c s.valid h (omega (arith, s.marks)) in
    (
      m',
      rw s.shape e,
      record {
        store = s'.store;
        map = s'.map;
        shape = s'.shape;
        valid = s'.valid;
        marks = omega (arith, s.marks, s'.marks);
      },
    )

-- The store after `remove_all`, with an empty map, meets the invariant.
pub remove_all-IsIndexed :
    (size : MmapSize) (d : RawSpanData)
    → d.layout.header.mmap_size ≡ value_of size
    → IsIndexed size (RawSpanData.remove_all size d) empty_map
remove_all-IsIndexed size d h =
    let (v, none_active, _, _, _) = remove_all-IsLayout size d h in
    record {
      layout = v;
      indexed = λ i s lt e. absurd (omega arith);
      nonzero = λ i s lt e. absurd (omega arith);
      points = λ id i e. absurd (cc);
      older = λ i s lt e. absurd (omega arith);
    }

-- From a state that meets the invariant, a sequence of calls never faults and ends in a state that
-- meets the invariant, if no added span has the id 0 and the mark counter and the number of calls together stay below 2^64.
pub run_total :
    (size : MmapSize) (d : RawSpanData) (index : Map) (cs : List Call)
    → IsIndexed size d index
    → All IsCall cs
    → d.mark_counter + length cs < 2 ^ 64
    → (m : MutableSpanData) × (run (state size d index) cs ≡ ok m)
      × Sound size (d.mark_counter + length cs) m
unfolding run
run_total size d index [] v h bound = (
  state size d index,
  refl,
  record { store = d; map = index; shape = refl; valid = v; marks = omega arith },
)
run_total size d index (c ∷ cs) v h bound =
    let (m, e, s) = step-Done size d index c v h.0 (omega arith) in
    let (m', e', s') = run_total size s.store s.map cs s.valid h.1 (omega (arith, s.marks)) in
    (
      m',
      rw (e, s.shape) e',
      record {
        store = s'.store;
        map = s'.map;
        shape = s'.shape;
        valid = s'.valid;
        marks = omega (arith, s.marks, s'.marks);
      },
    )

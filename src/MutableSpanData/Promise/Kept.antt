-- ===== src/MutableSpanData/Promise/Kept.antt =====
-- The methods keep the promise of their class.
use firebase_telemetry_persi.RawSpanData.SameFile.{SameFile, SameFile-refl, SameFile-trans}
use firebase_telemetry_persi.RawSpanData.Valid.{max_spans-bounds}
use firebase_telemetry_persi.Common.{
  ℕ, ◌+◌, ◌-◌, ◌^◌, ◌≤◌, ◌<◌, ◌≡◌, refl, sym, ap, ap₂, ◌∙◌, Option, none, some, List, [], ◌∷◌,
  Result, ok, arith, All, length, Option-cases, Bool-cases, inl, inr, ltb, ltb→lt, ltb_false→le,
  ◌==◌, if◌then◌else◌,
}
use firebase_telemetry_persi.CopyString.{Bytes}
use firebase_telemetry_persi.Layout.{Header, MmapSize, mmap_config, MarkedSpan}
use firebase_telemetry_persi.Span.{Span, to_raw_span}
use firebase_telemetry_persi.RawSpanData.Attributes.{put_raw}
use firebase_telemetry_persi.MutableSpanData
use firebase_telemetry_persi.MutableSpanData.{MutableSpanData, Map}
use firebase_telemetry_persi.MutableSpanData.Invariant.{
  active_count, state, view, view-at, view-absent,
}
use firebase_telemetry_persi.MutableSpanData.Remove.{remove-present, remove-absent}
use firebase_telemetry_persi.MutableSpanData.Insert.{
  Added, add-present, add-room, add-full, count-of_size,
}
use firebase_telemetry_persi.MutableSpanData.Updates.{
  Updated, set_attribute_on_span-present, end-present, updates-absent,
}
use firebase_telemetry_persi.MutableSpanData.History.{
  Call, adds, removes, sets, ends, step, run, IsCall,
}
use firebase_telemetry_persi.MutableSpanData.Promise.{
  SpanMap, put, drop, replace, Step, added_already, added, evicted, absent, removed, attribute_set,
  ended, Steps, done, and_then, Shows,
}

-- A call that is carried out, as the map allows it.
abbrev Keeps : MmapSize → Header → SpanMap → Call → Result MutableSpanData → Type 0
Keeps size before a c r =
    (m : MutableSpanData) × (b : SpanMap) × (r ≡ ok m)
    × Step size a c b
    × (s : Shows size m b) × SameFile before s.store.layout.header

module _ {size : MmapSize} {m : MutableSpanData} {a : SpanMap} (s : Shows size m a) where
  there : (id i : ℕ) → s.map id ≡ some i → (t : MarkedSpan) × (view s.store s.map id ≡ some t)
  there id i e = let (t, at, _, _) = s.valid.points id i e in (t, view-at s.store s.map id i e ∙ at)

  nowhere : (id : ℕ) → s.map id ≡ none → a.entries id ≡ none
  nowhere id e = sym (s.entries id) ∙ view-absent s.store s.map id e

  shown : (id : ℕ) (t : MarkedSpan) → view s.store s.map id ≡ some t → a.entries id ≡ some t
  shown id t e = sym (s.entries id) ∙ e

  abbrev unchanged : Shows size (state size s.store s.map) a
  unchanged = record {
    store = s.store;
    map = s.map;
    shape = refl;
    valid = s.valid;
    entries = s.entries;
    count = s.count;
    last_mark = s.last_mark;
  }

  abbrev Shows-replace :
      (id : ℕ) (t : MarkedSpan) (m' : MutableSpanData)
      → Updated size s.store s.map id t m'
      → Shows size m' (replace id t a)
  Shows-replace id t m' u = record {
    store = u.store;
    map = s.map;
    shape = u.result;
    valid = u.valid;
    entries = λ j. u.views j ∙ ap (λ o. if id == j then some t else o) (s.entries j);
    count = u.count ∙ s.count;
    last_mark = u.counter ∙ s.last_mark;
  }

  abbrev pub Shows-put :
      (span : Span) (before : ℕ → Option MarkedSpan) (b : SpanMap) (m' : MutableSpanData)
      (r : Added size s.store span before m')
      → ((j : ℕ) → before j ≡ b.entries j)
      → b.last_mark ≡ a.last_mark
      → active_count r.store ≡ b.count + 1
      → Shows size m' (put size span b)
  Shows-put span before b m' r same marks counted = record {
    store = r.store;
    map = r.map;
    shape = r.result;
    valid = r.valid;
    entries = λ j.
        r.views j
        ∙ ap₂
            (λ n o.
              if span.span_id == j
              then some (record { mark = n + 1; span = to_raw_span size span })
              else o)
            (s.last_mark ∙ sym marks) (same j);
    count = counted;
    last_mark = r.counter ∙ ap (λ n. n + 1) (s.last_mark ∙ sym marks);
  }

  add-Keeps :
      (span : Span)
      → 0 < span.span_id
      → a.last_mark < 2 ^ 64 - 1
      → Keeps size s.store.layout.header a (adds span) (MutableSpanData.add m span)
  add-Keeps span h bound = rw s.shape (elim (Option-cases (s.map span.span_id)) [
    | inr (i, e) ↦
        let (t, v) = there span.span_id i e in
        (
          state size s.store s.map,
          a,
          add-present size s.store s.map span i e,
          added_already (shown span.span_id t v),
          unchanged,
          SameFile-refl s.store.layout.header,
        )
    | inl e ↦ elim (Bool-cases (ltb (active_count s.store) (mmap_config size).max_spans)) [
      | inl room ↦
          let (m', k, r, c) =
            add-room size s.store s.map span s.valid e (ltb→lt _ _ room) h
              (omega (arith, s.last_mark)) in
          (
            m',
            put size span a,
            k,
            added (nowhere span.span_id e) (omega (arith, s.count, ltb→lt _ _ room)),
            Shows-put span _ a m' r s.entries refl (c ∙ ap (λ n. n + 1) s.count),
            r.same_file,
          )
      | inr full ↦
          let counted : active_count s.store ≡ (mmap_config size).max_spans =
            omega (arith, s.valid.layout.counted, ltb_false→le _ _ full) in
          let (m', oldest, k, v, least, r, c) =
            add-full size s.store s.map span s.valid e counted h (omega (arith, s.last_mark)) in
          (
            m',
            put size span (drop oldest.span.span_id a),
            k,
            evicted (nowhere span.span_id e) (sym s.count ∙ counted)
                (shown oldest.span.span_id oldest v)
                (λ id t there. least id t (s.entries id ∙ there)),
            Shows-put span _ (drop oldest.span.span_id a) m' r
                (λ j. ap (λ o. if oldest.span.span_id == j then none else o) (s.entries j)) refl
                (omega (arith, c, s.count, counted, max_spans-bounds size)),
            r.same_file,
          )
    ]
  ])

  remove-Keeps :
      (id : ℕ) → Keeps size s.store.layout.header a (removes id) (MutableSpanData.remove m id)
  remove-Keeps id = rw s.shape (elim (Option-cases (s.map id)) [
    | inl e ↦ (
      state size s.store s.map,
      a,
      remove-absent size s.store s.map id e,
      absent (λ add. add) (nowhere id e),
      unchanged,
      SameFile-refl s.store.layout.header,
    )
    | inr (i, e) ↦
        let (t, v) = there id i e in
        let (m', k, r, c) = remove-present size s.store s.map id i s.valid e in
        (
          m',
          drop id a,
          k,
          removed (shown id t v),
          record {
            store = r.store;
            map = r.map;
            shape = r.result;
            valid = r.valid;
            entries = λ j. r.views j ∙ ap (λ o. if id == j then none else o) (s.entries j);
            count = omega (arith, c, s.count);
            last_mark = r.counter ∙ s.last_mark;
          },
          r.same_file,
        )
  ])

  set_attribute-Keeps :
      (id : ℕ) (key value : Bytes)
      → Keeps size s.store.layout.header a
          (sets id key value)
          (MutableSpanData.set_attribute_on_span m id key value)
  set_attribute-Keeps id key value = rw s.shape (elim (Option-cases (s.map id)) [
    | inl e ↦ (
      state size s.store s.map,
      a,
      (updates-absent 0 (state size s.store s.map) id key value 0 e).0,
      absent (λ add. add) (nowhere id e),
      unchanged,
      SameFile-refl s.store.layout.header,
    )
    | inr (i, e) ↦
        let (t, v) = there id i e in
        let (m', k, u) =
          set_attribute_on_span-present size s.store s.map id t key value s.valid v in
        let t' = record t { span = (put_raw size t.span key value).1 } in
        (
          m',
          replace id t' a,
          k,
          attribute_set (shown id t v),
          Shows-replace id t' m' u,
          u.same_file,
        )
  ])

  end-Keeps :
      (now id end_time : ℕ)
      → Keeps size s.store.layout.header a
          (ends now id end_time)
          (MutableSpanData.end now m id end_time)
  end-Keeps now id end_time = rw s.shape (elim (Option-cases (s.map id)) [
    | inl e ↦ (
      state size s.store s.map,
      a,
      (updates-absent now (state size s.store s.map) id [] [] end_time e).1,
      absent (λ add. add) (nowhere id e),
      unchanged,
      SameFile-refl s.store.layout.header,
    )
    | inr (i, e) ↦
        let (t, v) = there id i e in
        let (m', k, u) = end-present now size s.store s.map id t end_time s.valid v in
        let t' = record t {
          span = record (t.span) { end_time = if end_time == 0 then now else end_time };
        } in
        (m', replace id t' a, k, ended (shown id t v), Shows-replace id t' m' u, u.same_file)
  ])

  step-Keeps :
      (c : Call)
      → IsCall c
      → a.last_mark < 2 ^ 64 - 1
      → Keeps size s.store.layout.header a c (step m c)
  unfolding step
  step-Keeps (adds span) h bound = add-Keeps span h bound
  step-Keeps (removes id) h bound = remove-Keeps id
  step-Keeps (sets id key value) h bound = set_attribute-Keeps id key value
  step-Keeps (ends now id end_time) h bound = end-Keeps now id end_time

last_mark-Step :
    {size : MmapSize} {a b : SpanMap} {c : Call} → Step size a c b → b.last_mark ≤ a.last_mark + 1
last_mark-Step (added_already e) = omega arith
last_mark-Step (added e room) = omega arith
last_mark-Step (evicted e full v least) = omega arith
last_mark-Step (absent h e) = omega arith
last_mark-Step (removed e) = omega arith
last_mark-Step (attribute_set e) = omega arith
last_mark-Step (ended e) = omega arith

-- The class implements the bounded map of `SpanMap`: an object that stands for a map carries out
-- every sequence of calls without a fault, by steps that the map allows, and stands for the map that
-- these lead to; its `count` is the size of that map, and the file keeps its signature and version. No span that is added has the id 0, and the last
-- mark and the number of calls together stay below 2^64.
pub run-Keeps :
    {size : MmapSize} (calls : List Call) (m : MutableSpanData) (a : SpanMap) (s : Shows size m a)
    → All IsCall calls
    → a.last_mark + length calls < 2 ^ 64
    → (m' : MutableSpanData) × (b : SpanMap) × (run m calls ≡ ok m')
      × Steps size a calls b
      × (MutableSpanData.count m' ≡ b.count)
      × (t : Shows size m' b) × SameFile s.store.layout.header t.store.layout.header
unfolding run MutableSpanData.count
run-Keeps {size = size} [] m a s h bound = (
  m,
  a,
  refl,
  done,
  rw s.shape (count-of_size size s.store ∙ s.count),
  s,
  SameFile-refl s.store.layout.header,
)
run-Keeps (c ∷ cs) m a s h bound =
    let (m', b, e, t, s', same) = step-Keeps s c h.0 (omega arith) in
    let (m'', b', e', ts, counted, s'', same') =
      run-Keeps cs m' b s' h.1 (omega (arith, last_mark-Step t)) in
    (m'', b', rw e e', and_then t ts, counted, s'', SameFile-trans _ _ _ same same')

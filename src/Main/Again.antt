-- ===== src/Main/Again.antt =====
-- What two runs of the demonstration program print.
use firebase_telemetry_persi.RawSpanData.Attributes.{put_raw}
use mathlib.Core.Path.{fun_ext}
use firebase_telemetry_persi.CopyString.{Bytes}
use firebase_telemetry_persi.Common.{
  ◌≤◌, get_elem?, ◌⊎◌, inl, inr, Bool-cases, ==→eq, subst, ℕ, ◌<◌, ◌≡◌, refl, ap, sym, ◌∙◌, none,
  some, List, [], ◌∷◌, ◌++◌, Result, ok, fault, ◌>>=◌, length, arith, true, ◌==◌,
}
use firebase_telemetry_persi.Layout.{
  get_memory_layout_size, MarkedSpan, MmapSize, small, value_of, mmap_config,
}
use firebase_telemetry_persi.Span.{Span, make_span}
use firebase_telemetry_persi.MutableSpanData
use firebase_telemetry_persi.MutableSpanData.{MutableSpanData}
use firebase_telemetry_persi.MutableSpanData.Insert.{count-of_size}
use firebase_telemetry_persi.MutableSpanData.History.{Call, adds, sets, run, step}
use firebase_telemetry_persi.MutableSpanData.Promise.{
  SpanMap, Step, Steps, done, and_then, added_already, added, evicted, absent, attribute_set, put,
}
use firebase_telemetry_persi.MutableSpanData.Promise.Kept.{run-Keeps}
use firebase_telemetry_persi.Context.{
  Context, get_recovered_spans, get_mutable_span_data, take_recovered_spans,
}
use firebase_telemetry_persi.Initialize
use firebase_telemetry_persi.Initialize.{
  System, Contents, layout_in, get_page_size, initialize_span_data,
}
use firebase_telemetry_persi.Initialize.Prepared.{Succeeds, IsFresh}
use firebase_telemetry_persi.Initialize.Reopened.{
  Matches, initialize_span_data-Matches, file_of, no_spans, fresh-Shows,
}
use firebase_telemetry_persi.Main.{
  Exit, Bytes, Line, main, write_spans, print_spans, recovered_span_count, count_before_writing,
  count_after_writing, hello, world,
}

-- The two spans.
abbrev with_id : ℕ → Span
with_id id = record {
  trace_id = record { high = 0; low = 0 };
  span_id = id;
  parent_span_id = 0;
  start_time = 0;
  end_time = 0;
  name = [];
  attributes = [];
}

abbrev pub written : List Call
written = adds (with_id 271) ∷ adds (with_id 272) ∷ sets 272 hello world ∷ []

ok-injective {ℓ} : {A : Type ℓ} {a b : A} → ok a ≡ ok b → a ≡ b
ok-injective e = cc

bind-ok {ℓ} : {A : Type ℓ} (r : Result A) → (r >>= ok) ≡ r
bind-ok (ok a) = refl
bind-ok (fault e) = refl

write_spans-run : (m : MutableSpanData) → run m written ≡ write_spans (with_id 271) (with_id 272) m
unfolding write_spans run step
write_spans-run m =
    ap (λ rest. MutableSpanData.add m (with_id 271) >>= rest)
      (fun_ext (λ m'.
        ap (λ rest. MutableSpanData.add m' (with_id 272) >>= rest)
          (fun_ext (λ m''. bind-ok (MutableSpanData.set_attribute_on_span m'' 272 hello world)))))

-- An id that is not there is added, where there is room.
Step-adds :
    {size : MmapSize} {a : SpanMap} {span : Span} {b : SpanMap}
    → Step size a (adds span) b
    → a.entries span.span_id ≡ none
    → a.count < (mmap_config size).max_spans
    → b ≡ put size span a
Step-adds (added_already e) h room = absurd (cc)
Step-adds (added e r) h room = refl
Step-adds (evicted e full v least) h room = absurd (omega arith)
Step-adds (absent n e) h room = absurd (n tt)

Step-sets :
    {size : MmapSize} {a : SpanMap} {id : ℕ} {key value : Bytes} {b : SpanMap}
    → Step size a (sets id key value) b
    → b.count ≡ a.count
Step-sets (absent n e) = refl
Step-sets (attribute_set e) = refl

-- The map after the first two calls.
abbrev two_added : SpanMap
two_added = put small (with_id 272) (put small (with_id 271) no_spans)

written-sets :
    (b : SpanMap) → Steps small no_spans written b → Step small two_added (sets 272 hello world) b
written-sets b (and_then s (and_then t (and_then u done))) =
    let e = Step-adds s refl (omega arith) in
    let one = ap (λ (x : SpanMap). x.count) e in
    let f = Step-adds t (ap (λ (x : SpanMap). x.entries 272) e) (omega arith) in
    subst (λ x. Step small x (sets 272 hello world) b) (f ∙ ap (put small (with_id 272)) e) u

Step-sets_ids :
    {size : MmapSize} {a : SpanMap} {id : ℕ} {key value : Bytes} {b : SpanMap}
    → Step size a (sets id key value) b
    → (j : ℕ) (s : MarkedSpan) → b.entries j ≡ some s
    → (id ≡ j) ⊎ ((t : MarkedSpan) × (a.entries j ≡ some t))
Step-sets_ids (absent n e) j s h = inr (s, h)
Step-sets_ids {id = id} (attribute_set e) j s h = elim (Bool-cases (id == j)) [
  | inl here ↦ inl (==→eq id j here)
  | inr other ↦ inr (s, rw other at h)
]

two_added_ids : (j : ℕ) (t : MarkedSpan) → two_added.entries j ≡ some t → (j ≡ 271) ⊎ (j ≡ 272)
two_added_ids j t h = ground arith

written_ids :
    (b : SpanMap) (j : ℕ) (s : MarkedSpan)
    → Steps small no_spans written b
    → b.entries j ≡ some s
    → (j ≡ 271) ⊎ (j ≡ 272)
written_ids b j s steps h = elim (Step-sets_ids (written-sets b steps) j s h) [
  | inl here ↦ inr (sym here)
  | inr (t, there) ↦ two_added_ids j t there
]

-- Each of the two ids is there.
Step-sets_keeps :
    {size : MmapSize} {a : SpanMap} {id : ℕ} {key value : Bytes} {b : SpanMap}
    → Step size a (sets id key value) b
    → (j : ℕ) (t : MarkedSpan) → a.entries j ≡ some t
    → (s : MarkedSpan) × (b.entries j ≡ some s)
Step-sets_keeps (absent n e) j t h = (t, h)
Step-sets_keeps {size = size} {id = id} {key = key} {value = value} (attribute_set {s = s} e) j t
      h =
    elim (Bool-cases (id == j)) [
      | inl here ↦ (record s { span = (put_raw size s.span key value).1 }, rw here)
      | inr other ↦ (t, rw other h)
    ]

written_there :
    (b : SpanMap) (j : ℕ)
    → Steps small no_spans written b
    → (j ≡ 271) ⊎ (j ≡ 272)
    → (s : MarkedSpan) × (b.entries j ≡ some s)
written_there b j steps which =
    let (t, there) = two_there j which in Step-sets_keeps (written-sets b steps) j t there
  where
    two_there : (j : ℕ) → (j ≡ 271) ⊎ (j ≡ 272) → (t : MarkedSpan) × (two_added.entries j ≡ some t)
    two_there j (inl e) =
        subst (λ k. (t : MarkedSpan) × (two_added.entries k ≡ some t)) (sym e) (_, refl)
    two_there j (inr e) =
        subst (λ k. (t : MarkedSpan) × (two_added.entries k ≡ some t)) (sym e) (_, refl)

-- One of the spans has the given id.
abbrev pub HasId : List Span → ℕ → Type 0
HasId spans id = (i : ℕ) × (span : Span) × (get_elem? spans i ≡ some span) × (span.span_id ≡ id)

written-HasId :
    (b : SpanMap) (recovered : List Span) (j : ℕ)
    → Steps small no_spans written b
    → Matches recovered b
    → (j ≡ 271) ⊎ (j ≡ 272)
    → HasId recovered j
written-HasId b recovered j steps matches which =
    let (s, there) = written_there b j steps which in
    let (i, span, at, _, id) = matches.all j s there in (i, span, at, id)

written-count : (b : SpanMap) → Steps small no_spans written b → b.count ≡ 2
written-count b steps = Step-sets (written-sets b steps)

count-fresh :
    {size : MmapSize} {c : Context} → IsFresh size c → MutableSpanData.count c.mutable_span_data ≡ 0
unfolding MutableSpanData.count
count-fresh {size = size} f = rw f.shape (count-of_size size f.store ∙ f.empty)

abbrev fetched : Context → Context
fetched c = record c { recovered_spans = []; is_recovered = true }

-- What a run prints that has recovered the given spans.
abbrev pub printed : List Span → List Line
printed spans =
    recovered_span_count (length spans) ∷ print_spans spans
    ++ (count_before_writing 0 ∷ count_after_writing 2 ∷ [])

pub main_lem :
    (sys : System) (os_calls : List Initialize.Call) (c : Context)
    → initialize_span_data sys (value_of small) ≡ ok (os_calls, some c)
    → IsFresh small c
    → (m : MutableSpanData) × (run c.mutable_span_data written ≡ ok m)
      × (main sys ≡ ok (record { code = 0; output = printed c.recovered_spans; left = some m }))
unfolding main make_span get_recovered_spans take_recovered_spans get_mutable_span_data
main_lem sys os_calls c opened f =
    let (m, b, e, steps, counted, _, _) =
      run-Keeps written c.mutable_span_data no_spans (fresh-Shows f)
        (omega arith, (omega arith, (tt, tt))) (omega arith) in
    let wrote = sym (write_spans-run c.mutable_span_data) ∙ e in
    let two : MutableSpanData.count m ≡ 2 = counted ∙ written-count b steps in
    (m, e, rw (opened, f.unfetched, wrote, count-fresh f, two))

-- The program runs on a fresh handle for a small file, and then again on the file that it has left,
-- with system calls that succeed. The second run recovers two spans, one with the id 271 and one with
-- the id 272, prints that and what it writes, and exits with 0; the file is at least as long as its
-- layout and a page.
pub main_again :
    (sys sys' : System) (os_calls : List Initialize.Call) (c : Context) (r : Exit)
    (m : MutableSpanData) (fd length' : ℕ) (old new : Contents)
    → initialize_span_data sys (value_of small) ≡ ok (os_calls, some c)
    → IsFresh small c
    → main sys ≡ ok r
    → r.left ≡ some m
    → Succeeds sys' fd length' old new
    → layout_in old ≡ file_of m.impl
    → get_page_size sys'.sysconf ≤ length'
    → get_memory_layout_size (value_of small) ≤ length'
    → (recovered : List Span) × (m' : MutableSpanData) × (length recovered ≡ 2)
      × ((i : ℕ) (span : Span)
          → get_elem? recovered i ≡ some span
          → (span.span_id ≡ 271) ⊎ (span.span_id ≡ 272))
      × HasId recovered 271
      × HasId recovered 272
      × (main sys' ≡ ok (record { code = 0; output = printed recovered; left = some m' }))
main_again sys sys' os_calls c r m fd length' old new opened f ran left s file page fits =
    let (m0, e, k) = main_lem sys os_calls c opened f in
    let exits = ok-injective (sym k ∙ ran) in
    let kept : some m0 ≡ some m = ap (λ (x : Exit). x.left) exits ∙ left in
    let same : m0 ≡ m = cc in
    let (b, os_calls', c', steps, opened', matches, f') =
      initialize_span_data-Matches small small c written m sys' fd length' old new f
        (omega arith, (omega arith, (tt, tt))) (omega arith) (e ∙ ap ok same) s file page fits in
    let (m', _, k') = main_lem sys' os_calls' c' opened' f' in
    (
      c'.recovered_spans,
      m',
      matches.size ∙ written-count b steps,
      λ i span h.
          let (t, there, _) = matches.only i span h in written_ids b span.span_id t steps there,
      written-HasId b c'.recovered_spans 271 steps matches (inl refl),
      written-HasId b c'.recovered_spans 272 steps matches (inr refl),
      k',
    )

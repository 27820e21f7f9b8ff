-- ===== src/Initialize/Prepared.antt =====
-- What `initialize_span_data` does when the system calls succeed.
use firebase_telemetry_persi.Initialize.Sizes.{IsWidth, get_aligned_size_lem}
use firebase_telemetry_persi.RawSpanData.Clear.{remove_all-IsLayout}
use firebase_telemetry_persi.MutableSpanData.History.{remove_all-IsIndexed}
use firebase_telemetry_persi.MutableSpanData.Invariant.{state, IsIndexed, active_count}
use firebase_telemetry_persi.MutableSpanData.{empty_map}
use firebase_telemetry_persi.RawSpanData.Recoverable.{recoverable}
use firebase_telemetry_persi.Context.{Context, make_context}
use firebase_telemetry_persi.Initialize.Recovery.{read_spans}
use firebase_telemetry_persi.RawSpanData
use firebase_telemetry_persi.SpanDataImpl
use firebase_telemetry_persi.Common.{
  ◌/◌, Option, Result, ap, ◌∙◌, ◌⊎◌, inl, inr, none, false, ℕ, ◌^◌, ◌≤◌, ◌≡◌, refl, true, ok, some,
  List, [], ◌∷◌, ◌++◌, arith, le→leb, ne→==,
}
use firebase_telemetry_persi.Layout.{MmapSize, value_of, sizeof_header, get_memory_layout_size}
use firebase_telemetry_persi.Layout.Sizes.{get_memory_layout_size-bounds}
use firebase_telemetry_persi.Span.{Span}
use firebase_telemetry_persi.RawSpanData.{RawSpanData, make_raw_span_data}
use firebase_telemetry_persi.SpanDataImpl.{DataVariant, of_size, visit-of_size}
use firebase_telemetry_persi.Header.{reset_header}
use firebase_telemetry_persi.Initialize.{
  opens, closes, Call, prepare, try_recovery, get_aligned_size, make_context, initialize_span_data,
  System, Contents, Mapping, Outcome, maps, layout_in, get_page_size, make_managed_mmap,
  reset_mapping, remake, remake_unless,
}
use firebase_telemetry_persi.Initialize.Success.{
  recover-Recovers, IsRecoverable, IsCurrent, make_span_data_impl_lem,
}

-- The system calls succeed, on a file with the given length and contents, and `mmap` of the file in
-- its new length shows the given contents.
pub record Succeeds (sys : System) (fd length : ℕ) (old new : Contents) : Type 0 where
  pub opened : sys.fd ≡ some fd
  pub sized : sys.st_size ≡ some length
  pub mapped : sys.mapped ≡ some old
  pub truncated : sys.truncated ≡ true
  pub remapped : sys.remapped ≡ some new
  pub wide : IsWidth sys.size_bits
  pub paged : get_page_size sys.sysconf ≤ 2 ^ (sys.size_bits / 2)

-- An outcome with an object of the target size.
pub record Prepared (target : MmapSize) (spans : List Span) (o : Outcome) : Type 0 where
  pub store : RawSpanData
  pub object : o.impl ≡ some (of_size target store)
  pub headed : store.layout.header.mmap_size ≡ value_of target
  pub current : IsCurrent store.layout.header
  pub unmarked : store.mark_counter ≡ 0
  pub recovered : o.recovered ≡ spans

pub make_managed_mmap_lem :
    (c : Contents) (required_size : ℕ)
    → sizeof_header ≤ required_size
    → make_managed_mmap (some c) required_size
      ≡ ok (some (record { contents = c; required_size = required_size }))
unfolding make_managed_mmap
make_managed_mmap_lem c required_size h =
    rw (ne→== required_size 0 (omega arith), le→leb sizeof_header required_size h)

remake-Prepared :
    (sys : System) (fd : ℕ) (target : MmapSize) (required_size : ℕ) (o : Outcome) (c : Contents)
    → sys.truncated ≡ true
    → sys.remapped ≡ some c
    → get_memory_layout_size (value_of target) ≤ required_size
    → (o' : Outcome) × (remake sys fd (value_of target) required_size o ≡ ok o')
      × Prepared target o.recovered o'
unfolding remake reset_header
remake-Prepared sys fd target required_size o c t r fits =
    let m : Mapping = record { contents = c; required_size = required_size } in
    let m' = reset_mapping m (value_of target) in
    let d = make_raw_span_data (layout_in m'.contents) in
    (
      record {
        calls = o.calls ++ (maps required_size ∷ []);
        recovered = o.recovered;
        impl = some (of_size target d);
      },
      rw (
        t,
        r,
        make_managed_mmap_lem c required_size
            (omega (arith, get_memory_layout_size-bounds (value_of target))),
        make_span_data_impl_lem target m' refl fits,
      ),
      record {
        store = d;
        object = refl;
        headed = refl;
        current = record { signature = refl; version = refl };
        unmarked = refl;
        recovered = refl;
      },
    )

pub remake_unless-Prepared :
    (sys : System) (fd : ℕ) (target : MmapSize) (required_size : ℕ) (o : Outcome) (c : Contents)
    → sys.truncated ≡ true
    → sys.remapped ≡ some c
    → get_memory_layout_size (value_of target) ≤ required_size
    → (o.impl ≡ none) ⊎ (Prepared target o.recovered o)
    → (o' : Outcome) × (remake_unless sys fd (value_of target) required_size o ≡ ok o')
      × Prepared target o.recovered o'
unfolding remake_unless
remake_unless-Prepared sys fd target required_size o c t r fits (inl gone) =
    let (o', k, p) = remake-Prepared sys fd target required_size o c t r fits in
    let after : Option DataVariant → Result Outcome = λ impl. elim impl [
      | none ↦ remake sys fd (value_of target) required_size o
      | some _ ↦ ok o
    ] in
    (o', ap after gone ∙ k, p)
remake_unless-Prepared sys fd size required_size o c t r fits (inr p) = (o, rw p.object, p)

module _ (sys : System) (size target : MmapSize) (fd length : ℕ) (old new : Contents)
    (s : Succeeds sys fd length old new) (w : IsCurrent old.header)
    (v : IsRecoverable size (layout_in old)) (page : get_page_size sys.sysconf ≤ length)
    (fits : get_memory_layout_size (value_of size) ≤ length) where
  abbrev required : ℕ
  required = get_aligned_size sys.size_bits sys.sysconf (value_of target)

  tried :
      (o : Outcome) × (try_recovery sys length (value_of target) required ≡ ok (some o))
      × (read_spans (recoverable (layout_in old)) ≡ ok o.recovered)
      × ((o.impl ≡ none) ⊎ (Prepared target o.recovered o))
  unfolding try_recovery
  tried =
      let r =
        recover-Recovers size target (record { contents = old; required_size = length }) required v
          w fits in
      (
        r.outcome,
        rw (
          le→leb (get_page_size sys.sysconf) length page,
          s.mapped,
          make_managed_mmap_lem old length
              (omega (arith, get_memory_layout_size-bounds (value_of size), fits)),
          r.returns,
        ),
        r.reads,
        elim r.object [
          | inl e ↦ inl e
          | inr (d, e, h, current, unmarked) ↦ inr (record {
            store = d;
            object = e;
            headed = h;
            current = current;
            unmarked = unmarked;
            recovered = refl;
          })
        ],
      )

  prepare-Prepared :
      (spans : List Span) × (o : Outcome) × (prepare sys fd length (value_of target) ≡ ok o)
      × (read_spans (recoverable (layout_in old)) ≡ ok spans)
      × Prepared target spans o
  unfolding prepare
  prepare-Prepared =
      let (o, e, reads, object) = tried in
      let (_, enough, _) =
        get_aligned_size_lem sys.size_bits sys.sysconf (value_of target) s.wide s.paged in
      let (o', k, p) =
        remake_unless-Prepared sys fd target required o new s.truncated s.remapped enough object in
      (o.recovered, o', rw (e, k), reads, p)

remove_all-of_size :
    (size : MmapSize) (d : RawSpanData)
    → SpanDataImpl.remove_all (of_size size d) ≡ of_size size (RawSpanData.remove_all size d)
unfolding SpanDataImpl.remove_all
remove_all-of_size size d = visit-of_size (λ z c. of_size z (RawSpanData.remove_all z c)) size d

-- A handle whose store, of the target size, is empty and meets the invariant, in a file with a header
-- of the current version; the recovered spans are not yet fetched.
pub record IsFresh (target : MmapSize) (c : Context) : Type 0 where
  pub store : RawSpanData
  pub unfetched : c.is_recovered ≡ false
  pub shape : c.mutable_span_data ≡ state target store empty_map
  pub valid : IsIndexed target store empty_map
  pub empty : active_count store ≡ 0
  pub current : IsCurrent store.layout.header
  pub unmarked : store.mark_counter ≡ 0

pub make_context-IsFresh :
    {target : MmapSize} {spans : List Span} {o : Outcome} (p : Prepared target spans o)
    → IsFresh target (make_context (of_size target p.store) spans)
unfolding make_context RawSpanData.remove_all
make_context-IsFresh {target = target} p = record {
  store = RawSpanData.remove_all target p.store;
  unfetched = refl;
  shape = rw (remove_all-of_size target p.store);
  valid = remove_all-IsIndexed target p.store p.headed;
  empty = (remove_all-IsLayout target p.store p.headed).1;
  current = record { signature = p.current.signature; version = p.current.version };
  unmarked = p.unmarked;
}

-- The handle for an object that was prepared, and the calls.
pub initialize_span_data-prepare :
    (sys : System) (target_size fd length : ℕ) (o : Outcome) (impl : DataVariant)
    → sys.fd ≡ some fd
    → sys.st_size ≡ some length
    → prepare sys fd length target_size ≡ ok o
    → o.impl ≡ some impl
    → initialize_span_data sys target_size
      ≡ ok (opens fd ∷ o.calls ++ (closes fd ∷ []), some (make_context impl o.recovered))
unfolding initialize_span_data
initialize_span_data-prepare sys target_size fd length o impl opened sized prepared object =
    rw (opened, sized, prepared, object)

pub initialize_span_data-recovers :
    (sys : System) (size target : MmapSize) (fd length : ℕ) (old new : Contents)
    → Succeeds sys fd length old new
    → IsCurrent old.header
    → IsRecoverable size (layout_in old)
    → get_page_size sys.sysconf ≤ length
    → get_memory_layout_size (value_of size) ≤ length
    → (calls : List Call) × (c : Context) × (initialize_span_data sys (value_of target)
        ≡ ok (calls, some c))
      × (read_spans (recoverable (layout_in old)) ≡ ok c.recovered_spans)
      × IsFresh target c
unfolding make_context
initialize_span_data-recovers sys size target fd length old new s w v page fits =
    let (spans, o, e, reads, p) =
      prepare-Prepared sys size target fd length old new s w v page fits in
    (
      opens fd ∷ o.calls ++ (closes fd ∷ []),
      make_context (of_size target p.store) spans,
      initialize_span_data-prepare sys (value_of target) fd length o _ s.opened s.sized e p.object
          ∙ ap
              (λ x. ok (
                opens fd ∷ o.calls ++ (closes fd ∷ []),
                some (make_context (of_size target p.store) x),
              ))
              p.recovered,
      reads,
      make_context-IsFresh p,
    )

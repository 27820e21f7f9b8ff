-- ===== src/Initialize/StartsOver.antt =====
-- What `initialize_span_data` does of a file that it does not recover from.
use firebase_telemetry_persi.Common.{
  ap, ◌∙◌, Bool-cases, ℕ, ◌≤◌, ◌<◌, ◌≡◌, refl, ◌⊎◌, inl, inr, false, ok, some, none, List, [], ◌∷◌,
  ◌++◌, arith, leb,
}
use firebase_telemetry_persi.Layout.{MmapSize, value_of, sizeof_header}
use firebase_telemetry_persi.SpanDataImpl.{of_size}
use firebase_telemetry_persi.Context.{Context, make_context}
use firebase_telemetry_persi.Initialize.Sizes.{get_aligned_size_lem}
use firebase_telemetry_persi.Initialize.{
  Span, unmaps, opens, closes, Call, prepare, try_recovery, recover, get_aligned_size,
  initialize_span_data, System, Contents, Outcome, maps, get_page_size, should_do_recovery,
}
use firebase_telemetry_persi.Initialize.Prepared.{
  initialize_span_data-prepare, Succeeds, Prepared, IsFresh, make_managed_mmap_lem,
  remake_unless-Prepared, make_context-IsFresh,
}

-- The file is shorter than a page, or its header is refused: it is not of this library, of another
-- version, of a layout that the file is too short for, or it counts no span.
abbrev pub IsRefused : System → ℕ → Contents → Type 0
IsRefused sys length old =
    (length < get_page_size sys.sysconf)
    ⊎ ((sizeof_header ≤ length) × (should_do_recovery (some (old.header)) length ≡ false))

module _ (sys : System) (target : MmapSize) (fd length : ℕ) (old new : Contents)
    (s : Succeeds sys fd length old new) (refused : IsRefused sys length old) where
  abbrev required : ℕ
  required = get_aligned_size sys.size_bits sys.sysconf (value_of target)

  tried :
      (o : Outcome) × (try_recovery sys length (value_of target) required ≡ ok (some o))
      × (o.recovered ≡ [])
      × (o.impl ≡ none)
  unfolding try_recovery recover
  tried = elim (Bool-cases (leb (get_page_size sys.sysconf) length)) [
    | inl page ↦ elim refused [
      | inl short ↦ absurd (ground arith)
      | inr (h, r) ↦ (
        record { calls = maps length ∷ unmaps length ∷ []; recovered = []; impl = none },
        rw (page, s.mapped, make_managed_mmap_lem old length h, r),
        refl,
        refl,
      )
    ]
    | inr short ↦ (record { calls = []; recovered = []; impl = none }, rw short, refl, refl)
  ]

  prepared :
      (spans : List Span) × (o : Outcome) × (prepare sys fd length (value_of target) ≡ ok o)
      × (spans ≡ [])
      × Prepared target spans o
  unfolding prepare
  prepared =
      let (o, e, nothing, gone) = tried in
      let (_, enough, _) =
        get_aligned_size_lem sys.size_bits sys.sysconf (value_of target) s.wide s.paged in
      let (o', k, p) =
        remake_unless-Prepared sys fd target required o new s.truncated s.remapped enough
          (inl gone) in
      (o.recovered, o', rw (e, k), nothing, p)

pub initialize_span_data_starts_over :
    (sys : System) (target : MmapSize) (fd length : ℕ) (old new : Contents)
    → Succeeds sys fd length old new
    → IsRefused sys length old
    → (calls : List Call) × (c : Context) × (initialize_span_data sys (value_of target)
        ≡ ok (calls, some c))
      × (c.recovered_spans ≡ [])
      × IsFresh target c
unfolding make_context
initialize_span_data_starts_over sys target fd length old new s refused =
    let (spans, o, e, nothing, p) = prepared sys target fd length old new s refused in
    (
      opens fd ∷ o.calls ++ (closes fd ∷ []),
      make_context (of_size target p.store) spans,
      initialize_span_data-prepare sys (value_of target) fd length o _ s.opened s.sized e p.object
          ∙ ap
              (λ x. ok (
                opens fd ∷ o.calls ++ (closes fd ∷ []),
                some (make_context (of_size target p.store) x),
              ))
              p.recovered,
      nothing,
      make_context-IsFresh p,
    )

-- ===== src/Initialize/Recovery.antt =====
-- What is recovered from a file.
use firebase_telemetry_persi.Common.{
  ==_false→ne, ◌==◌, if◌then◌else◌, subst, sym, ==→eq, lt→ltb, ne→==, ℕ, zero, suc, ◌+◌, ◌≤◌, ◌<◌,
  ◌≡◌, refl, sym, ◌∙◌, ok, some, List, [], ◌∷◌, Result, ◌>>=◌, All, arith, get_elem?, take, drop,
  length, Bool-cases, inl, inr, get_elem?-some,
}
use firebase_telemetry_persi.Layout.{MmapSize, mmap_config, RawSpan, MarkedSpan}
use firebase_telemetry_persi.Span.{Span, of_raw_span}
use firebase_telemetry_persi.Span.Valid.{IsRawSpan, of_raw_span_total}
use firebase_telemetry_persi.RawSpanData
use firebase_telemetry_persi.RawSpanData.{RawSpanData, slot?}
use firebase_telemetry_persi.RawSpanData.Recoverable.{marked_of}
use firebase_telemetry_persi.SpanDataImpl
use firebase_telemetry_persi.SpanDataImpl.{of_size, visit-of_size}
use firebase_telemetry_persi.Initialize.{recover_slot, recover_slots}

-- The spans that raw spans read as, in their order.
unfoldable pub read_spans : List RawSpan → Result (List Span)
unfolding of_raw_span
read_spans [] = ok []
read_spans (r ∷ rs) = do span ← of_raw_span r; spans ← read_spans rs; ok (span ∷ spans)

-- Raw spans that can be read.
abbrev pub Readable : MmapSize → List RawSpan → Type 0
Readable size = All (IsRawSpan (mmap_config size).max_attributes)

drop-get {ℓ} :
    {A : Type ℓ} (xs : List A) (i : ℕ) (a : A)
    → get_elem? xs i ≡ some a
    → drop i xs ≡ a ∷ drop (suc i) xs
drop-get [] i a h = absurd (cc)
drop-get (x ∷ xs) zero a h = ground arith
drop-get (x ∷ xs) (suc i) a h = drop-get xs i a h

module _ (size : MmapSize) (d : RawSpanData) where
  recover_unmarked :
      (i : ℕ) (s : MarkedSpan)
      → slot? d.layout i ≡ some s
      → s.mark ≡ 0
      → recover_slot (record { impl = of_size size d }) i ≡ ok []
  unfolding recover_slot SpanDataImpl.get_mark RawSpanData.get_mark
  recover_unmarked i s e h = rw (visit-of_size (λ z c. RawSpanData.get_mark c i) size d, e, h)

  recover_marked :
      (i : ℕ) (s : MarkedSpan) (span : Span)
      → slot? d.layout i ≡ some s
      → 0 < s.mark
      → of_raw_span s.span ≡ ok span
      → recover_slot (record { impl = of_size size d }) i ≡ ok (span ∷ [])
  unfolding recover_slot SpanDataImpl.get_mark RawSpanData.get_mark SpanDataImpl.get RawSpanData.get
  recover_marked i s span e h r =
      let marked = ne→== s.mark 0 (omega arith) in
      rw (
        visit-of_size (λ z c. RawSpanData.get_mark c i) size d,
        visit-of_size (λ z c. RawSpanData.get c i) size d,
        e,
        marked,
        lt→ltb 0 s.mark h,
        r,
      )

  shape :
      (n i : ℕ) (s : MarkedSpan)
      → slot? d.layout i ≡ some s
      → marked_of (take (suc n) (drop i d.layout.marked_spans)) ≡ (
          if s.mark == 0
          then marked_of (take n (drop (i + 1) d.layout.marked_spans))
          else s.span ∷ marked_of (take n (drop (i + 1) d.layout.marked_spans)))
  unfolding marked_of
  shape n i s e =
      let next : i + 1 ≡ suc i = omega arith in rw (drop-get d.layout.marked_spans i s e, next)

  -- The loop finds what the marked slots read as.
  pub recover_slots_lem :
      (n i : ℕ)
      → i + n ≤ length d.layout.marked_spans
      → Readable size (marked_of (take n (drop i d.layout.marked_spans)))
      → (spans : List Span) × (recover_slots (record { impl = of_size size d }) n i ≡ ok spans)
        × (read_spans (marked_of (take n (drop i d.layout.marked_spans))) ≡ ok spans)
  unfolding recover_slots read_spans marked_of
  recover_slots_lem zero i h v = ([], refl, refl)
  recover_slots_lem (suc n) i h v =
      let (s, e) = get_elem?-some d.layout.marked_spans i (omega arith) in
      let rest = marked_of (take n (drop (i + 1) d.layout.marked_spans)) in
      elim (Bool-cases (s.mark == 0)) [
        | inl unmarked ↦
            let q : marked_of (take (suc n) (drop i d.layout.marked_spans)) ≡ rest =
              shape n i s e ∙ rw unmarked in
            let (spans, k, l) =
              recover_slots_lem n (i + 1) (omega arith) (subst (Readable size) q v) in
            (
              spans,
              rw (recover_unmarked i s e (==→eq s.mark 0 unmarked), k),
              subst (λ rs. read_spans rs ≡ ok spans) (sym q) l,
            )
        | inr marked ↦
            let q : marked_of (take (suc n) (drop i d.layout.marked_spans)) ≡ s.span ∷ rest =
              shape n i s e ∙ rw marked in
            let w = subst (Readable size) q v in
            let (span, read, _, _, _, _, _) =
              of_raw_span_total (mmap_config size).max_attributes s.span w.0 in
            let (spans, k, l) = recover_slots_lem n (i + 1) (omega arith) w.1 in
            let h = ==_false→ne s.mark 0 marked in
            (
              span ∷ spans,
              rw (recover_marked i s span e (omega arith) read, k),
              subst (λ rs. read_spans rs ≡ ok (span ∷ spans)) (sym q) (rw (read, l)),
            )
      ]

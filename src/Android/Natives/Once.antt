-- ===== src/Android/Natives/Once.antt =====
-- src/android/android_span_data.cpp: one native call as zero or one calls of the store.
use firebase_telemetry_persi.Android.Natives.Carried.{call_native-Carried, IsNative, weaken}
use firebase_telemetry_persi.Android.Natives.Follows.{fetched, ignored, carried, Follows}
use firebase_telemetry_persi.Common.{
  ◌++◌, Bool, ap, sym, subst, ◌∷◌, false, ◌⊎◌, ℕ, ◌+◌, ◌-◌, ◌^◌, ◌<◌, ◌≡◌, refl, ◌∙◌, true, some,
  List, [], ok, arith, All, Bool-cases, inl, inr,
}
use firebase_telemetry_persi.Layout.{MmapSize}
use firebase_telemetry_persi.MutableSpanData.{MutableSpanData}
use firebase_telemetry_persi.MutableSpanData.History.{run, Call, Sound, IsCall}
use firebase_telemetry_persi.Context.{take_recovered_spans, Context, get_recovered_spans}
use firebase_telemetry_persi.Android.Java.{Jni, World, IsJava, >>=-run}
use firebase_telemetry_persi.Android.ClassCache.{SpanJClassCache}
use firebase_telemetry_persi.Android.Natives.{
  recover_spans_native, NativeCall, recovers, adds, ends, sets, call_native,
}
use firebase_telemetry_persi.Android.Natives.Protocol.{
  IsUnfetched-get_mutable_span_data, recover_spans_native_run, mutation_before_recovery, IsMutation,
}

recovers_or_IsMutation : (call : NativeCall) → (call ≡ recovers) ⊎ IsMutation call
recovers_or_IsMutation recovers = inl refl
recovers_or_IsMutation (adds ids name attributes) = inr tt
recovers_or_IsMutation (ends now span_id) = inr tt
recovers_or_IsMutation (sets span_id key value) = inr tt

-- The handle after its spans have been fetched.
fetched_context :
    (c : Context)
    → (c' : Context) × ((get_recovered_spans (some c)).1 ≡ some c')
      × (c'.is_recovered ≡ true)
      × (c'.mutable_span_data ≡ c.mutable_span_data)
unfolding get_recovered_spans take_recovered_spans
fetched_context c = elim (Bool-cases c.is_recovered) [
  | inl done ↦ (c, rw (done, get_recovered_spans), done, refl)
  | inr fresh ↦ (
    record c { recovered_spans = []; is_recovered = true },
    rw (fresh, get_recovered_spans),
    refl,
    refl,
  )
]

-- Fetching the spans marks the handle.
call_native-fetched :
    {J : Jni} (cache : SpanJClassCache) (c : Context) (w : World J)
    → (c' : Context) × (w' : World J) × (call_native cache (some c) recovers w ≡ ok (some c', w'))
      × (c'.is_recovered ≡ true)
      × (c'.mutable_span_data ≡ c.mutable_span_data)
unfolding call_native
call_native-fetched cache c w =
    let (c', there, now, same) = fetched_context c in
    let (array, w', e) = recover_spans_native_run cache (some c) w in
    (
      c',
      w',
      >>=-run (recover_spans_native cache (some c)) _ w e ∙ ap (λ x. ok (x, w')) there,
      now,
      same,
    )

-- The calls hs of `MutableSpanData` follow the native calls, and take one state to the other.
abbrev pub Explains :
    Bool → MutableSpanData → List NativeCall → List Call → MutableSpanData → Type 0
Explains b m cs hs m' = Follows b cs hs × All IsCall hs × (run m hs ≡ ok m')

-- One native call returns, and is zero or one calls of `MutableSpanData`.
abbrev pub Once :
    {J : Jni} → SpanJClassCache → MmapSize → ℕ → Context → World J → NativeCall → Type 0
Once cache size n c w call =
    (c1 : Context) × (w1 : World _) × (hs1 : List Call) × (call_native cache (some c) call w
      ≡ ok (some c1, w1))
    × ((cs : List NativeCall) (hs : List Call) (m' : MutableSpanData)
        → Explains c1.is_recovered c1.mutable_span_data cs hs m'
        → Explains c.is_recovered c.mutable_span_data (call ∷ cs) (hs1 ++ hs) m')
    × Sound size (n + 1) c1.mutable_span_data

module _ {J : Jni} (laws : IsJava J) (cache : SpanJClassCache) (size : MmapSize) (n : ℕ)
    (c : Context) (w : World J) (s : Sound size n c.mutable_span_data) where
  Once-fetched : Once cache size n c w recovers
  Once-fetched =
      let (c1, w1, e, true1, same) = call_native-fetched cache c w in
      (
        c1,
        w1,
        [],
        e,
        (λ cs hs m' x. (
          fetched (subst (λ b. Follows b cs hs) true1 x.0),
          x.1,
          subst (λ m. run m hs ≡ ok m') same x.2,
        )),
        weaken size n (n + 1) c1.mutable_span_data (omega arith)
            (subst (Sound size n) (sym same) s),
      )

  Once-ignored :
      (call : NativeCall) → IsMutation call → c.is_recovered ≡ false → Once cache size n c w call
  Once-ignored call mutation r = (
    c,
    w,
    [],
    mutation_before_recovery cache (some c) call w (IsUnfetched-get_mutable_span_data (some c) r)
        mutation,
    (λ cs hs m' x. (
      subst (λ b. Follows b (call ∷ cs) hs) (sym r)
          (ignored mutation (subst (λ b. Follows b cs hs) r x.0)),
      x.1,
      x.2,
    )),
    weaken size n (n + 1) c.mutable_span_data (omega arith) s,
  )

  Once-carried :
      (call : NativeCall)
      → IsMutation call
      → IsNative call
      → n < 2 ^ 64 - 1
      → c.is_recovered ≡ true
      → Once cache size n c w call
  unfolding run
  Once-carried call mutation h bound r =
      let (h1, m, w1, e, t, v, stored, s1) =
        call_native-Carried laws cache size n c w r s bound call mutation h in
      (
        record c { mutable_span_data = m },
        w1,
        h1 ∷ [],
        e,
        (λ cs hs m' x. (
          subst (λ b. Follows b (call ∷ cs) (h1 ∷ hs)) (sym r)
              (carried t (subst (λ b. Follows b cs hs) r x.0)),
          (v, x.1),
          rw stored x.2,
        )),
        s1,
      )

  pub call_native-Once :
      (call : NativeCall) → IsNative call → n < 2 ^ 64 - 1 → Once cache size n c w call
  call_native-Once call h bound = elim (recovers_or_IsMutation call) [
    | inl fetch ↦ subst (Once cache size n c w) (sym fetch) Once-fetched
    | inr mutation ↦ elim (Bool-cases c.is_recovered) [
      | inl r ↦ Once-carried call mutation h bound r
      | inr r ↦ Once-ignored call mutation r
    ]
  ]

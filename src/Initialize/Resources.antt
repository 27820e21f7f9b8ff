-- ===== src/Initialize/Resources.antt =====
-- Files and mappings are given back.
use firebase_telemetry_persi.Initialize.Held.{nothing_held, settle, settle-append, kept}
use firebase_telemetry_persi.Layout.{sizeof_header}
use firebase_telemetry_persi.Span.{Span}
use firebase_telemetry_persi.Context.{Context, make_context}
use firebase_telemetry_persi.Common.{
  Yields-if, assert, ◌||◌, Yields, Yields-bind, Yields-any, ap, sym, leb, ℕ, ◌≡◌, ◌∙◌, refl, List,
  [], ◌∷◌, ◌++◌, Option, none, some, Result, ok, ◌>>=◌, if◌then◌else◌, subst, ◌&&◌, ◌==◌,
  Bool-cases, inl, inr, eq→==, ==→eq,
}
use firebase_telemetry_persi.SpanDataImpl
use firebase_telemetry_persi.SpanDataImpl.{DataVariant}
use firebase_telemetry_persi.Initialize.{
  Contents, finish, initialize_span_data, get_page_size, Call, opens, closes, maps, unmaps, System,
  Mapping, Outcome, prepare, recover, recover_slots, try_recovery, remake, remake_unless,
  make_managed_mmap, make_span_data_impl, should_do_recovery, reset_mapping, get_aligned_size,
}

-- An outcome that has opened and closed no file, and whose object has a mapping of the given length.
abbrev Keeps : ℕ → Outcome → Type 0
Keeps size o =
    (fds : List ℕ)
    → settle o.calls (record { files = fds; regions = [] })
      ≡ some (record { files = fds; regions = kept size o.impl })

-- An outcome that has closed the file, if it has no object.
abbrev ClosesUnless : ℕ → ℕ → Outcome → Type 0
ClosesUnless fd size o =
    settle o.calls (record { files = fd ∷ []; regions = [] })
    ≡ some (record { files = kept fd o.impl; regions = kept size o.impl })

dropped-Keeps :
    (size length : ℕ) (spans : List Span)
    → Keeps size
        (record { calls = maps length ∷ unmaps length ∷ []; recovered = spans; impl = none })
dropped-Keeps size length spans fds = rw (settle, eq→== length length refl)

recover-Keeps :
    (m : Mapping) (target_size required_size : ℕ)
    → Yields (Keeps required_size) (recover m target_size required_size)
unfolding recover
recover-Keeps m target_size required_size =
    elim (Bool-cases (should_do_recovery (some (m.contents.header)) m.required_size)) [
      | inl due ↦ rw due (
          Yields-bind (λ _. Unit {0}) (Keeps required_size) (make_span_data_impl m) _ (Yields-any _)
            (λ impl _.
              Yields-bind (λ _. Unit {0}) (Keeps required_size)
                (recover_slots (record { impl = impl }) (SpanDataImpl.count impl) 0) _
                (Yields-any _)
                (λ spans _.
                  Yields-bind (λ _. Unit {0}) (Keeps required_size) (SpanDataImpl.size_of impl) _
                    (Yields-any _) (λ size _. reused impl spans size))))
      | inr not_due ↦ rw not_due (dropped-Keeps required_size m.required_size [])
    ]
  where
    reused :
        (impl : DataVariant) (spans : List Span) (size : ℕ)
        → Keeps required_size (
            if (size == target_size) && (m.required_size == required_size)
            then record { calls = maps m.required_size ∷ []; recovered = spans; impl = some impl }
            else record {
              calls = maps m.required_size ∷ unmaps m.required_size ∷ [];
              recovered = spans;
              impl = none;
            })
    reused impl spans size = elim (Bool-cases (size == target_size)) [
      | inl one ↦ elim (Bool-cases (m.required_size == required_size)) [
        | inl two ↦
            rw (one, two)
              (λ fds.
                ap (λ n. some (record { files = fds; regions = n ∷ [] }))
                  (==→eq m.required_size required_size two))
        | inr two ↦ rw (one, two) (dropped-Keeps required_size m.required_size spans)
      ]
      | inr one ↦ rw one (dropped-Keeps required_size m.required_size spans)
    ]

abbrev HasLength : ℕ → Option Mapping → Type 0
HasLength n none = Unit {0}
HasLength n (some m) = m.required_size ≡ n

make_managed_mmap-HasLength :
    (c : Option Contents) (n : ℕ) → Yields (HasLength n) (make_managed_mmap c n)
unfolding make_managed_mmap
make_managed_mmap-HasLength none n =
    Yields-bind (λ _. Unit {0}) (HasLength n) (assert ((n == 0) || leb sizeof_header n)) _
      (Yields-any _) (λ _ _. tt)
make_managed_mmap-HasLength (some c) n =
    Yields-bind (λ _. Unit {0}) (HasLength n) (assert ((n == 0) || leb sizeof_header n)) _
      (Yields-any _) (λ _ _. elim (Bool-cases (n == 0)) [ inl e ↦ rw e tt | inr e ↦ rw e refl ])

abbrev KeepsIfAny : ℕ → Option Outcome → Type 0
KeepsIfAny size none = Unit {0}
KeepsIfAny size (some o) = Keeps size o

-- The rest of `try_recovery` once the file is mapped, or not.
abbrev recovered_from : ℕ → ℕ → Option Mapping → Result (Option Outcome)
recovered_from target_size required_size header = elim header [
  | none ↦ ok none
  | some m ↦ do o ← recover m target_size required_size; ok (some o)
]

recovered_from-KeepsIfAny :
    (target_size required_size : ℕ) (header : Option Mapping)
    → Yields (KeepsIfAny required_size) (recovered_from target_size required_size header)
recovered_from-KeepsIfAny target_size required_size none = tt
recovered_from-KeepsIfAny target_size required_size (some m) =
    Yields-bind (Keeps required_size) (KeepsIfAny required_size)
      (recover m target_size required_size) (λ o. ok (some o))
      (recover-Keeps m target_size required_size) (λ o v. v)

try_recovery-KeepsIfAny :
    (sys : System) (original_size target_size required_size : ℕ)
    → Yields (KeepsIfAny required_size) (try_recovery sys original_size target_size required_size)
unfolding try_recovery
try_recovery-KeepsIfAny sys original_size target_size required_size =
    Yields-if (KeepsIfAny required_size) (leb (get_page_size sys.sysconf) original_size) _
      (ok (some (record { calls = []; recovered = []; impl = none })))
      (Yields-bind (λ _. Unit {0}) (KeepsIfAny required_size)
        (make_managed_mmap sys.mapped original_size) (recovered_from target_size required_size)
        (Yields-any _) (λ header _. recovered_from-KeepsIfAny target_size required_size header))
      (λ fds. refl)

-- An outcome of the first block without an object holds the file only.
holds_file :
    (fd size : ℕ) (o : Outcome)
    → o.impl ≡ none
    → Keeps size o
    → settle o.calls (record { files = fd ∷ []; regions = [] })
      ≡ some (record { files = fd ∷ []; regions = [] })
holds_file fd size o gone v =
    v (fd ∷ []) ∙ ap (λ i. some (record { files = fd ∷ []; regions = kept size i })) gone

closed_again :
    (fd size : ℕ) (o : Outcome)
    → o.impl ≡ none
    → Keeps size o
    → ClosesUnless fd size
        (record { calls = o.calls ++ (closes fd ∷ []); recovered = []; impl = none })
closed_again fd size o gone v =
    settle-append o.calls (closes fd ∷ []) (record { files = fd ∷ []; regions = [] }) _
      (holds_file fd size o gone v)
    ∙ rw (settle, eq→== fd fd refl)

remake-ClosesUnless :
    (sys : System) (fd target_size required_size : ℕ) (o : Outcome)
    → o.impl ≡ none
    → Keeps required_size o
    → Yields (ClosesUnless fd required_size) (remake sys fd target_size required_size o)
unfolding remake
remake-ClosesUnless sys fd target_size required_size o gone v =
    Yields-if (ClosesUnless fd required_size) sys.truncated _ _
      (Yields-bind (HasLength required_size) (ClosesUnless fd required_size)
        (make_managed_mmap sys.remapped required_size) after
        (make_managed_mmap-HasLength sys.remapped required_size) mapped)
      (closed_again fd required_size o gone v)
  where
    after : Option Mapping → Result Outcome
    after header = elim header [
      | none ↦ ok (record { calls = o.calls ++ (closes fd ∷ []); recovered = []; impl = none })
      | some m ↦ do
        impl ← make_span_data_impl (reset_mapping m target_size)
        ok (record {
          calls = o.calls ++ (maps m.required_size ∷ []);
          recovered = o.recovered;
          impl = some impl;
        })
    ]

    mapped :
        (header : Option Mapping)
        → HasLength required_size header
        → Yields (ClosesUnless fd required_size) (after header)
    mapped none _ = closed_again fd required_size o gone v
    mapped (some m) e =
        Yields-bind (λ _. Unit {0}) (ClosesUnless fd required_size)
          (make_span_data_impl (reset_mapping m target_size)) _ (Yields-any _)
          (λ impl _.
            settle-append o.calls (maps m.required_size ∷ [])
              (record { files = fd ∷ []; regions = [] }) _ (holds_file fd required_size o gone v)
            ∙ ap (λ n. some (record { files = fd ∷ []; regions = n ∷ [] })) e)

remake_unless-ClosesUnless :
    (sys : System) (fd target_size required_size : ℕ) (o : Outcome)
    → Keeps required_size o
    → Yields (ClosesUnless fd required_size) (remake_unless sys fd target_size required_size o)
unfolding remake_unless
remake_unless-ClosesUnless sys fd target_size required_size o v = at o.impl refl
  where
    at :
        (impl : Option DataVariant)
        → o.impl ≡ impl
        → Yields
            (ClosesUnless fd required_size)
            (elim impl [ none ↦ remake sys fd target_size required_size o | some _ ↦ ok o ])
    at none e = remake-ClosesUnless sys fd target_size required_size o e v
    at (some i) e =
        v (fd ∷ [])
        ∙ ap (λ n. some (record { files = n; regions = kept required_size o.impl }))
            (sym (ap (kept fd) e))

prepare-ClosesUnless :
    (sys : System) (fd original_size target_size : ℕ)
    → Yields
        (ClosesUnless fd (get_aligned_size sys.size_bits sys.sysconf target_size))
        (prepare sys fd original_size target_size)
unfolding prepare
prepare-ClosesUnless sys fd original_size target_size =
    let required_size = get_aligned_size sys.size_bits sys.sysconf target_size in
    Yields-bind (KeepsIfAny required_size) (ClosesUnless fd required_size)
      (try_recovery sys original_size target_size required_size) _
      (try_recovery-KeepsIfAny sys original_size target_size required_size)
      (λ tried v.
        (elim tried
            as (λ t.
              KeepsIfAny required_size t
              → Yields (ClosesUnless fd required_size) (elim t [
                | none ↦ ok (record { calls = closes fd ∷ []; recovered = []; impl = none })
                | some o ↦ remake_unless sys fd target_size required_size o
              ])) [
                | none ↦ λ _. rw (settle, eq→== fd fd refl)
                | some o ↦ λ w. remake_unless-ClosesUnless sys fd target_size required_size o w
              ])
          v)

-- Nothing is held at the end but the mapping of a handle.
abbrev Settled : ℕ → List Call × Option Context → Type 0
Settled size (calls, context) =
    settle calls nothing_held ≡ some (record { files = []; regions = kept size context })

finish-Settled : (fd size : ℕ) (o : Outcome) → ClosesUnless fd size o → Settled size (finish fd o)
finish-Settled fd size o v = at o.impl refl
  where
    at :
        (impl : Option DataVariant)
        → o.impl ≡ impl
        → Settled size (elim impl as (λ _. List Call × Option Context) [
          | none ↦ (opens fd ∷ o.calls, none)
          | some i ↦ (opens fd ∷ o.calls ++ (closes fd ∷ []), some (make_context i o.recovered))
        ])
    at none e = v ∙ ap (λ i. some (record { files = kept fd i; regions = kept size i })) e
    at (some i) e =
        settle-append o.calls (closes fd ∷ []) (record { files = fd ∷ []; regions = [] }) _
          (v ∙ ap (λ i. some (record { files = kept fd i; regions = kept size i })) e)
        ∙ rw (settle, eq→== fd fd refl)

initialize_span_data-Settled :
    (sys : System) (target_size : ℕ)
    → Yields
        (Settled (get_aligned_size sys.size_bits sys.sysconf target_size))
        (initialize_span_data sys target_size)
unfolding initialize_span_data
initialize_span_data-Settled sys target_size = at sys.fd sys.st_size
  where
    at :
        (fd st_size : Option ℕ)
        → Yields
            (Settled (get_aligned_size sys.size_bits sys.sysconf target_size))
            (elim fd as (λ _. Result (List Call × Option Context)) [
              | none ↦ ok ([], none)
              | some n ↦ elim st_size [
                | none ↦ ok (opens n ∷ closes n ∷ [], none)
                | some original_size ↦ do
                  o ← prepare sys n original_size target_size
                  ok (finish n o)
              ]
            ])
    at none st_size = refl
    at (some fd) none = rw (settle, eq→== fd fd refl)
    at (some fd) (some original_size) =
        Yields-bind (ClosesUnless fd (get_aligned_size sys.size_bits sys.sysconf target_size))
          (Settled (get_aligned_size sys.size_bits sys.sysconf target_size))
          (prepare sys fd original_size target_size) _
          (prepare-ClosesUnless sys fd original_size target_size)
          (λ o v. finish-Settled fd (get_aligned_size sys.size_bits sys.sysconf target_size) o v)

-- Whatever the system calls answer: when `initialize_span_data` returns, its calls, in their order,
-- close and unmap only what is held, by its descriptor and by its length; and nothing is held after
-- them but, exactly when a handle is returned, one mapping of the length for the target size.
pub initialize_span_data_releases :
    (sys : System) (target_size : ℕ) (calls : List Call) (context : Option Context)
    → initialize_span_data sys target_size ≡ ok (calls, context)
    → settle calls nothing_held
      ≡ some (record {
        files = [];
        regions = kept (get_aligned_size sys.size_bits sys.sysconf target_size) context;
      })
initialize_span_data_releases sys target_size calls context e =
    subst (Yields (Settled (get_aligned_size sys.size_bits sys.sysconf target_size))) e
      (initialize_span_data-Settled sys target_size)

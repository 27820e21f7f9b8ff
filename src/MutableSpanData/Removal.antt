-- ===== src/MutableSpanData/Removal.antt =====
-- `remove` for any id.
use firebase_telemetry_persi.MutableSpanData.Remove.{Removed, remove-present, remove-absent}
use firebase_telemetry_persi.Common.{
  one_if, ap, ◌+◌, Option-cases, ℕ, ◌≡◌, refl, sym, ◌∙◌, none, ok, arith, ◌==◌, Bool-cases, ==→eq,
  inl, inr,
}
use firebase_telemetry_persi.Layout.{MmapSize}
use firebase_telemetry_persi.RawSpanData.{RawSpanData}
use firebase_telemetry_persi.MutableSpanData.{MutableSpanData, Map, remove}
use firebase_telemetry_persi.MutableSpanData.Invariant.{view-absent, active_count, state, IsIndexed}

-- On a state that meets the invariant `remove` never faults and keeps the invariant, whether the id is
-- there or not. Afterwards the id is not there; every other id keeps its span and mark; the count has
-- fallen by one if the id was there, and otherwise nothing has changed.
pub remove-Removed :
    (size : MmapSize) (d : RawSpanData) (index : Map) (id : ℕ)
    → IsIndexed size d index
    → (m : MutableSpanData) × (remove (state size d index) id ≡ ok m)
      × (r : Removed size d index id m) × (active_count r.store + one_if (index id)
          ≡ active_count d)
      × (index id ≡ none → m ≡ state size d index)
remove-Removed size d index id v = elim (Option-cases (index id)) [
  | inl absent ↦ (
    state size d index,
    remove-absent size d index id absent,
    record {
      store = d;
      map = index;
      result = refl;
      valid = v;
      views = λ j. elim (Bool-cases (id == j)) [
        | inl here ↦ view-absent d index j (sym (ap index (==→eq id j here)) ∙ absent) ∙ rw here
        | inr other ↦ rw other
      ];
      counter = refl;
      same_file = record { signature = refl; version = refl };
    },
    omega (arith, ap one_if absent),
    λ _. refl,
  )
  | inr (i, present) ↦
      let (m, e, r, c) = remove-present size d index id i v present in
      (m, e, r, omega (arith, c, ap one_if present), λ absent. absurd (cc))
]

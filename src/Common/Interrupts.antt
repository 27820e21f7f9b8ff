-- ===== src/Common/Interrupts.antt =====
-- A sequence of stores, and the states in which a crash can leave it.
use mathlib.Core.List.{List, [], ◌∷◌}

module _ {O S : Type 0} (run : O → S → S) where
  abbrev pub run_all : List O → S → S
  run_all [] s = s
  run_all (o ∷ os) s = run_all os (run o s)

-- `Torn o s mid` says that a crash inside the store `o`, begun in state `s`, can leave `mid`.
pub data Interrupted {O S : Type 0} (run : O → S → S) (Torn : O → S → S → Type 0)
    : List O → S → S → Type 0 where
  finished : {s : S} → Interrupted run Torn [] s s
  torn : {o : O} {os : List O} {s mid : S} → Torn o s mid → Interrupted run Torn (o ∷ os) s mid
  next :
      {o : O} {os : List O} {s mid : S}
      → Interrupted run Torn os (run o s) mid
      → Interrupted run Torn (o ∷ os) s mid

-- A sequence that is not interrupted is among the outcomes.
pub Interrupted-run_all :
    {O S : Type 0} (run : O → S → S) (Torn : O → S → S → Type 0) (os : List O) (s : S)
    → Interrupted run Torn os s (run_all run os s)
Interrupted-run_all run Torn [] s = finished
Interrupted-run_all run Torn (o ∷ os) s = next (Interrupted-run_all run Torn os (run o s))

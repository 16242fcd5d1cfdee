-- ===== src/Vacuum.antt =====
-- vacuum.go: NewVacuum and Vacuum.Sweep.
pub mod Guards
mod Tests
use worklease.Base.{ℕ, Option, none, some, if◌then◌else◌}
use worklease.Base.Int.{pos, leb_ℤ}
use worklease.Errors.{GoError, Result, ok, err, error_of, sentinel, nil_backend, retention_required}
use worklease.Backend.{Duration, SweepOptions}
use worklease.Client.Types.{Context, Backend}

pub record SweepEvent : Type 0 where
  pub options : SweepOptions
  pub deleted : ℕ
  pub duration : Duration
  pub error : Option GoError

-- A VacuumObserver with a state of its own.
abbrev pub VacuumObserver : Type 0 → Type 0
VacuumObserver O = SweepEvent → O → O

-- The zero Vacuum has no backend.
pub record Vacuum (S O : Type 0) : Type 0 where
  pub b : Option (Backend S)
  pub obs : VacuumObserver O

-- NoopVacuumObserver.
abbrev pub noop_vacuum_observer : {O : Type 0} → VacuumObserver O
noop_vacuum_observer e o = o

abbrev pub observer_or_noop : {O : Type 0} → Option (VacuumObserver O) → VacuumObserver O
observer_or_noop none = noop_vacuum_observer
observer_or_noop (some obs) = obs

unfoldable pub new_vacuum :
    {S O : Type 0} → Option (Backend S) → Option (VacuumObserver O) → Result (Vacuum S O)
new_vacuum none observer = err (sentinel nil_backend)
new_vacuum (some b) observer = ok (record { b = some b; obs = observer_or_noop observer })

-- `n, err := v.b.Sweep(ctx, opts)`, where the n of a failed call is reported as it is: 0.
abbrev pub count : Result ℕ → ℕ
count (ok n) = n
count (err e) = 0

abbrev pub delegate :
    {S O : Type 0}
    → Backend S
    → VacuumObserver O
    → Context
    → Duration
    → SweepOptions
    → S × O
    → Result ℕ × (S × O)
delegate b obs ctx duration opts (s, o) =
    let (reply, s') = b.sweep ctx opts s in
    let event : SweepEvent = record {
      options = opts;
      deleted = count reply;
      duration = duration;
      error = error_of reply;
    } in
    (reply, (s', obs event o))

-- The Vacuum may be nil.
unfoldable pub sweep :
    {S O : Type 0}
    → Option (Vacuum S O)
    → Context
    → Duration
    → SweepOptions
    → S × O
    → Result ℕ × (S × O)
sweep none ctx duration opts w = (err (sentinel nil_backend), w)
sweep (some v) ctx duration opts w = elim v.b [
  | none ↦ (err (sentinel nil_backend), w)
  | some b ↦
      if leb_ℤ opts.retention (pos 0)
      then (err (sentinel retention_required), w)
      else delegate b v.obs ctx duration opts w
]

-- ===== src/Conformance/Memory.antt =====
-- The in-memory backend passes the conformance suite, wherever its clock starts.
pub mod Clock
mod Acquire
mod Checkpoint
mod Renew
mod Release
mod Read
mod Guards
mod Forget
mod Sweep
mod Handoff
use worklease.Base.{ℕ, ◌≤◌, ◌≡◌, refl, true}
use worklease.Memory.{new}
use worklease.Memory.Service.{service}
use worklease.Conformance.{run_suite}
use worklease.Conformance.Memory.Clock.{tick}
use worklease.Conformance.Memory.Acquire.{acquire_specs_pass}
use worklease.Conformance.Memory.Checkpoint.{checkpoint_specs_pass}
use worklease.Conformance.Memory.Renew.{renew_specs_pass}
use worklease.Conformance.Memory.Release.{release_specs_pass}
use worklease.Conformance.Memory.Read.{read_specs_pass}
use worklease.Conformance.Memory.Guards.{guard_specs_pass}
use worklease.Conformance.Memory.Forget.{forget_specs_pass}
use worklease.Conformance.Memory.Sweep.{sweep_specs_pass}
use worklease.Conformance.Memory.Handoff.{handoff_specs_pass}

-- The in-memory backend passes every spec of run_suite, from any start of its clock, if
-- the clock advances between two operations by the same gap, of at least two nanoseconds and at most
-- a second.
pub memory_conforms :
    (n gap : ℕ) → 2 ≤ gap → gap ≤ 1_000_000_000 → run_suite (service (tick gap)) (new, n) ≡ true
unfolding run_suite
memory_conforms n gap apart close =
    rw
      (
        acquire_specs_pass n gap apart close,
        checkpoint_specs_pass n gap apart close,
        renew_specs_pass n gap apart close,
        release_specs_pass n gap apart close,
        read_specs_pass n gap apart close,
        guard_specs_pass n gap apart close,
        forget_specs_pass n gap apart close,
        sweep_specs_pass n gap apart close,
        handoff_specs_pass n gap apart close,
      )
      refl

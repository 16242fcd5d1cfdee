-- ===== src/Conformance.antt =====
-- backend/conformance/conformance.go: the specs that every backend must pass, as Boolean tests of a
-- backend from a clean state.
pub mod Expect
pub mod Acquire
pub mod Checkpoint
pub mod Renew
pub mod Release
pub mod Read
pub mod Guards
pub mod Forget
pub mod Sweep
pub mod Handoff
pub mod Memory
mod Tests
use worklease.Base.{Bool, ◌&&◌}
use worklease.Client.Types.{Backend}
use worklease.Conformance.Acquire.{acquire_specs}
use worklease.Conformance.Checkpoint.{checkpoint_specs}
use worklease.Conformance.Renew.{renew_specs}
use worklease.Conformance.Release.{release_specs}
use worklease.Conformance.Read.{read_specs}
use worklease.Conformance.Guards.{guard_specs}
use worklease.Conformance.Forget.{forget_specs}
use worklease.Conformance.Sweep.{sweep_specs}
use worklease.Conformance.Handoff.{handoff_specs}

-- The specs on the aliasing of slices are left out: a slice is a value here.
unfoldable pub run_suite : {S : Type 0} → Backend S → S → Bool
unfolding acquire_specs checkpoint_specs renew_specs release_specs read_specs guard_specs
    forget_specs sweep_specs handoff_specs
run_suite b s =
    acquire_specs b s
    && (checkpoint_specs b s
        && (renew_specs b s
            && (release_specs b s
                && (read_specs b s
                    && (guard_specs b s
                        && (forget_specs b s && (sweep_specs b s && (handoff_specs b s))))))))

-- ===== src/Conformance/Memory/Guards.antt =====
-- The in-memory backend passes the specs of Conformance/Guards.
use worklease.Base.{ℕ, ◌≤◌, ◌≡◌, refl, true, arith}
use worklease.Base.Int.{◌+ℤ◌, ◌-ℤ◌}
use worklease.Base.Dict.{lookup, insert, erase}
use worklease.Errors.{is, listed, chain, number}
use worklease.Memory.{
  new, acquire, checkpoint, renew, release, read_checkpoint, forget, sweep, grant, new_row, held_by,
  is_kept, sweep_rows,
}
use worklease.Memory.Service.{service}
use worklease.Conformance.Memory.Clock.{tick}
use worklease.Conformance.Guards.{cancelled_refuses, other_holder_fenced, guard_specs}

module _ (n gap : ℕ) (apart : 2 ≤ gap) (close : gap ≤ 1_000_000_000) where
  cancelled_refuses_passes : cancelled_refuses (service (tick gap)) (new, n) ≡ true
  unfolding cancelled_refuses acquire checkpoint renew release read_checkpoint forget sweep new
      lookup insert erase grant new_row held_by is_kept sweep_rows is listed chain number ◌+ℤ◌ ◌-ℤ◌
  cancelled_refuses_passes = ground arith

  other_holder_fenced_passes : other_holder_fenced (service (tick gap)) (new, n) ≡ true
  unfolding other_holder_fenced acquire checkpoint renew release read_checkpoint forget sweep new
      lookup insert erase grant new_row held_by is_kept sweep_rows is listed chain number ◌+ℤ◌ ◌-ℤ◌
  other_holder_fenced_passes = ground arith

  pub guard_specs_pass : guard_specs (service (tick gap)) (new, n) ≡ true
  unfolding guard_specs
  guard_specs_pass = rw (cancelled_refuses_passes, other_holder_fenced_passes) refl

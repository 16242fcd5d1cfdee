-- ===== src/Conformance/Memory/Forget.antt =====
-- The in-memory backend passes the specs of Conformance/Forget.
use worklease.Base.{ℕ, ◌≤◌, ◌≡◌, refl, true, arith}
use worklease.Base.Int.{◌+ℤ◌, ◌-ℤ◌}
use worklease.Base.Dict.{lookup, insert, erase}
use worklease.Errors.{is, listed, chain, number}
use worklease.Memory.{
  new, acquire, checkpoint, renew, release, read_checkpoint, forget, sweep, grant, new_row, held_by,
  is_kept, sweep_rows,
}
use worklease.Memory.Service.{service}
use worklease.Conformance.Memory.Clock.{tick}
use worklease.Conformance.Forget.{
  forget_renumbers, forget_stale, forget_never_acquired, forget_after_release, forget_specs,
}

module _ (n gap : ℕ) (apart : 2 ≤ gap) (close : gap ≤ 1_000_000_000) where
  forget_renumbers_passes : forget_renumbers (service (tick gap)) (new, n) ≡ true
  unfolding forget_renumbers acquire checkpoint renew release read_checkpoint forget sweep new
      lookup insert erase grant new_row held_by is_kept sweep_rows is listed chain number ◌+ℤ◌ ◌-ℤ◌
  forget_renumbers_passes = ground arith

  forget_stale_passes : forget_stale (service (tick gap)) (new, n) ≡ true
  unfolding forget_stale acquire checkpoint renew release read_checkpoint forget sweep new lookup
      insert erase grant new_row held_by is_kept sweep_rows is listed chain number ◌+ℤ◌ ◌-ℤ◌
  forget_stale_passes = ground arith

  forget_never_acquired_passes : forget_never_acquired (service (tick gap)) (new, n) ≡ true
  unfolding forget_never_acquired acquire checkpoint renew release read_checkpoint forget sweep new
      lookup insert erase grant new_row held_by is_kept sweep_rows is listed chain number ◌+ℤ◌ ◌-ℤ◌
  forget_never_acquired_passes = ground arith

  forget_after_release_passes : forget_after_release (service (tick gap)) (new, n) ≡ true
  unfolding forget_after_release acquire checkpoint renew release read_checkpoint forget sweep new
      lookup insert erase grant new_row held_by is_kept sweep_rows is listed chain number ◌+ℤ◌ ◌-ℤ◌
  forget_after_release_passes = ground arith

  pub forget_specs_pass : forget_specs (service (tick gap)) (new, n) ≡ true
  unfolding forget_specs
  forget_specs_pass =
      rw
        (
          forget_renumbers_passes, forget_stale_passes, forget_never_acquired_passes,
          forget_after_release_passes,
        )
        refl

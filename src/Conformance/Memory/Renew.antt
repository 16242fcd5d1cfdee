-- ===== src/Conformance/Memory/Renew.antt =====
-- The in-memory backend passes the specs of Conformance/Renew.
use worklease.Base.{ℕ, ◌≤◌, ◌≡◌, refl, true, arith}
use worklease.Base.Int.{◌+ℤ◌, ◌-ℤ◌}
use worklease.Base.Dict.{lookup, insert, erase}
use worklease.Errors.{is, listed, chain, number}
use worklease.Memory.{
  new, acquire, checkpoint, renew, release, read_checkpoint, forget, sweep, grant, new_row, held_by,
  is_kept, sweep_rows,
}
use worklease.Memory.Service.{service}
use worklease.Conformance.Memory.Clock.{tick}
use worklease.Conformance.Renew.{
  renew_succeeds, renew_stale, renew_never_acquired, renew_expired, renew_after_release,
  renew_specs,
}

module _ (n gap : ℕ) (apart : 2 ≤ gap) (close : gap ≤ 1_000_000_000) where
  renew_succeeds_passes : renew_succeeds (service (tick gap)) (new, n) ≡ true
  unfolding renew_succeeds acquire checkpoint renew release read_checkpoint forget sweep new lookup
      insert erase grant new_row held_by is_kept sweep_rows is listed chain number ◌+ℤ◌ ◌-ℤ◌
  renew_succeeds_passes = ground arith

  renew_stale_passes : renew_stale (service (tick gap)) (new, n) ≡ true
  unfolding renew_stale acquire checkpoint renew release read_checkpoint forget sweep new lookup
      insert erase grant new_row held_by is_kept sweep_rows is listed chain number ◌+ℤ◌ ◌-ℤ◌
  renew_stale_passes = ground arith

  renew_never_acquired_passes : renew_never_acquired (service (tick gap)) (new, n) ≡ true
  unfolding renew_never_acquired acquire checkpoint renew release read_checkpoint forget sweep new
      lookup insert erase grant new_row held_by is_kept sweep_rows is listed chain number ◌+ℤ◌ ◌-ℤ◌
  renew_never_acquired_passes = ground arith

  renew_expired_passes : renew_expired (service (tick gap)) (new, n) ≡ true
  unfolding renew_expired acquire checkpoint renew release read_checkpoint forget sweep new lookup
      insert erase grant new_row held_by is_kept sweep_rows is listed chain number ◌+ℤ◌ ◌-ℤ◌
  renew_expired_passes = ground arith

  renew_after_release_passes : renew_after_release (service (tick gap)) (new, n) ≡ true
  unfolding renew_after_release acquire checkpoint renew release read_checkpoint forget sweep new
      lookup insert erase grant new_row held_by is_kept sweep_rows is listed chain number ◌+ℤ◌ ◌-ℤ◌
  renew_after_release_passes = ground arith

  pub renew_specs_pass : renew_specs (service (tick gap)) (new, n) ≡ true
  unfolding renew_specs
  renew_specs_pass =
      rw
        (
          renew_succeeds_passes, renew_stale_passes, renew_never_acquired_passes,
          renew_expired_passes, renew_after_release_passes,
        )
        refl

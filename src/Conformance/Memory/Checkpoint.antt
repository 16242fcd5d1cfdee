-- ===== src/Conformance/Memory/Checkpoint.antt =====
-- The in-memory backend passes the specs of Conformance/Checkpoint.
use worklease.Base.{ℕ, ◌+◌, ◌≤◌, ◌≡◌, refl, true, arith}
use worklease.Base.Int.{ltb_ℤ, pos, ◌+ℤ◌, ◌-ℤ◌, +ℤ_parts}
use worklease.Base.Dict.{lookup, insert, erase}
use worklease.Errors.{is, listed, chain, number}
use worklease.Memory.{
  new, acquire, checkpoint, renew, release, read_checkpoint, forget, sweep, grant, new_row, held_by,
  is_kept, sweep_rows, release_grace_period,
}
use worklease.Memory.Service.{service}
use worklease.Conformance.Memory.Clock.{tick}
use worklease.Conformance.Expect.{normal_ttl}
use worklease.Conformance.Checkpoint.{
  checkpoint_persists, checkpoint_stale, checkpoint_never_acquired, checkpoint_keeps_exit,
  checkpoint_after_release, checkpoint_revives, checkpoint_specs,
}

module _ (n gap : ℕ) (apart : 2 ≤ gap) (close : gap ≤ 1_000_000_000) where
  checkpoint_persists_passes : checkpoint_persists (service (tick gap)) (new, n) ≡ true
  unfolding checkpoint_persists acquire checkpoint renew release read_checkpoint forget sweep new
      lookup insert erase grant new_row held_by is_kept sweep_rows is listed chain number ◌+ℤ◌ ◌-ℤ◌
  checkpoint_persists_passes = ground arith

  checkpoint_stale_passes : checkpoint_stale (service (tick gap)) (new, n) ≡ true
  unfolding checkpoint_stale acquire checkpoint renew release read_checkpoint forget sweep new
      lookup insert erase grant new_row held_by is_kept sweep_rows is listed chain number ◌+ℤ◌ ◌-ℤ◌
  checkpoint_stale_passes = ground arith

  checkpoint_never_acquired_passes : checkpoint_never_acquired (service (tick gap)) (new, n) ≡ true
  unfolding checkpoint_never_acquired acquire checkpoint renew release read_checkpoint forget sweep
      new lookup insert erase grant new_row held_by is_kept sweep_rows is listed chain number ◌+ℤ◌
      ◌-ℤ◌
  checkpoint_never_acquired_passes = ground arith

  checkpoint_keeps_exit_passes : checkpoint_keeps_exit (service (tick gap)) (new, n) ≡ true
  unfolding checkpoint_keeps_exit acquire checkpoint renew release read_checkpoint forget sweep new
      lookup insert erase grant new_row held_by is_kept sweep_rows is listed chain number
  checkpoint_keeps_exit_passes =
      let f0 : ltb_ℤ (pos (n + gap)) (pos n +ℤ normal_ttl) ≡ true =
        ground (arith, +ℤ_parts (pos n) normal_ttl) in
      let f1 : ltb_ℤ (pos (n + gap) +ℤ release_grace_period) (pos (n + gap + gap)) ≡ true =
        ground (arith, +ℤ_parts (pos (n + gap)) release_grace_period) in
      rw f0 (rw f1 (refl))

  checkpoint_after_release_passes : checkpoint_after_release (service (tick gap)) (new, n) ≡ true
  unfolding checkpoint_after_release acquire checkpoint renew release read_checkpoint forget sweep
      new lookup insert erase grant new_row held_by is_kept sweep_rows is listed chain number
  checkpoint_after_release_passes =
      let f0 : ltb_ℤ (pos (n + gap + gap)) (pos (n + gap) +ℤ normal_ttl) ≡ true =
        ground (arith, +ℤ_parts (pos (n + gap)) normal_ttl) in
      let f1 : ltb_ℤ (pos (n + gap + gap) +ℤ release_grace_period) (pos (n + gap + gap + gap + gap))
          ≡ true =
        ground (arith, +ℤ_parts (pos (n + gap + gap)) release_grace_period) in
      rw f0 (rw f1 (refl))

  checkpoint_revives_passes : checkpoint_revives (service (tick gap)) (new, n) ≡ true
  unfolding checkpoint_revives acquire checkpoint renew release read_checkpoint forget sweep new
      lookup insert erase grant new_row held_by is_kept sweep_rows is listed chain number ◌+ℤ◌ ◌-ℤ◌
  checkpoint_revives_passes = ground arith

  pub checkpoint_specs_pass : checkpoint_specs (service (tick gap)) (new, n) ≡ true
  unfolding checkpoint_specs
  checkpoint_specs_pass =
      rw
        (
          checkpoint_persists_passes, checkpoint_stale_passes, checkpoint_never_acquired_passes,
          checkpoint_keeps_exit_passes, checkpoint_after_release_passes, checkpoint_revives_passes,
        )
        refl

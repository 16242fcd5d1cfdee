-- ===== src/Conformance/Memory/Read.antt =====
-- The in-memory backend passes the specs of Conformance/Read.
use worklease.Base.{ℕ, ◌+◌, ◌≤◌, ◌≡◌, refl, true, arith}
use worklease.Base.Int.{ltb_ℤ, pos, ◌+ℤ◌, ◌-ℤ◌, +ℤ_parts}
use worklease.Base.Dict.{lookup, insert, erase}
use worklease.Errors.{is, listed, chain, number}
use worklease.Memory.{
  new, acquire, checkpoint, renew, release, read_checkpoint, forget, sweep, grant, new_row, held_by,
  is_kept, sweep_rows, release_grace_period,
}
use worklease.Memory.Service.{service}
use worklease.Conformance.Memory.Clock.{tick}
use worklease.Conformance.Expect.{normal_ttl}
use worklease.Conformance.Read.{
  read_first, read_crashed, read_stable, read_never_acquired, read_forgotten, read_swept,
  read_after_forget, read_empty, read_unwritten, read_stale, read_specs,
}

module _ (n gap : ℕ) (apart : 2 ≤ gap) (close : gap ≤ 1_000_000_000) where
  read_first_passes : read_first (service (tick gap)) (new, n) ≡ true
  unfolding read_first acquire checkpoint renew release read_checkpoint forget sweep new lookup
      insert erase grant new_row held_by is_kept sweep_rows is listed chain number ◌+ℤ◌ ◌-ℤ◌
  read_first_passes = ground arith

  read_crashed_passes : read_crashed (service (tick gap)) (new, n) ≡ true
  unfolding read_crashed acquire checkpoint renew release read_checkpoint forget sweep new lookup
      insert erase grant new_row held_by is_kept sweep_rows is listed chain number ◌+ℤ◌ ◌-ℤ◌
  read_crashed_passes = ground arith

  read_stable_passes : read_stable (service (tick gap)) (new, n) ≡ true
  unfolding read_stable acquire checkpoint renew release read_checkpoint forget sweep new lookup
      insert erase grant new_row held_by is_kept sweep_rows is listed chain number
  read_stable_passes =
      let f0 : ltb_ℤ (pos (n + gap)) (pos n +ℤ normal_ttl) ≡ true =
        ground (arith, +ℤ_parts (pos n) normal_ttl) in
      let f1 : ltb_ℤ (pos (n + gap) +ℤ release_grace_period) (pos (n + gap + gap)) ≡ true =
        ground (arith, +ℤ_parts (pos (n + gap)) release_grace_period) in
      let f2 : ltb_ℤ (pos (n + gap + gap + gap)) (pos (n + gap + gap) +ℤ normal_ttl) ≡ true =
        ground (arith, +ℤ_parts (pos (n + gap + gap)) normal_ttl) in
      rw f0 (rw f1 (rw f2 (refl)))

  read_never_acquired_passes : read_never_acquired (service (tick gap)) (new, n) ≡ true
  unfolding read_never_acquired acquire checkpoint renew release read_checkpoint forget sweep new
      lookup insert erase grant new_row held_by is_kept sweep_rows is listed chain number ◌+ℤ◌ ◌-ℤ◌
  read_never_acquired_passes = ground arith

  read_forgotten_passes : read_forgotten (service (tick gap)) (new, n) ≡ true
  unfolding read_forgotten acquire checkpoint renew release read_checkpoint forget sweep new lookup
      insert erase grant new_row held_by is_kept sweep_rows is listed chain number ◌+ℤ◌ ◌-ℤ◌
  read_forgotten_passes = ground arith

  read_swept_passes : read_swept (service (tick gap)) (new, n) ≡ true
  unfolding read_swept acquire checkpoint renew release read_checkpoint forget sweep new lookup
      insert erase grant new_row held_by is_kept sweep_rows is listed chain number ◌+ℤ◌ ◌-ℤ◌
  read_swept_passes = ground arith

  read_after_forget_passes : read_after_forget (service (tick gap)) (new, n) ≡ true
  unfolding read_after_forget acquire checkpoint renew release read_checkpoint forget sweep new
      lookup insert erase grant new_row held_by is_kept sweep_rows is listed chain number ◌+ℤ◌ ◌-ℤ◌
  read_after_forget_passes = ground arith

  read_empty_passes : read_empty (service (tick gap)) (new, n) ≡ true
  unfolding read_empty acquire checkpoint renew release read_checkpoint forget sweep new lookup
      insert erase grant new_row held_by is_kept sweep_rows is listed chain number ◌+ℤ◌ ◌-ℤ◌
  read_empty_passes = ground arith

  read_unwritten_passes : read_unwritten (service (tick gap)) (new, n) ≡ true
  unfolding read_unwritten acquire checkpoint renew release read_checkpoint forget sweep new lookup
      insert erase grant new_row held_by is_kept sweep_rows is listed chain number ◌+ℤ◌ ◌-ℤ◌
  read_unwritten_passes = ground arith

  read_stale_passes : read_stale (service (tick gap)) (new, n) ≡ true
  unfolding read_stale acquire checkpoint renew release read_checkpoint forget sweep new lookup
      insert erase grant new_row held_by is_kept sweep_rows is listed chain number ◌+ℤ◌ ◌-ℤ◌
  read_stale_passes = ground arith

  pub read_specs_pass : read_specs (service (tick gap)) (new, n) ≡ true
  unfolding read_specs
  read_specs_pass =
      rw
        (
          read_first_passes, read_crashed_passes, read_stable_passes, read_never_acquired_passes,
          read_forgotten_passes, read_swept_passes, read_after_forget_passes, read_empty_passes,
          read_unwritten_passes, read_stale_passes,
        )
        refl

-- ===== src/Conformance/Memory/Release.antt =====
-- The in-memory backend passes the specs of Conformance/Release.
use worklease.Base.{ℕ, ◌+◌, ◌≤◌, ◌≡◌, refl, true, false, arith}
use worklease.Base.Int.{ltb_ℤ, pos, ◌+ℤ◌, ◌-ℤ◌, +ℤ_parts}
use worklease.Base.Dict.{lookup, insert, erase}
use worklease.Errors.{is, listed, chain, number}
use worklease.Memory.{
  new, acquire, checkpoint, renew, release, read_checkpoint, forget, sweep, grant, new_row, held_by,
  is_kept, sweep_rows, release_grace_period,
}
use worklease.Memory.Service.{service}
use worklease.Conformance.Memory.Clock.{tick}
use worklease.Conformance.Expect.{normal_ttl, expired_ttl}
use worklease.Conformance.Release.{
  release_records, release_frees_at_once, release_stale, release_expired_finished,
  release_expired_abandoned, release_expired_retired, release_superseded, release_invalid,
  release_twice, release_specs,
}

module _ (n gap : ℕ) (apart : 2 ≤ gap) (close : gap ≤ 1_000_000_000) where
  release_records_passes : release_records (service (tick gap)) (new, n) ≡ true
  unfolding release_records acquire checkpoint renew release read_checkpoint forget sweep new lookup
      insert erase grant new_row held_by is_kept sweep_rows is listed chain number
  release_records_passes =
      let f0 : ltb_ℤ (pos (n + gap)) (pos n +ℤ normal_ttl) ≡ true =
        ground (arith, +ℤ_parts (pos n) normal_ttl) in
      let f1 : ltb_ℤ (pos (n + gap) +ℤ release_grace_period) (pos (n + gap + gap)) ≡ true =
        ground (arith, +ℤ_parts (pos (n + gap)) release_grace_period) in
      rw f0 (rw f1 (refl))

  release_frees_at_once_passes : release_frees_at_once (service (tick gap)) (new, n) ≡ true
  unfolding release_frees_at_once acquire checkpoint renew release read_checkpoint forget sweep new
      lookup insert erase grant new_row held_by is_kept sweep_rows is listed chain number ◌+ℤ◌ ◌-ℤ◌
  release_frees_at_once_passes = ground arith

  release_stale_passes : release_stale (service (tick gap)) (new, n) ≡ true
  unfolding release_stale acquire checkpoint renew release read_checkpoint forget sweep new lookup
      insert erase grant new_row held_by is_kept sweep_rows is listed chain number ◌+ℤ◌ ◌-ℤ◌
  release_stale_passes = ground arith

  release_expired_finished_passes : release_expired_finished (service (tick gap)) (new, n) ≡ true
  unfolding release_expired_finished acquire checkpoint renew release read_checkpoint forget sweep
      new lookup insert erase grant new_row held_by is_kept sweep_rows is listed chain number
  release_expired_finished_passes =
      let f0 : ltb_ℤ (pos (n + gap)) (pos n +ℤ expired_ttl) ≡ false =
        ground (arith, +ℤ_parts (pos n) expired_ttl) in
      let f1 : ltb_ℤ (pos n +ℤ expired_ttl) (pos (n + gap + gap)) ≡ true =
        ground (arith, +ℤ_parts (pos n) expired_ttl) in
      rw f0 (rw f1 (refl))

  release_expired_abandoned_passes : release_expired_abandoned (service (tick gap)) (new, n) ≡ true
  unfolding release_expired_abandoned acquire checkpoint renew release read_checkpoint forget sweep
      new lookup insert erase grant new_row held_by is_kept sweep_rows is listed chain number
  release_expired_abandoned_passes =
      let f0 : ltb_ℤ (pos (n + gap)) (pos n +ℤ expired_ttl) ≡ false =
        ground (arith, +ℤ_parts (pos n) expired_ttl) in
      let f1 : ltb_ℤ (pos n +ℤ expired_ttl) (pos (n + gap + gap)) ≡ true =
        ground (arith, +ℤ_parts (pos n) expired_ttl) in
      rw f0 (rw f1 (refl))

  release_expired_retired_passes : release_expired_retired (service (tick gap)) (new, n) ≡ true
  unfolding release_expired_retired acquire checkpoint renew release read_checkpoint forget sweep
      new lookup insert erase grant new_row held_by is_kept sweep_rows is listed chain number
  release_expired_retired_passes =
      let f0 : ltb_ℤ (pos (n + gap)) (pos n +ℤ expired_ttl) ≡ false =
        ground (arith, +ℤ_parts (pos n) expired_ttl) in
      let f1 : ltb_ℤ (pos n +ℤ expired_ttl) (pos (n + gap + gap)) ≡ true =
        ground (arith, +ℤ_parts (pos n) expired_ttl) in
      rw f0 (rw f1 (refl))

  release_superseded_passes : release_superseded (service (tick gap)) (new, n) ≡ true
  unfolding release_superseded acquire checkpoint renew release read_checkpoint forget sweep new
      lookup insert erase grant new_row held_by is_kept sweep_rows is listed chain number ◌+ℤ◌ ◌-ℤ◌
  release_superseded_passes = ground arith

  release_invalid_passes : release_invalid (service (tick gap)) (new, n) ≡ true
  unfolding release_invalid acquire checkpoint renew release read_checkpoint forget sweep new lookup
      insert erase grant new_row held_by is_kept sweep_rows is listed chain number ◌+ℤ◌ ◌-ℤ◌
  release_invalid_passes = ground arith

  release_twice_passes : release_twice (service (tick gap)) (new, n) ≡ true
  unfolding release_twice acquire checkpoint renew release read_checkpoint forget sweep new lookup
      insert erase grant new_row held_by is_kept sweep_rows is listed chain number ◌+ℤ◌ ◌-ℤ◌
  release_twice_passes = ground arith

  pub release_specs_pass : release_specs (service (tick gap)) (new, n) ≡ true
  unfolding release_specs
  release_specs_pass =
      rw
        (
          release_records_passes, release_frees_at_once_passes, release_stale_passes,
          release_expired_finished_passes, release_expired_abandoned_passes,
          release_expired_retired_passes, release_superseded_passes, release_invalid_passes,
          release_twice_passes,
        )
        refl

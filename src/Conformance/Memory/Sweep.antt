-- ===== src/Conformance/Memory/Sweep.antt =====
-- The in-memory backend passes the specs of Conformance/Sweep.
use worklease.Base.{ℕ, ◌+◌, ◌≤◌, ◌≡◌, refl, true, false, arith}
use worklease.Base.Int.{ltb_ℤ, leb_ℤ, pos, ◌+ℤ◌, ◌-ℤ◌, +ℤ_parts, -ℤ_parts}
use worklease.Base.Dict.{lookup, insert, erase}
use worklease.Errors.{is, listed, chain, number}
use worklease.Memory.{
  new, acquire, checkpoint, renew, release, read_checkpoint, forget, sweep, grant, new_row, held_by,
  is_kept, sweep_rows, release_grace_period,
}
use worklease.Memory.Service.{service}
use worklease.Conformance.Memory.Clock.{tick}
use worklease.Conformance.Expect.{normal_ttl}
use worklease.Conformance.Sweep.{
  sweep_retired, sweep_keeps_finished, sweep_expired, sweep_keeps_young, sweep_keeps_held,
  sweep_specs,
}

module _ (n gap : ℕ) (apart : 2 ≤ gap) (close : gap ≤ 1_000_000_000) where
  sweep_retired_passes : sweep_retired (service (tick gap)) (new, n) ≡ true
  unfolding sweep_retired acquire checkpoint renew release read_checkpoint forget sweep new lookup
      insert erase grant new_row held_by is_kept sweep_rows is listed chain number ◌+ℤ◌ ◌-ℤ◌
  sweep_retired_passes = ground arith

  sweep_keeps_finished_passes : sweep_keeps_finished (service (tick gap)) (new, n) ≡ true
  unfolding sweep_keeps_finished acquire checkpoint renew release read_checkpoint forget sweep new
      lookup insert erase grant new_row held_by is_kept sweep_rows is listed chain number
  sweep_keeps_finished_passes =
      let f0 : ltb_ℤ (pos (n + gap)) (pos n +ℤ normal_ttl) ≡ true =
        ground (arith, +ℤ_parts (pos n) normal_ttl) in
      let f1 : ltb_ℤ (pos (n + gap + gap + gap)) (pos (n + gap + gap) +ℤ normal_ttl) ≡ true =
        ground (arith, +ℤ_parts (pos (n + gap + gap)) normal_ttl) in
      let f2 : leb_ℤ (pos (n + gap + gap + gap + gap) -ℤ pos (n + gap)) (pos 1) ≡ false =
        ground (arith, -ℤ_parts (pos (n + gap + gap + gap + gap)) (pos (n + gap))) in
      let f3 : ltb_ℤ (pos (n + gap) +ℤ release_grace_period) (pos (n + gap + gap + gap + gap))
          ≡ true =
        ground (arith, +ℤ_parts (pos (n + gap)) release_grace_period) in
      let f4 : leb_ℤ (pos (n + gap + gap + gap + gap) -ℤ pos (n + gap + gap + gap)) (pos 1)
          ≡ false =
        ground (arith, -ℤ_parts (pos (n + gap + gap + gap + gap)) (pos (n + gap + gap + gap))) in
      let f5 : ltb_ℤ (pos (n + gap + gap + gap) +ℤ release_grace_period)
            (pos (n + gap + gap + gap + gap))
          ≡ true =
        ground (arith, +ℤ_parts (pos (n + gap + gap + gap)) release_grace_period) in
      rw f0 (rw f1 (rw f2 (rw f3 (rw f4 (rw f5 (refl))))))

  sweep_expired_passes : sweep_expired (service (tick gap)) (new, n) ≡ true
  unfolding sweep_expired acquire checkpoint renew release read_checkpoint forget sweep new lookup
      insert erase grant new_row held_by is_kept sweep_rows is listed chain number ◌+ℤ◌ ◌-ℤ◌
  sweep_expired_passes = ground arith

  sweep_keeps_young_passes : sweep_keeps_young (service (tick gap)) (new, n) ≡ true
  unfolding sweep_keeps_young acquire checkpoint renew release read_checkpoint forget sweep new
      lookup insert erase grant new_row held_by is_kept sweep_rows is listed chain number
  sweep_keeps_young_passes =
      let f0 : ltb_ℤ (pos (n + gap)) (pos n +ℤ normal_ttl) ≡ true =
        ground (arith, +ℤ_parts (pos n) normal_ttl) in
      let f1 : leb_ℤ (pos (n + gap + gap) -ℤ pos (n + gap)) (pos 3_600_000_000_000) ≡ true =
        ground (arith, -ℤ_parts (pos (n + gap + gap)) (pos (n + gap))) in
      let f2 : ltb_ℤ (pos (n + gap) +ℤ release_grace_period) (pos (n + gap + gap + gap)) ≡ true =
        ground (arith, +ℤ_parts (pos (n + gap)) release_grace_period) in
      rw f0 (rw f1 (rw f2 (refl)))

  sweep_keeps_held_passes : sweep_keeps_held (service (tick gap)) (new, n) ≡ true
  unfolding sweep_keeps_held acquire checkpoint renew release read_checkpoint forget sweep new
      lookup insert erase grant new_row held_by is_kept sweep_rows is listed chain number ◌+ℤ◌ ◌-ℤ◌
  sweep_keeps_held_passes = ground arith

  pub sweep_specs_pass : sweep_specs (service (tick gap)) (new, n) ≡ true
  unfolding sweep_specs
  sweep_specs_pass =
      rw
        (
          sweep_retired_passes, sweep_keeps_finished_passes, sweep_expired_passes,
          sweep_keeps_young_passes, sweep_keeps_held_passes,
        )
        refl

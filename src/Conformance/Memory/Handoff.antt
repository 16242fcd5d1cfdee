-- ===== src/Conformance/Memory/Handoff.antt =====
-- The in-memory backend passes the specs of Conformance/Handoff.
use worklease.Base.{ℕ, ◌+◌, ◌≤◌, ◌≡◌, refl, true, false, arith}
use worklease.Base.Int.{ltb_ℤ, leb_ℤ, pos, ◌+ℤ◌, ◌-ℤ◌, +ℤ_parts, -ℤ_parts}
use worklease.Base.Dict.{lookup, insert, erase}
use worklease.Errors.{is, listed, chain, number}
use worklease.Memory.{
  new, acquire, checkpoint, renew, release, read_checkpoint, forget, sweep, grant, new_row, held_by,
  is_kept, sweep_rows, release_grace_period,
}
use worklease.Memory.Service.{service}
use worklease.Conformance.Memory.Clock.{tick}
use worklease.Conformance.Expect.{normal_ttl, expired_ttl}
use worklease.Conformance.Handoff.{
  release_then_crash, reproduction_74, crash_then_release, release_then_release, handoff_specs,
}

module _ (n gap : ℕ) (apart : 2 ≤ gap) (close : gap ≤ 1_000_000_000) where
  release_then_crash_passes : release_then_crash (service (tick gap)) (new, n) ≡ true
  unfolding release_then_crash acquire checkpoint renew release read_checkpoint forget sweep new
      lookup insert erase grant new_row held_by is_kept sweep_rows is listed chain number
  release_then_crash_passes =
      let f0 : ltb_ℤ (pos (n + gap + gap)) (pos (n + gap) +ℤ normal_ttl) ≡ true =
        ground (arith, +ℤ_parts (pos (n + gap)) normal_ttl) in
      let f1 : ltb_ℤ (pos (n + gap + gap) +ℤ release_grace_period) (pos (n + gap + gap + gap))
          ≡ true =
        ground (arith, +ℤ_parts (pos (n + gap + gap)) release_grace_period) in
      let f2 : leb_ℤ (pos (n + gap + gap + gap + gap) -ℤ pos (n + gap + gap + gap)) (pos 1)
          ≡ false =
        ground (arith, -ℤ_parts (pos (n + gap + gap + gap + gap)) (pos (n + gap + gap + gap))) in
      let f3 : ltb_ℤ (pos (n + gap + gap + gap) +ℤ expired_ttl) (pos (n + gap + gap + gap + gap))
          ≡ true =
        ground (arith, +ℤ_parts (pos (n + gap + gap + gap)) expired_ttl) in
      let f4 : ltb_ℤ (pos (n + gap + gap + gap) +ℤ expired_ttl)
            (pos (n + gap + gap + gap + gap + gap))
          ≡ true =
        ground (arith, +ℤ_parts (pos (n + gap + gap + gap)) expired_ttl) in
      rw f0 (rw f1 (rw f2 (rw f3 (rw f4 (refl)))))

  reproduction_74_passes : reproduction_74 (service (tick gap)) (new, n) ≡ true
  unfolding reproduction_74 acquire checkpoint renew release read_checkpoint forget sweep new lookup
      insert erase grant new_row held_by is_kept sweep_rows is listed chain number ◌+ℤ◌ ◌-ℤ◌
  reproduction_74_passes = ground arith

  crash_then_release_passes : crash_then_release (service (tick gap)) (new, n) ≡ true
  unfolding crash_then_release acquire checkpoint renew release read_checkpoint forget sweep new
      lookup insert erase grant new_row held_by is_kept sweep_rows is listed chain number
  crash_then_release_passes =
      let f0 : ltb_ℤ (pos n +ℤ expired_ttl) (pos (n + gap)) ≡ true =
        ground (arith, +ℤ_parts (pos n) expired_ttl) in
      let f1 : ltb_ℤ (pos (n + gap + gap)) (pos (n + gap) +ℤ normal_ttl) ≡ true =
        ground (arith, +ℤ_parts (pos (n + gap)) normal_ttl) in
      let f2 : leb_ℤ (pos (n + gap + gap + gap) -ℤ pos (n + gap + gap)) (pos 1) ≡ false =
        ground (arith, -ℤ_parts (pos (n + gap + gap + gap)) (pos (n + gap + gap))) in
      let f3 : ltb_ℤ (pos (n + gap + gap) +ℤ release_grace_period) (pos (n + gap + gap + gap))
          ≡ true =
        ground (arith, +ℤ_parts (pos (n + gap + gap)) release_grace_period) in
      let f4 : ltb_ℤ (pos (n + gap + gap) +ℤ release_grace_period) (pos (n + gap + gap + gap + gap))
          ≡ true =
        ground (arith, +ℤ_parts (pos (n + gap + gap)) release_grace_period) in
      rw f0 (rw f1 (rw f2 (rw f3 (rw f4 (refl)))))

  release_then_release_passes : release_then_release (service (tick gap)) (new, n) ≡ true
  unfolding release_then_release acquire checkpoint renew release read_checkpoint forget sweep new
      lookup insert erase grant new_row held_by is_kept sweep_rows is listed chain number
  release_then_release_passes =
      let f0 : ltb_ℤ (pos (n + gap)) (pos n +ℤ normal_ttl) ≡ true =
        ground (arith, +ℤ_parts (pos n) normal_ttl) in
      let f1 : ltb_ℤ (pos (n + gap) +ℤ release_grace_period) (pos (n + gap + gap)) ≡ true =
        ground (arith, +ℤ_parts (pos (n + gap)) release_grace_period) in
      let f2 : ltb_ℤ (pos (n + gap + gap + gap)) (pos (n + gap + gap) +ℤ normal_ttl) ≡ true =
        ground (arith, +ℤ_parts (pos (n + gap + gap)) normal_ttl) in
      let f3 : leb_ℤ (pos (n + gap + gap + gap + gap) -ℤ pos (n + gap + gap + gap)) (pos 1)
          ≡ false =
        ground (arith, -ℤ_parts (pos (n + gap + gap + gap + gap)) (pos (n + gap + gap + gap))) in
      let f4 : ltb_ℤ (pos (n + gap + gap + gap) +ℤ release_grace_period)
            (pos (n + gap + gap + gap + gap))
          ≡ true =
        ground (arith, +ℤ_parts (pos (n + gap + gap + gap)) release_grace_period) in
      let f5 : ltb_ℤ (pos (n + gap + gap + gap) +ℤ release_grace_period)
            (pos (n + gap + gap + gap + gap + gap))
          ≡ true =
        ground (arith, +ℤ_parts (pos (n + gap + gap + gap)) release_grace_period) in
      rw f0 (rw f1 (rw f2 (rw f3 (rw f4 (rw f5 (refl))))))

  pub handoff_specs_pass : handoff_specs (service (tick gap)) (new, n) ≡ true
  unfolding handoff_specs
  handoff_specs_pass =
      rw
        (
          release_then_crash_passes, reproduction_74_passes, crash_then_release_passes,
          release_then_release_passes,
        )
        refl

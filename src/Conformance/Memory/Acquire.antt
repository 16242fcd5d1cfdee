-- ===== src/Conformance/Memory/Acquire.antt =====
-- The in-memory backend passes the specs of Conformance/Acquire.
use worklease.Base.{ℕ, ◌+◌, ◌≤◌, ◌≡◌, refl, true, arith}
use worklease.Base.Int.{ltb_ℤ, pos, ◌+ℤ◌, ◌-ℤ◌, +ℤ_parts}
use worklease.Base.Dict.{lookup, insert, erase}
use worklease.Errors.{is, listed, chain, number}
use worklease.Memory.{
  new, acquire, checkpoint, renew, release, read_checkpoint, forget, sweep, grant, new_row, held_by,
  is_kept, sweep_rows, release_grace_period,
}
use worklease.Memory.Service.{service}
use worklease.Conformance.Memory.Clock.{tick}
use worklease.Conformance.Expect.{normal_ttl}
use worklease.Conformance.Acquire.{
  fresh_acquires, held_refuses, expired_acquires, tokens_increase, expired_keeps_state,
  captures_exit, acquire_specs,
}

module _ (n gap : ℕ) (apart : 2 ≤ gap) (close : gap ≤ 1_000_000_000) where
  fresh_acquires_passes : fresh_acquires (service (tick gap)) (new, n) ≡ true
  unfolding fresh_acquires acquire checkpoint renew release read_checkpoint forget sweep new lookup
      insert erase grant new_row held_by is_kept sweep_rows is listed chain number ◌+ℤ◌ ◌-ℤ◌
  fresh_acquires_passes = ground arith

  held_refuses_passes : held_refuses (service (tick gap)) (new, n) ≡ true
  unfolding held_refuses acquire checkpoint renew release read_checkpoint forget sweep new lookup
      insert erase grant new_row held_by is_kept sweep_rows is listed chain number ◌+ℤ◌ ◌-ℤ◌
  held_refuses_passes = ground arith

  expired_acquires_passes : expired_acquires (service (tick gap)) (new, n) ≡ true
  unfolding expired_acquires acquire checkpoint renew release read_checkpoint forget sweep new
      lookup insert erase grant new_row held_by is_kept sweep_rows is listed chain number ◌+ℤ◌ ◌-ℤ◌
  expired_acquires_passes = ground arith

  tokens_increase_passes : tokens_increase (service (tick gap)) (new, n) ≡ true
  unfolding tokens_increase acquire checkpoint renew release read_checkpoint forget sweep new lookup
      insert erase grant new_row held_by is_kept sweep_rows is listed chain number ◌+ℤ◌ ◌-ℤ◌
  tokens_increase_passes = ground arith

  expired_keeps_state_passes : expired_keeps_state (service (tick gap)) (new, n) ≡ true
  unfolding expired_keeps_state acquire checkpoint renew release read_checkpoint forget sweep new
      lookup insert erase grant new_row held_by is_kept sweep_rows is listed chain number ◌+ℤ◌ ◌-ℤ◌
  expired_keeps_state_passes = ground arith

  captures_exit_passes : captures_exit (service (tick gap)) (new, n) ≡ true
  unfolding captures_exit acquire checkpoint renew release read_checkpoint forget sweep new lookup
      insert erase grant new_row held_by is_kept sweep_rows is listed chain number
  captures_exit_passes =
      let f0 : ltb_ℤ (pos (n + gap)) (pos n +ℤ normal_ttl) ≡ true =
        ground (arith, +ℤ_parts (pos n) normal_ttl) in
      let f1 : ltb_ℤ (pos (n + gap) +ℤ release_grace_period) (pos (n + gap + gap)) ≡ true =
        ground (arith, +ℤ_parts (pos (n + gap)) release_grace_period) in
      rw f0 (rw f1 (refl))

  pub acquire_specs_pass : acquire_specs (service (tick gap)) (new, n) ≡ true
  unfolding acquire_specs
  acquire_specs_pass =
      rw
        (
          fresh_acquires_passes, held_refuses_passes, expired_acquires_passes,
          tokens_increase_passes, expired_keeps_state_passes, captures_exit_passes,
        )
        refl

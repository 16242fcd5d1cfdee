-- ===== src/Memory/Tests.antt =====
-- The theorems on the in-memory backend, applied to a small history: worker "a" holds "job", leaves
-- it, and worker "b" takes it over.
use worklease.Base.{refl, ◌≡◌, ◌⊎◌, ◌↔◌, ◌+◌, inl, inr, none, some, [], ◌∷◌, arith}
use worklease.Base.Int.{pos, ◌≤ℤ◌, ◌<ℤ◌, ◌+ℤ◌, ◌-ℤ◌}
use worklease.Base.Dict.{lookup, insert}
use worklease.Errors.{ok, err, sentinel, lease_expired, lease_held}
use worklease.Backend.{exit_finished, exit_expired}
use worklease.Memory.{
  new, acquire, checkpoint, renew, release, read_checkpoint, sweep, held_by, is_kept,
}
use worklease.Memory.Calls.{acquires, renews, step, run}
use worklease.Memory.Invariant.{IsValid, new-IsValid, IsValid-later}
use worklease.Memory.History.{run-IsValid}
use worklease.Memory.Fencing.{IsFencedOff, acquire_fences_old}
use worklease.Memory.Exclusion.{foreign_call_keeps}
use worklease.Memory.Availability.{Obtains, release_frees, grant_lasts_its_ttl}
use worklease.Memory.Handoff.{release_handoff, crash_handoff, release_is_final}
use worklease.Memory.Sweep.{sweep_deletes, IsDeletable}
use worklease.Memory.Samples.{
  at, lease_a, lease_b, row_a, saved_a, left_a, row_b, only, starts_a, saves_a, leaves_a,
  held-IsValid, others, granted_b, saved-IsValid, left-IsValid, taken_over, all_old, swept_out,
}

run-IsValid_example : IsValid (pos 3) (run new (starts_a ∷ saves_a ∷ leaves_a ∷ []))
unfolding new
run-IsValid_example =
    run-IsValid (pos 0) new (starts_a ∷ saves_a ∷ leaves_a ∷ []) (omega arith) (ground arith)
      (new-IsValid (pos 0))

acquire_fences_old_example :
    IsFencedOff lease_a (run (only row_b 2) (renews none (at 25) lease_b (pos 10) ∷ []))
unfolding acquire lookup insert ◌+ℤ◌
acquire_fences_old_example =
    acquire_fences_old (pos 1) lease_a lease_b (at 20) "b" (pos 10) (only row_a 1) (only row_b 2)
      (renews none (at 25) lease_b (pos 10) ∷ []) held-IsValid (ground arith) (omega arith)
      (ground arith) (omega arith) refl

-- "b" asks for the work ID while the lease of "a" is live.
foreign_call_keeps_example :
    lookup "job" (step (only row_a 1) (acquires none (at 5) "job" "b" (pos 10))).records
    ≡ some row_a
unfolding lookup
foreign_call_keeps_example =
    foreign_call_keeps "job" row_a (pos 1) (only row_a 1) (acquires none (at 5) "job" "b" (pos 10))
      held-IsValid refl (inr (inr (omega arith)))

release_handoff_example :
    read_checkpoint none granted_b (taken_over (only left_a 1))
    ≡ ok (record { state = some (7 ∷ []); prev_exit = exit_finished; prev_holder_id = "a" })
unfolding acquire checkpoint release held_by lookup insert run step ◌+ℤ◌ sweep is_kept ◌-ℤ◌
release_handoff_example =
    release_handoff (pos 3) (at 2) (at 3) (at 20) lease_a granted_b (some (7 ∷ [])) (pos 10)
      (pos 10) exit_finished "b" (only row_a 1) (only saved_a 1) (only left_a 1)
      (taken_over (only left_a 1)) others left_a refl refl refl left-IsValid (ground arith)
      (omega arith) (inr (inl (λ e. cc e)), (inr (λ old. ground arith), tt)) refl

crash_handoff_example :
    read_checkpoint none granted_b (taken_over (only saved_a 1))
    ≡ ok (record { state = some (7 ∷ []); prev_exit = exit_expired; prev_holder_id = "a" })
unfolding acquire checkpoint held_by lookup insert run step ◌+ℤ◌ sweep is_kept ◌-ℤ◌
crash_handoff_example =
    crash_handoff (pos 3) (at 2) (at 20) lease_a granted_b (some (7 ∷ [])) (pos 10) (pos 10) "b"
      (only row_a 1) (only saved_a 1) (taken_over (only saved_a 1)) others saved_a refl refl
      (IsValid-later (pos 2) (pos 3) (only saved_a 1) (omega arith) saved-IsValid) (ground arith)
      (omega arith) (inr (inl (λ e. cc e)), (inr (λ old. ground arith), tt)) refl

release_is_final_example :
    (checkpoint none (at 4) lease_a none (pos 10) (only left_a 1)
      ≡ (some (sentinel lease_expired), only left_a 1))
    × (renew none (at 4) lease_a (pos 10) (only left_a 1)
        ≡ (some (sentinel lease_expired), only left_a 1))
    × (release none (at 4) lease_a 3 (only left_a 1)
        ≡ (some (sentinel lease_expired), only left_a 1))
unfolding release held_by lookup insert ◌+ℤ◌
release_is_final_example =
    release_is_final (at 3) (at 4) lease_a exit_finished 3 none (pos 10) (only saved_a 1)
      (only left_a 1) refl (omega arith) refl

sweep_deletes_example :
    ((lookup "job" swept_out.records ≡ none) ↔ IsDeletable (pos 20) all_old row_a)
    × ((lookup "job" swept_out.records ≡ none) ⊎ (lookup "job" swept_out.records ≡ some row_a))
    × (1 + 0 ≡ 1)
unfolding sweep is_kept lookup ◌-ℤ◌
sweep_deletes_example =
    sweep_deletes (pos 1) (pos 20) all_old (only row_a 1) swept_out 1 "job" row_a held-IsValid refl
      refl

release_frees_example : Obtains (at 3) "job" "b" (pos 10) (only left_a 1)
unfolding release held_by lookup insert ◌+ℤ◌
release_frees_example =
    release_frees (at 3) (at 3) lease_a exit_finished "b" (pos 10) (only saved_a 1) (only left_a 1)
      refl (omega arith)

grant_lasts_its_ttl_example :
    ((pos 20 ≤ℤ pos 11)
      × (acquire none (at 20) "job" "b" (pos 10) (run (only row_a 1) others)
          ≡ (err (sentinel lease_held), run (only row_a 1) others)))
    ⊎ ((pos 11 <ℤ pos 20) × Obtains (at 20) "job" "b" (pos 10) (run (only row_a 1) others))
unfolding acquire new lookup insert ◌+ℤ◌
grant_lasts_its_ttl_example =
    grant_lasts_its_ttl (pos 1) (at 1) (at 20) "job" "a" "b" (pos 10) (pos 10) new (only row_a 1)
      lease_a row_a others refl refl held-IsValid (ground arith) (omega arith)
      (inr (inl (λ e. cc e)), (inr (λ old. ground arith), tt))

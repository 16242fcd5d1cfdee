-- ===== src/Worker/Handoff/Tests.antt =====
-- A run of the work ID "job" by worker "a" on the in-memory backend, and its successor "b".
use worklease.Base.{ℕ, ◌+◌, ◌≡◌, refl, none, some, [], ◌∷◌, inl, inr, arith}
use worklease.Base.Int.{pos, ◌+ℤ◌}
use worklease.Base.Dict.{lookup, insert}
use worklease.Errors.{ok}
use worklease.Backend.{exit_finished, Checkpoint}
use worklease.Memory.{
  new, MemoryBackend, Readings, acquire, checkpoint, release, read_checkpoint, held_by,
}
use worklease.Memory.{sweep, is_kept}
use worklease.Base.Int.{◌-ℤ◌}
use worklease.Memory.Calls.{run as run_calls, step}
use worklease.Memory.Samples.{at, row_a, left_a, only, others, granted_b, taken_over, left-IsValid}
use worklease.Client.Types.{Token, Event, Timing}
use worklease.Lease.{WorkOutcome, returned}
use worklease.Worker.{run}
use worklease.Worker.Handoff.{client_lease, worker_handoff}

abbrev tick : ℕ → Readings × ℕ
tick n = (at n, n + 1)

-- An observer that counts nothing.
abbrev observe : Event → ℕ → ℕ
observe _ n = n

abbrev timing : (MemoryBackend × ℕ) × ℕ → Timing
timing _ = record { start = pos 0; dur = pos 0 }

abbrev token : Token
token = record {
  work_id = "job";
  holder_id = "a";
  fencing_token = 1;
  expires_at = pos 11;
  deadline = pos 10;
}

abbrev fresh : Checkpoint
fresh = record { state = none; prev_exit = 0; prev_holder_id = "" }

abbrev work : Token → Checkpoint → (MemoryBackend × ℕ) × ℕ → WorkOutcome × ((MemoryBackend × ℕ) × ℕ)
work _ _ w = (returned (some (7 ∷ [])) none none, w)

worker_handoff_example :
    read_checkpoint none granted_b (taken_over (only left_a 1))
    ≡ ok (record { state = some (7 ∷ []); prev_exit = exit_finished; prev_holder_id = "a" })
unfolding run client_lease acquire checkpoint release held_by lookup insert run_calls step ◌+ℤ◌ new
    sweep is_kept ◌-ℤ◌ read_checkpoint
worker_handoff_example =
    worker_handoff tick (pos 10) "a" observe timing work (pos 5) "job" token fresh (7 ∷ [])
      ((new, 1), 0) ((only row_a 1, 2), 0) ((only row_a 1, 2), 0) (only row_a 1) (only left_a 1)
      (taken_over (only left_a 1)) 2 4 0 0 (pos 3) others left_a (at 20) "b" (pos 10) granted_b refl
      refl refl refl refl left-IsValid (ground arith) (omega arith)
      (inr (inl (λ e. cc e)), (inr (λ old. ground arith), tt)) refl

-- ===== src/Client/Tests.antt =====
-- The theorems on the lease client, applied to a client on the in-memory backend with a clock that
-- ticks.
use worklease.Base.{ℕ, ◌+◌, ◌≡◌, refl, false, none, some, List, [], ◌∷◌, ◌++◌, arith}
use worklease.Base.Int.{pos, ◌+ℤ◌, ◌≤ℤ◌}
use worklease.Base.Dict.{lookup, insert}
use worklease.Errors.{
  Result, ok, err, error_of, sentinel, is, is_err, canceled, lease_held, listed, chain, number,
}
use worklease.Backend.{LeaseRecord, exit_finished}
use worklease.Memory.{Readings, MemoryBackend, acquire}
use worklease.Memory.Service.{service}
use worklease.Client.Types.{Token, Event, Config, LeaseClient, Timing, on_acquire}
use worklease.Client.Calls.{
  Round, fired, done, wait_loop, new_token, to_record, release, checkpoint, renew, forget, attempt,
}
use worklease.Client.Errors.{Relays, methods_relay_errors}
use worklease.Memory.Calls.{run, renews}
use worklease.Memory.Samples.{at, lease_a, lease_b, only, row_a, row_b, held-IsValid}
use worklease.Client.Fencing.{Stopped, client_learns_fencing}
use worklease.Client.Exclusion.{deadline_excludes}
use worklease.Client.WaitLoop.{wait_loop_ends, wait_loop_not_held}

-- Each operation reads the clock once, and the clock ticks.
abbrev tick : ℕ → Readings × ℕ
tick n = (record { check = pos n; stamp = pos n; update = pos n }, n + 1)

abbrev config : Config (List Event)
config = record { ttl = pos 1_000_000; holder_id = "b"; observer = some (λ e o. o ++ e ∷ []) }

abbrev client : LeaseClient (MemoryBackend × ℕ) (List Event)
client = record {
  backend = service tick;
  ttl = pos 1_000_000;
  holder_id = "b";
  obs = λ e o. o ++ e ∷ [];
}

-- The lease of "a" runs out at 2.
abbrev held : MemoryBackend
held = record {
  records =
      (
        "job",
        record {
          holder_id = "a";
          fencing_token = 1;
          expires_at = pos 2;
          checkpoint = none;
          exit_mode = 0;
          prev_exit = 0;
          prev_holder_id = "";
          updated_at = pos 0;
        },
      )
      ∷ [];
  seq = 1;
}

abbrev begin : (MemoryBackend × ℕ) × List Event
begin = ((held, 2), [])

abbrev timing : ℕ → Timing
timing n = record { start = pos n; dur = pos 0 }

-- The first attempt meets the live lease; the second one gets the work ID.
abbrev rounds : List Round
rounds =
    record { ctx = none; timing = timing 2; wait = fired }
    ∷ record { ctx = none; timing = timing 3; wait = done (sentinel canceled) }
    ∷ []

abbrev lease : LeaseRecord
lease = record { work_id = "job"; holder_id = "b"; fencing_token = 2; expires_at = pos 1_000_003 }

abbrev token : Token
token = new_token lease (pos 1_000_003)

wait_loop_ends_example :
    (result : Result Token) × ((wait_loop client rounds "job" begin).0 ≡ some result)
wait_loop_ends_example = wait_loop_ends client "job" rounds begin refl

wait_loop_not_held_example : is_err (error_of (ok token)) lease_held ≡ false
unfolding wait_loop acquire lookup insert ◌+ℤ◌ is listed chain number
wait_loop_not_held_example =
    wait_loop_not_held client "job" rounds begin (ok token) (tt, (refl, tt)) refl

methods_relay_errors_example :
    Relays
      (client.backend.checkpoint none (to_record token) none client.ttl begin.0).0
      (checkpoint client none (timing 5) token none begin).0
      lease_held
    × Relays
        (client.backend.renew none (to_record token) client.ttl begin.0).0
        (renew client none (timing 5) token begin).0
        lease_held
    × Relays
        (client.backend.release none (to_record token) exit_finished begin.0).0
        (release client none (timing 5) token exit_finished begin).0
        lease_held
    × Relays
        (client.backend.forget none (to_record token) begin.0).0
        (forget client none (timing 5) token begin).0
        lease_held
methods_relay_errors_example =
    methods_relay_errors client none (timing 5) token begin.0 [] lease_held none exit_finished refl

-- Worker "a" comes back after "b" has taken the work ID over and renewed it.
client_learns_fencing_example :
    Stopped tick
      (pos 10)
      "a"
      (λ e o. o ++ e ∷ [])
      (new_token lease_a (pos 11))
      (timing 26)
      (some (8 ∷ []))
      (run (only row_b 2) (renews none (at 25) lease_b (pos 10) ∷ []))
      26
      []
unfolding acquire lookup insert ◌+ℤ◌
client_learns_fencing_example =
    client_learns_fencing tick (pos 10) "a" (λ e o. o ++ e ∷ []) (pos 1)
      (new_token lease_a (pos 11)) lease_b (at 20) "b" (pos 10) (only row_a 1) (only row_b 2)
      (renews none (at 25) lease_b (pos 10) ∷ []) (timing 26) (some (8 ∷ [])) 26 [] held-IsValid
      (ground arith) (omega arith) (ground arith) (omega arith) refl

-- The backend after the second attempt of the rounds, whose clock is at 3 like the local one.
abbrev obtained : MemoryBackend
obtained = (acquire none (at 3) "job" "b" (pos 1_000_000) held).1

deadline_excludes_example :
    (token.deadline +ℤ pos 0 ≤ℤ token.expires_at)
    × (acquire none (at 1_000_003) "job" "c" (pos 10) obtained
        ≡ (err (sentinel lease_held), obtained))
unfolding attempt acquire lookup insert ◌+ℤ◌
deadline_excludes_example =
    deadline_excludes tick (pos 1_000_000) "b" (λ e o. o ++ e ∷ []) none (timing 3) "job" held 3 []
      lease token obtained 4 (on_acquire "job" token (pos 0) none ∷ []) (pos 0) (at 1_000_003) "c"
      (pos 10) refl (omega arith) (omega arith)

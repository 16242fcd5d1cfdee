-- ===== src/Postgres/Tests.antt =====
-- The theorems on the PostgreSQL backend, applied to a small history: worker "a" lets its lease of
-- "job" lapse, and worker "b" takes it over while "a" renews.
use worklease.Base.{ℕ, ◌≡◌, refl, none, some, [], ◌∷◌, arith}
use worklease.Base.Dict.{lookup, insert}
use worklease.Errors.{ok, sentinel}
use worklease.Backend.{Duration, LeaseRecord}
use worklease.Postgres.Table.{PgRow, Database, exit_mode_check, prev_exit_mode_check}
use worklease.Postgres.Queries.{query_renew_check, query_acquire}
use worklease.Base.Int.{pos, ◌+ℤ◌, ◌≤ℤ◌, ◌<ℤ◌, +ℤ_parts}
use worklease.Errors.{fenced, is, listed, chain, number, lease_expired}
use worklease.Contract.{checkpoints, renews}
use worklease.Postgres.Session.{Turn, answered}
use worklease.Postgres.{acquire, renew}
use worklease.Postgres.View.{IsStored, IsTurn}
use worklease.Postgres.Invariant.{run_statements-IsStored}
use worklease.Postgres.Queries.{Statement, acquire_sent, renew_sent, forget_sent, run_statements}
use worklease.Postgres.Session.{classify}
use worklease.Postgres.Interval.{format_interval, format_interval_rounds_up}
use worklease.Postgres.Refinement.{TakesEffect}
use worklease.Contract.Fencing.{IsRefusal}
use worklease.Postgres.Answers.{answer, postgres_refines}
use worklease.Postgres.Interval.{format_interval_rounds_up}
use worklease.Postgres.Context.{Relays, postgres_tells_context}
use worklease.Postgres.Session.{reply_lost}
use worklease.Errors.{canceled, plain}
use worklease.Postgres.Invariant.{insert-IsStored}
use worklease.Postgres.Fencing.{postgres_fences, ChangesNothing}

abbrev empty : Database
empty = record { worklease_leases = []; worklease_fencing_seq = 0 }

abbrev row_a : PgRow
row_a = record {
  holder_id = "a";
  fencing_token = 1;
  expires_at = pos 11_000;
  checkpoint = some (7 ∷ []);
  exit_mode = none;
  prev_exit_mode = "none";
  prev_holder_id = none;
  acquired_at = pos 1_000;
  updated_at = pos 2_000;
}

abbrev lapsed : Database
lapsed = record { worklease_leases = ("job", row_a) ∷ []; worklease_fencing_seq = 1 }

abbrev lease_a : LeaseRecord
lease_a = record { work_id = "job"; holder_id = "a"; fencing_token = 1; expires_at = pos 11_000 }

abbrev turn_at : ℕ → Turn
turn_at n = record { now = pos n; fate = answered; ctx = none }

turn_at-IsTurn : (n : ℕ) → IsTurn (turn_at n)
turn_at-IsTurn n = record { fate = tt; ctx = tt }

empty-IsStored : IsStored empty
unfolding lookup
empty-IsStored = record { checks = λ k r e. cc; drawn = λ k r e. cc; unique = tt }

lapsed-IsStored : IsStored lapsed
unfolding insert exit_mode_check prev_exit_mode_check
lapsed-IsStored =
    insert-IsStored empty "job" row_a 1 empty-IsStored refl (omega arith) (omega arith)

exact : (d : Duration) → (d ≤ℤ d +ℤ pos 2000) × (d ≤ℤ d +ℤ pos 2000)
exact d = omega (arith, +ℤ_parts d (pos 2000))

-- "b" takes the work ID over with the token 3: the draw of VALUES is the token 2.
abbrev takes_over : Statement
takes_over = acquire_sent (pos 20_000) "job" "b" (pos 10_000)

-- "a" renews at 15: its UPDATE finds the lease lapsed, and its SELECT finds it taken over.
renews_lapsed :
    (renew (turn_at 15_000) [] (turn_at 16_000) lease_a (pos 10_000) lapsed).0
    ≡ some (sentinel lease_expired)
unfolding renew run_statements lookup classify query_renew_check
renews_lapsed = refl

renews_taken :
    (renew (turn_at 15_000) (takes_over ∷ []) (turn_at 21_000) lease_a (pos 10_000) lapsed).0
    ≡ some (sentinel fenced)
unfolding renew run_statements lookup classify query_renew_check insert is listed chain number
renews_taken = refl

run_statements-IsStored_example :
    IsStored (run_statements (takes_over ∷ forget_sent lease_a ∷ []) lapsed)
run_statements-IsStored_example =
    run_statements-IsStored (takes_over ∷ forget_sent lease_a ∷ []) lapsed lapsed-IsStored

format_interval_rounds_up_example : (pos 1_500 ≤ℤ pos 2_000) × (pos 2_000 <ℤ pos 1_500 +ℤ pos 1_000)
unfolding format_interval
format_interval_rounds_up_example = format_interval_rounds_up (pos 1_500)

postgres_refines_example :
    TakesEffect
      (turn_at 15_000)
      (turn_at 21_000)
      (takes_over ∷ [])
      lapsed
      (renews lease_a (pos 10_000))
      (answer
        (λ d. d)
        (turn_at 15_000)
        (takes_over ∷ [])
        (turn_at 21_000)
        (renews lease_a (pos 10_000))
        lapsed)
postgres_refines_example =
    postgres_refines (λ d. d) (turn_at 15_000) (turn_at 21_000) (takes_over ∷ [])
      (renews lease_a (pos 10_000)) lapsed exact (turn_at-IsTurn 15_000) (turn_at-IsTurn 21_000)
      lapsed-IsStored (omega arith)

abbrev lease_b : LeaseRecord
lease_b = record { work_id = "job"; holder_id = "b"; fencing_token = 3; expires_at = pos 30_000 }

-- After the take-over, and a Renew of "b" in between, "a" saves a state.
abbrev taken : Database
taken = (acquire (turn_at 20_000) "job" "b" (pos 10_000) lapsed).1

abbrev renewed_b : Statement
renewed_b = renew_sent (pos 25_000) (pos 10_000) lease_b

granted_b : acquire (turn_at 20_000) "job" "b" (pos 10_000) lapsed ≡ (ok lease_b, taken)
unfolding acquire query_acquire lookup ◌+ℤ◌
granted_b = refl

postgres_fences_example :
    let u = run_statements (renewed_b ∷ []) taken in
    let z =
      answer
        (λ d. d)
        (turn_at 26_000)
        (renewed_b ∷ [])
        (turn_at 27_000)
        (checkpoints lease_a (some (9 ∷ [])) (pos 10_000))
        u in
    IsRefusal z.0 × ChangesNothing (renewed_b ∷ []) u z.1
postgres_fences_example =
    postgres_fences (λ d. d) lease_a lease_b "b" (pos 10_000) (turn_at 20_000) (turn_at 26_000)
      (turn_at 27_000) (renewed_b ∷ []) (renewed_b ∷ [])
      (checkpoints lease_a (some (9 ∷ [])) (pos 10_000)) lapsed taken exact (turn_at-IsTurn 20_000)
      (turn_at-IsTurn 26_000) (turn_at-IsTurn 27_000) lapsed-IsStored (omega arith) granted_b refl

-- ctx is cancelled while "a" renews, and the UPDATE's answer is lost.
abbrev cancelled : Turn
cancelled = record {
  now = pos 5_000;
  fate = reply_lost (plain "pq: canceling statement due to user request");
  ctx = some (sentinel canceled);
}

postgres_tells_context_example :
    Relays canceled (answer (λ d. d) cancelled [] cancelled (renews lease_a (pos 10_000)) lapsed).0
postgres_tells_context_example =
    postgres_tells_context canceled (λ d. d) cancelled cancelled [] (renews lease_a (pos 10_000))
      lapsed refl refl

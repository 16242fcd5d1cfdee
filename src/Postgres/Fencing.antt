-- ===== src/Postgres/Fencing.antt =====
-- Fencing of the PostgreSQL backend, from the contract.
use worklease.Base.{ℕ, ◌≤◌, ◌≡◌, ◌⊎◌, inl, inr, String, List, arith, ap, subst}
use worklease.Errors.{ok}
use worklease.Backend.{Duration, LeaseRecord}
use worklease.Postgres.Table.{Database}
use worklease.Postgres.Queries.{query_acquire}
use worklease.Postgres.View.{view}
use worklease.Base.Int.{pos, ◌+ℤ◌, ◌≤ℤ◌}
use worklease.Contract.{
  Leases, Setting, Unchanged, Reach, here, Request, acquires, checkpoints, renews, releases,
  forgets, sweeps, reads, Reply, granted, Step,
}
use worklease.Postgres.Session.{Turn, answered}
use worklease.Postgres.{acquire}
use worklease.Postgres.Steps.{lease_reply}
use worklease.Contract.History.{Reach-KeepsOld, Step-KeepsOld}
use worklease.Postgres.View.{IsStored, IsTurn, at, unchanged}
use worklease.Postgres.Invariant.{run_statements-IsStored}
use worklease.Postgres.Queries.{Statement, acquire_sent, run_statement, run_statements}
use worklease.Postgres.History.{run_statements-Reach}
use worklease.Postgres.Session.{Fate, not_run, reply_lost, uncounted, query_row}
use worklease.Postgres.Interval.{interval}
use worklease.Postgres.Refinement.{TakesEffect, at_once}
use worklease.Contract.Fencing.{Uses, IsRefusal, contract_fences}
use worklease.Postgres.Invariant.{statement-IsStored}
use worklease.Postgres.Answers.{answer, token_of, postgres_refines}
use worklease.Postgres.Methods.{acquire-Step}
use worklease.Postgres.Refinement.{before_others, at_check}

acquire-IsStored :
    (t : Turn) (w h : String) (ttl : Duration) (db : Database)
    → IsStored db
    → IsStored (acquire t w h ttl db).1
unfolding acquire query_row run_statement
acquire-IsStored t w h ttl db v = at_fate t.fate
  where
    at_fate : (f : Fate) → IsStored (query_row f (query_acquire t.now w h (interval ttl)) db).1
    at_fate answered = statement-IsStored (acquire_sent t.now w h (interval ttl)) db v
    at_fate (not_run e) = v
    at_fate (reply_lost e) = statement-IsStored (acquire_sent t.now w h (interval ttl)) db v
    at_fate (uncounted e) = statement-IsStored (acquire_sent t.now w h (interval ttl)) db v

-- The call changes no lease: what changes is the other sessions' doing.
abbrev pub ChangesNothing : List Statement → Database → Database → Type 0
ChangesNothing between db db' =
    Unchanged (view db) (view db')
    ⊎ ((d : Database) × (Unchanged (view db) (view d) × (db' ≡ run_statements between d)))

Uses-token :
    (old : LeaseRecord) (q : Request) (n : ℕ) → Uses old q → old.fencing_token ≤ n → token_of q ≤ n
Uses-token old (acquires w h ttl) n u le = absurd u
Uses-token old (checkpoints rec state ttl) n u le = rw u le
Uses-token old (renews rec ttl) n u le = rw u le
Uses-token old (releases rec mode) n u le = rw u le
Uses-token old (reads rec) n u le = omega arith
Uses-token old (forgets rec) n u le = omega arith
Uses-token old (sweeps opts) n u le = absurd u

-- Once a successor has acquired the work ID, then after any statements of any sessions, every call
-- with the record of the lease before is refused, and the call changes no lease, with whatever
-- statements of other sessions between its own two. (The record's token was drawn before the
-- successor's; errors and the printed retention are as in the refinement.)
pub postgres_fences :
    (seconds : Duration → Duration) (old rec : LeaseRecord) (holder_id : String) (ttl : Duration)
    (t₀ t t' : Turn) (cs between : List Statement) (q : Request) (db db₁ : Database)
    → ((d : Duration) → (seconds d ≤ℤ d +ℤ pos 2000) × (d ≤ℤ seconds d +ℤ pos 2000))
    → IsTurn t₀
    → IsTurn t
    → IsTurn t'
    → IsStored db
    → old.fencing_token ≤ db.worklease_fencing_seq
    → acquire t₀ old.work_id holder_id ttl db ≡ (ok rec, db₁)
    → Uses old q
    → let u = run_statements cs db₁ in
      let z = answer seconds t between t' q u in IsRefusal z.0 × ChangesNothing between u z.1
postgres_fences seconds old rec holder_id ttl t₀ t t' cs between q db db₁ near turn₀ turn turn' v
      drawn e uses =
    refuses (
      postgres_refines seconds t t' between q u near turn turn' stored_u (
        Uses-token old q _ uses
          (omega (arith, (Step-KeepsOld grant).grows, (Reach-KeepsOld reach).grows))))
  where
    u : Database
    u = run_statements cs db₁

    stored₁ : IsStored db₁
    stored₁ = rw (← ap (λ z. z.1) e) (acquire-IsStored t₀ old.work_id holder_id ttl db v)

    stored_u : IsStored u
    stored_u = run_statements-IsStored cs db₁ stored₁

    grant :
        Step
          (at t₀.now t₀.ctx)
          (view db)
          (view db₁)
          (acquires old.work_id holder_id ttl)
          (granted rec)
    grant =
        subst
          (λ z.
            Step (at t₀.now t₀.ctx) (view db) (view z.1) (acquires old.work_id holder_id ttl)
              (lease_reply z.0))
          e (acquire-Step t₀ turn₀ db v old.work_id holder_id ttl)

    reach : Reach (view db₁) (view u)
    reach = run_statements-Reach cs db₁ stored₁ here

    told :
        (now : Setting) (s s' : Leases) (reply : Reply)
        → Reach (view db₁) s
        → Step now s s' q reply
        → IsRefusal reply × Unchanged s s'
    told now s s' reply before st =
        contract_fences old holder_id ttl rec (at t₀.now t₀.ctx) now (view db) (view db₁) s s' q
          reply drawn grant before uses st

    reach_check : Reach (view db₁) (view (run_statements between u))
    reach_check = run_statements-Reach between u stored_u reach

    refuses :
        {z : Reply × Database}
        → TakesEffect t t' between u q z
        → IsRefusal z.0 × ChangesNothing between u z.1
    refuses {z} (at_once st) =
        let (r, same) = told (at t.now t.ctx) (view u) (view z.1) z.0 reach st in (r, inl same)
    refuses {z} (before_others d st e') =
        let (r, same) = told (at t.now t.ctx) (view u) (view d) z.0 reach st in
        (r, inr (d, (same, e')))
    refuses {z} (at_check e' st) =
        let (r, same) = told (at t'.now t'.ctx) (view z.1) (view z.1) z.0 (rw e' reach_check) st in
        (r, inr (u, (unchanged u, e')))

-- ===== src/Postgres/Answers.antt =====
-- Each method of the PostgreSQL backend, as the contract of backend.Backend sees it.
use worklease.Base.{ℕ, ◌≤◌, refl, inl, inr, Bool-cases, Option, List}
use worklease.Backend.{Duration, ExitMode, declarable, LeaseRecord}
use worklease.Postgres.Table.{Database}
use worklease.Postgres.Queries.{
  query_holder_check, query_renew_check, query_checkpoint, query_renew, query_release,
}
use worklease.Base.Int.{pos, ◌+ℤ◌, ◌≤ℤ◌}
use worklease.Errors.{GoError}
use worklease.Backend.{Bytes}
use worklease.Contract.{
  exits_wrongly, Request, acquires, checkpoints, renews, releases, forgets, sweeps, reads, Reply,
}
use worklease.Postgres.Session.{Turn}
use worklease.Postgres.{
  state_arg, acquire, checkpoint, renew, release, release_valid, read_checkpoint, forget, sweep,
}
use worklease.Postgres.Steps.{
  lease_reply, reply_of, checkpoint-Decides, renew-Decides, release-Decides,
}
use worklease.Postgres.View.{IsStored, IsTurn, unchanged}
use worklease.Postgres.Queries.{Statement}
use worklease.Postgres.Interval.{interval}
use worklease.Postgres.Refinement.{TakesEffect, at_once, update-TakesEffect}
use worklease.Postgres.Methods.{
  interval-LastsFor, stored-state_arg, read_reply, swept_reply, acquire-Step, forget-Step,
  sweep-Step, read-Step,
}

-- The method of the backend that a request names.
abbrev pub answer :
    (Duration → Duration) → Turn → List Statement → Turn → Request → Database → Reply × Database
answer seconds t between t' (acquires w h ttl) db =
    let z = acquire t w h ttl db in (lease_reply z.0, z.1)
answer seconds t between t' (checkpoints rec state ttl) db =
    let z = checkpoint t between t' rec state ttl db in (reply_of z.0, z.1)
answer seconds t between t' (renews rec ttl) db =
    let z = renew t between t' rec ttl db in (reply_of z.0, z.1)
answer seconds t between t' (releases rec mode) db =
    let z = release t between t' rec mode db in (reply_of z.0, z.1)
answer seconds t between t' (reads rec) db = (read_reply (read_checkpoint t rec db), db)
answer seconds t between t' (forgets rec) db = let z = forget t rec db in (reply_of z.0, z.1)
answer seconds t between t' (sweeps opts) db =
    let z = sweep seconds t opts db in (swept_reply z.0, z.1)

-- The token of the record that a call writes with.
abbrev pub token_of : Request → ℕ
token_of (checkpoints rec state ttl) = rec.fencing_token
token_of (renews rec ttl) = rec.fencing_token
token_of (releases rec mode) = rec.fencing_token
token_of q = 0

module _ (t t' : Turn) (turn : IsTurn t) (turn' : IsTurn t') (between : List Statement)
    (db : Database) (v : IsStored db) (rec : LeaseRecord)
    (drawn : rec.fencing_token ≤ db.worklease_fencing_seq) where
  abbrev Takes : Request → Option GoError × Database → Type 0
  Takes q z = TakesEffect t t' between db q (reply_of z.0, z.1)

  checkpoint-TakesEffect :
      (state : Option Bytes) (ttl : Duration)
      → Takes (checkpoints rec state ttl) (checkpoint t between t' rec state ttl db)
  unfolding checkpoint query_checkpoint query_holder_check
  checkpoint-TakesEffect state ttl =
      update-TakesEffect _ t t' between db _ rec _ turn turn' v drawn refl _ _ (
        checkpoint-Decides db v t.now t.ctx rec state (state_arg state) ttl (interval ttl)
          (stored-state_arg state) (interval-LastsFor t.now ttl))

  renew-TakesEffect : (ttl : Duration) → Takes (renews rec ttl) (renew t between t' rec ttl db)
  unfolding renew query_renew query_renew_check
  renew-TakesEffect ttl =
      update-TakesEffect _ t t' between db _ rec _ turn turn' v drawn refl _ _
        (renew-Decides db v t.now t.ctx rec ttl (interval ttl) (interval-LastsFor t.now ttl))

  release-TakesEffect :
      (mode : ExitMode) → Takes (releases rec mode) (release t between t' rec mode db)
  unfolding release release_valid query_release query_holder_check
  release-TakesEffect mode = elim (Bool-cases (declarable mode)) [
    | inl d ↦ rw d (
        update-TakesEffect _ t t' between db _ rec _ turn turn' v drawn (refl, d) _ _
          (release-Decides db v t.now t.ctx rec mode d))
    | inr d ↦ rw d (at_once (exits_wrongly rec mode d (unchanged db)))
  ]

-- The PostgreSQL backend keeps the contract of backend.Backend. Whatever becomes of a call's
-- statements, and whatever statements of other sessions come between them, its answer and its
-- change of the leases are those of a step of the contract, from the leases that its first statement
-- finds or at its second one. The conditions: errors come from the driver, the database or the
-- context, the record's token has been drawn, and a retention is rounded by at most two
-- microseconds when it is printed.
pub postgres_refines :
    (seconds : Duration → Duration) (t t' : Turn) (between : List Statement) (q : Request)
    (db : Database)
    → ((d : Duration) → (seconds d ≤ℤ d +ℤ pos 2000) × (d ≤ℤ seconds d +ℤ pos 2000))
    → IsTurn t
    → IsTurn t'
    → IsStored db
    → token_of q ≤ db.worklease_fencing_seq
    → TakesEffect t t' between db q (answer seconds t between t' q db)
postgres_refines seconds t t' between (acquires w h ttl) db near turn turn' v drawn =
    at_once (acquire-Step t turn db v w h ttl)
postgres_refines seconds t t' between (checkpoints rec state ttl) db near turn turn' v drawn =
    checkpoint-TakesEffect t t' turn turn' between db v rec drawn state ttl
postgres_refines seconds t t' between (renews rec ttl) db near turn turn' v drawn =
    renew-TakesEffect t t' turn turn' between db v rec drawn ttl
postgres_refines seconds t t' between (releases rec mode) db near turn turn' v drawn =
    release-TakesEffect t t' turn turn' between db v rec drawn mode
postgres_refines seconds t t' between (reads rec) db near turn turn' v drawn =
    at_once (read-Step t turn db v rec)
postgres_refines seconds t t' between (forgets rec) db near turn turn' v drawn =
    at_once (forget-Step t turn db v rec)
postgres_refines seconds t t' between (sweeps opts) db near turn turn' v drawn =
    at_once (sweep-Step t turn db v seconds opts (near opts.retention).0 (near opts.retention).1)

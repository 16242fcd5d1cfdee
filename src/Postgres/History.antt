-- ===== src/Postgres/History.antt =====
-- The statements of any sessions, one after another, are steps of the contract of backend.Backend.
use worklease.Base.{refl, Bool, inl, inr, Bool-cases, none, List, [], ◌∷◌, arith}
use worklease.Backend.{Time, Duration, declarable, LeaseRecord}
use worklease.Postgres.Table.{PgRow, Database}
use worklease.Postgres.Queries.{update, query_checkpoint, query_renew, query_release}
use worklease.Postgres.View.{view}
use worklease.Base.Int.{pos, ◌+ℤ◌, +ℤ_parts}
use worklease.Backend.{SweepOptions}
use worklease.Contract.{
  Leases, Setting, Reach, next, exits_wrongly, Request, acquires, checkpoints, renews, releases,
  forgets, sweeps, Reply, Step, is_fenced, LastsFor,
}
use worklease.Postgres.Session.{answered}
use worklease.Postgres.Steps.{
  Decides, query_acquire-Step, checkpoint-Decides, renew-Decides, release-Decides,
}
use worklease.Postgres.Sweep.{query_vacuum_sweep-Step, query_forget-Step}
use worklease.Postgres.Updates.{update_cases}
use worklease.Postgres.View.{IsStored, at, unchanged}
use worklease.Postgres.Invariant.{statement-IsStored}
use worklease.Postgres.Queries.{
  Statement, acquire_sent, checkpoint_sent, renew_sent, release_sent, forget_sent, sweep_sent,
  run_statement, run_statements,
}

-- A TTL that is not rounded.
exactly-LastsFor : (from : Time) (ttl : Duration) → LastsFor from ttl (from +ℤ ttl)
exactly-LastsFor from ttl = omega (arith, +ℤ_parts (from +ℤ ttl) (pos 1000))

-- Some call can send this statement, and get some reply.
abbrev IsStep : Database → Database → Type 0
IsStep db db' =
    (now : Setting) × ((q : Request) × ((reply : Reply) × Step now (view db) (view db') q reply))

update-IsStep :
    (db : Database) (now : Time) (rec : LeaseRecord) (q : Request) (guard : PgRow → Bool)
    (set : PgRow → PgRow)
    → Decides now none rec q db guard set
    → IsStep db (update rec guard set db).1
update-IsStep db now rec q guard set d =
    update_cases rec db (λ z. IsStep db z.1) guard set
      (λ h. (at now none, (q, (_, is_fenced rec q d.uses h (unchanged db)))))
      (λ r e h g. (at now none, (q, (_, d.too_late r e h g))))
      (λ r e h g. (at now none, (q, (_, d.in_time r e h g))))

statement-IsStep : (c : Statement) (db : Database) → IsStored db → IsStep db (run_statement c db)
unfolding run_statement query_checkpoint query_renew query_release
statement-IsStep (acquire_sent now w h ttl) db v = (
  at now none,
  (
    acquires w h ttl,
    (
      _,
      query_acquire-Step db v (record { now = now; fate = answered; ctx = none }) w h ttl ttl
          (record { fate = tt; ctx = tt }) (exactly-LastsFor now ttl),
    ),
  ),
)
statement-IsStep (checkpoint_sent now state ttl rec) db v =
    update-IsStep db now rec (checkpoints rec state ttl) _ _
      (checkpoint-Decides db v now none rec state state ttl ttl refl (exactly-LastsFor now ttl))
statement-IsStep (renew_sent now ttl rec) db v =
    update-IsStep db now rec (renews rec ttl) _ _
      (renew-Decides db v now none rec ttl ttl (exactly-LastsFor now ttl))
statement-IsStep (release_sent now mode rec) db v = elim (Bool-cases (declarable mode)) [
  | inl d ↦
      rw d (
        update-IsStep db now rec (releases rec mode) _ _ (release-Decides db v now none rec mode d))
  | inr d ↦
      rw d (at (pos 0) none, (releases rec mode, (_, exits_wrongly rec mode d (unchanged db))))
]
statement-IsStep (forget_sent rec) db v =
    (at (pos 0) none, (forgets rec, (_, query_forget-Step db (pos 0) none rec)))
statement-IsStep (sweep_sent now cutoff b) db v =
    let opts : SweepOptions = record { retention = cutoff; include_expired = b } in
    (
      at now none,
      (
        sweeps opts,
        (
          _,
          query_vacuum_sweep-Step db v now none opts cutoff
              (omega (arith, +ℤ_parts cutoff (pos 2000)))
              (omega (arith, +ℤ_parts cutoff (pos 2000))),
        ),
      ),
    )

-- Whatever statements follow, in whatever order and at whatever times, each is a step of the
-- contract.
pub run_statements-Reach :
    {s : Leases} (cs : List Statement) (db : Database)
    → IsStored db
    → Reach s (view db)
    → Reach s (view (run_statements cs db))
unfolding run_statements
run_statements-Reach [] db v before = before
run_statements-Reach (c ∷ cs) db v before =
    let (now, (q, (reply, st))) = statement-IsStep c db v in
    run_statements-Reach cs (run_statement c db) (statement-IsStored c db v)
      (next now q reply before st)

-- ===== src/Postgres/Methods.antt =====
-- The methods of the PostgreSQL backend that send one statement, as the contract of backend.Backend sees
-- them.
use worklease.Base.{
  ℕ, ◌≡◌, refl, inl, inr, Bool-cases, Option, none, some, String, [], ◌∷◌, arith, ◌==◌,
}
use worklease.Base.Dict.{lookup}
use worklease.Errors.{Result, ok, err}
use worklease.Backend.{Time, Duration, LeaseRecord}
use worklease.Postgres.Table.{PgRow, Database}
use worklease.Postgres.Queries.{
  query_read_checkpoint, row_or_none, query_acquire, query_forget, query_vacuum_sweep,
}
use worklease.Postgres.View.{view, term_of}
use worklease.Base.Int.{pos, ◌+ℤ◌, ◌≤ℤ◌, +ℤ_parts}
use worklease.Errors.{is, listed, chain, number, GoError}
use worklease.Backend.{Bytes, Checkpoint, SweepOptions}
use worklease.Contract.{
  unanswered, Request, acquires, forgets, sweeps, reads, Reply, read, recalls, recalls_nothing,
  swept, failed, Step, refused, LastsFor, stored, HasMode,
}
use worklease.Postgres.Session.{Turn, answered}
use worklease.Postgres.{
  leased, deleted, state_arg, acquire, read_checkpoint, found_row, forget, sweep,
}
use worklease.Postgres.Steps.{lease_reply, reply_of, query_acquire-Step}
use worklease.Postgres.Sweep.{query_vacuum_sweep-Step, query_forget-Step}
use worklease.Postgres.View.{
  IsStored, IsTurn, at, unchanged, wrapped-IsForeign, wrapped-TellsContext,
}
use worklease.Postgres.Session.{
  Fate, not_run, reply_lost, uncounted, exec, query_row, selected, wrapped, rows_affected,
}
use worklease.Postgres.Interval.{interval, format_interval_rounds_up}
use worklease.Postgres.View.{IsFate, IsDriver}

pub interval-LastsFor : (now : Time) (ttl : Duration) → LastsFor now ttl (now +ℤ interval ttl)
interval-LastsFor now ttl =
    let rounds = format_interval_rounds_up ttl in
    omega (
      arith,
      +ℤ_parts now ttl,
      +ℤ_parts now (interval ttl),
      +ℤ_parts (now +ℤ ttl) (pos 1000),
      +ℤ_parts ttl (pos 1000),
    )

pub stored-state_arg : (state : Option Bytes) → stored (state_arg state) ≡ stored state
stored-state_arg none = refl
stored-state_arg (some []) = refl
stored-state_arg (some (b ∷ bs)) = refl

state_arg-stored : (state : Option Bytes) → state_arg state ≡ stored state
state_arg-stored none = refl
state_arg-stored (some []) = refl
state_arg-stored (some (b ∷ bs)) = refl

abbrev pub read_reply : Result Checkpoint → Reply
read_reply (ok cp) = read cp
read_reply (err e) = failed e

abbrev pub swept_reply : Result ℕ → Reply
swept_reply (ok n) = swept n
swept_reply (err e) = failed e

module _ (t : Turn) (turn : IsTurn t) (db : Database) (v : IsStored db) where
  abbrev IsAnswer : Request → Reply × Database → Type 0
  IsAnswer q z = Step (at t.now t.ctx) (view db) (view z.1) q z.0

  -- What an error of the driver leaves of a call, before its statement is run or after.
  driver-Step :
      (q : Request) (m : String) (e : GoError) (db' : Database) (reply : Reply)
      → HasMode q
      → IsDriver e
      → IsAnswer q (reply, db')
      → IsAnswer q (failed (wrapped m t e), db) × IsAnswer q (failed (wrapped m t e), db')
  driver-Step q m e db' reply sound driver st =
      let foreign = wrapped-IsForeign m t e turn driver.foreign in
      (
        refused q _ sound foreign (wrapped-TellsContext m t e) (unchanged db),
        unanswered q reply _ sound foreign (wrapped-TellsContext m t e) st,
      )

  pub acquire-Step :
      (w h : String) (ttl : Duration)
      → let z = acquire t w h ttl db in IsAnswer (acquires w h ttl) (lease_reply z.0, z.1)
  unfolding acquire query_row
  acquire-Step w h ttl = at_fate t.fate turn.fate
    where
      st :
          let z = query_acquire t.now w h (interval ttl) db in
          IsAnswer (acquires w h ttl) (lease_reply (leased t w h z.0), z.1)
      st = query_acquire-Step db v t w h ttl (interval ttl) turn (interval-LastsFor t.now ttl)

      lost :
          (e : GoError)
          → IsDriver e
          → IsAnswer (acquires w h ttl) (lease_reply (leased t w h (err e)), db)
            × IsAnswer
                (acquires w h ttl)
                (lease_reply (leased t w h (err e)), (query_acquire t.now w h (interval ttl) db).1)
      lost e driver = rw driver.not_empty (driver-Step _ _ e _ _ tt driver st)

      at_fate :
          (f : Fate)
          → IsFate f
          → let z = query_row f (query_acquire t.now w h (interval ttl)) db in
            IsAnswer (acquires w h ttl) (lease_reply (leased t w h z.0), z.1)
      at_fate answered i = st
      at_fate (not_run e) i = (lost e i).0
      at_fate (reply_lost e) i = (lost e i).1
      at_fate (uncounted e) i = (lost e i).1

  pub forget-Step :
      (rec : LeaseRecord) → let z = forget t rec db in IsAnswer (forgets rec) (reply_of z.0, z.1)
  unfolding forget exec deleted
  forget-Step rec = at_fate t.fate turn.fate
    where
      at_fate :
          (f : Fate)
          → IsFate f
          → let z = exec f (query_forget rec) db in
            IsAnswer
              (forgets rec)
              (reply_of (deleted (rows_affected "postgres: Forget: " t z.0)), z.1)
      at_fate answered i = query_forget-Step db t.now t.ctx rec
      at_fate (not_run e) i = (driver-Step _ _ e _ _ tt i (query_forget-Step db t.now t.ctx rec)).0
      at_fate (reply_lost e) i =
          (driver-Step _ _ e _ _ tt i (query_forget-Step db t.now t.ctx rec)).1
      at_fate (uncounted e) i =
          (driver-Step _ _ e _ _ tt i (query_forget-Step db t.now t.ctx rec)).1

  pub sweep-Step :
      (seconds : Duration → Duration) (opts : SweepOptions)
      → seconds opts.retention ≤ℤ opts.retention +ℤ pos 2000
      → opts.retention ≤ℤ seconds opts.retention +ℤ pos 2000
      → let z = sweep seconds t opts db in IsAnswer (sweeps opts) (swept_reply z.0, z.1)
  unfolding sweep exec
  sweep-Step seconds opts low high = at_fate t.fate turn.fate
    where
      cutoff : Duration
      cutoff = seconds opts.retention

      st :
          let z = query_vacuum_sweep t.now cutoff opts.include_expired db in
          IsAnswer (sweeps opts) (swept z.0, z.1)
      st = query_vacuum_sweep-Step db v t.now t.ctx opts cutoff low high

      at_fate :
          (f : Fate)
          → IsFate f
          → let z = exec f (query_vacuum_sweep t.now cutoff opts.include_expired) db in
            IsAnswer (sweeps opts) (swept_reply (rows_affected "postgres: Sweep: " t z.0), z.1)
      at_fate answered i = st
      at_fate (not_run e) i = (driver-Step _ _ e _ _ tt i st).0
      at_fate (reply_lost e) i = (driver-Step _ _ e _ _ tt i st).1
      at_fate (uncounted e) i = (driver-Step _ _ e _ _ tt i st).1

  pub read-Step :
      (rec : LeaseRecord) → IsAnswer (reads rec) (read_reply (read_checkpoint t rec db), db)
  unfolding read_checkpoint found_row query_read_checkpoint is listed chain number
  read-Step rec = at_fate t.fate turn.fate
    where
      fails :
          (e : GoError)
          → IsDriver e
          → IsAnswer (reads rec) (read_reply (found_row t rec (err e)), db)
      fails e driver = rw driver.not_empty (
          refused _ _ tt (wrapped-IsForeign _ t e turn driver.foreign) (wrapped-TellsContext _ t e)
            (unchanged db))

      at_row :
          (o : Option PgRow)
          → lookup rec.work_id db.worklease_leases ≡ o
          → IsAnswer (reads rec) (read_reply (found_row t rec (row_or_none o)), db)
      at_row none e = recalls_nothing rec (rw e tt) (unchanged db)
      at_row (some r) e = elim (Bool-cases (r.fencing_token == rec.fencing_token)) [
        | inl h ↦
            rw (h, state_arg-stored r.checkpoint)
              (recalls rec (term_of r) (rw e refl) (ground arith) (unchanged db))
        | inr h ↦ rw h (recalls_nothing rec (rw e (ground arith)) (unchanged db))
      ]

      at_fate :
          (f : Fate)
          → IsFate f
          → IsAnswer
              (reads rec)
              (read_reply (found_row t rec (selected f (query_read_checkpoint rec.work_id db))), db)
      at_fate answered i = at_row (lookup rec.work_id db.worklease_leases) refl
      at_fate (not_run e) i = fails e i
      at_fate (reply_lost e) i = fails e i
      at_fate (uncounted e) i = fails e i

-- ===== src/Postgres/Refinement.antt =====
-- The PostgreSQL backend keeps the contract of backend.Backend, whatever statements of other sessions
-- come between the two of a call.
use worklease.Base.{ℕ, ◌≤◌, ◌≡◌, refl, Bool, ◌⊎◌, inl, inr, Option, String, List, arith}
use worklease.Errors.{Result, ok, err, sentinel}
use worklease.Backend.{LeaseRecord}
use worklease.Postgres.Table.{PgRow, Database}
use worklease.Postgres.Queries.{update, select}
use worklease.Postgres.View.{view, term_of}
use worklease.Contract.{Holds, IsNotHeld}
use worklease.Errors.{is, listed, chain, number, lease_expired, GoError}
use worklease.Contract.{
  Term, Leases, here, unanswered, Request, Reply, done, failed, Step, is_fenced, refused,
  WritesWith-HasMode, WritesWith,
}
use worklease.Postgres.Session.{Turn, answered}
use worklease.Postgres.Steps.{reply_of, Decides}
use worklease.Contract.History.{Reach-KeepsOld, KeepsOld}
use worklease.Postgres.Updates.{update_cases, select_cases}
use worklease.Postgres.View.{
  IsStored, IsTurn, at, unchanged, wrapped-IsForeign, wrapped-TellsContext,
}
use worklease.Postgres.Queries.{Statement, run_statements}
use worklease.Postgres.History.{run_statements-Reach}
use worklease.Postgres.Session.{
  Fate, not_run, reply_lost, uncounted, exec, selected, wrapped, rows_affected, classify, settle,
}
use worklease.Postgres.View.{IsFate, IsDriver}

-- Where a call with these two turns takes effect: a step of the contract from the leases that its
-- first statement finds, with the other sessions' statements after it, or a step at its second
-- statement that changes nothing.
pub data TakesEffect (t t' : Turn) (between : List Statement) (db : Database) (q : Request)
    (z : Reply × Database) : Type 0 where
  at_once : Step (at t.now t.ctx) (view db) (view z.1) q z.0 → TakesEffect t t' between db q z
  before_others :
      (d : Database)
      → Step (at t.now t.ctx) (view db) (view d) q z.0
      → z.1 ≡ run_statements between d
      → TakesEffect t t' between db q z
  at_check :
      z.1 ≡ run_statements between db
      → Step (at t'.now t'.ctx) (view z.1) (view z.1) q z.0
      → TakesEffect t t' between db q z

-- A record that holds no lease once its token is drawn holds none later.
not_held-later :
    (rec : LeaseRecord) {s s' : Leases} (r' : Term)
    → KeepsOld s s'
    → rec.fencing_token ≤ s.issued
    → IsNotHeld rec (s.term rec.work_id)
    → Holds rec (s'.term rec.work_id) r'
    → ⊥
not_held-later rec r' keeps drawn gone (e, holder, token) =
    let (r, e', holder', token') = keeps.was_there rec.work_id r' e (omega (arith, token)) in
    ground (arith, gone)

abbrev replied : Option GoError × Database → Reply × Database
replied (o, db) = (reply_of o, db)

module _ {ℓ} {A : Type ℓ} (m : String) (t t' : Turn) (between : List Statement) (db : Database)
    (q : Request) (rec : LeaseRecord) (column : PgRow → A) (turn : IsTurn t) (turn' : IsTurn t')
    (v : IsStored db) (drawn : rec.fencing_token ≤ db.worklease_fencing_seq)
    (uses : WritesWith rec q) where
  abbrev settled : Result ℕ × Database → Reply × Database
  settled (counted, d) = replied (settle m between t' (select rec column) counted d)

  abbrev later : Database
  later = run_statements between db

  -- No row is affected: the record holds no lease, or comes too late.
  zero_rows-TakesEffect :
      IsNotHeld rec ((view db).term rec.work_id)
        ⊎ Step (at t.now t.ctx) (view db) (view db) q (failed (sentinel lease_expired))
      → TakesEffect t t' between db q (settled (ok 0, db))
  unfolding settle classify is listed chain number
  zero_rows-TakesEffect why = at_fate t'.fate turn'.fate
    where
      keeps : KeepsOld (view db) (view later)
      keeps = Reach-KeepsOld (run_statements-Reach between db v here)

      failing : GoError → Result A
      failing e = err e

      fails :
          (e : GoError)
          → IsDriver e
          → TakesEffect t t' between db q (failed (classify m t' (failing e)), later)
      fails e driver = at_check refl (
          rw driver.not_empty (
            refused q _ (WritesWith-HasMode rec q uses)
              (wrapped-IsForeign m t' e turn' driver.foreign) (wrapped-TellsContext m t' e)
              (unchanged later)))

      found :
          (r : PgRow)
          → Holds rec ((view later).term rec.work_id) (term_of r)
          → TakesEffect t t' between db q (failed (sentinel lease_expired), later)
      found r h = elim why [
        | inl gone ↦ absurd (not_held-later rec (term_of r) keeps drawn gone h)
        | inr late ↦ before_others db late refl
      ]

      at_fate :
          (f : Fate)
          → IsFate f
          → TakesEffect t t' between db q
              (failed (classify m t' (selected f (select rec column later))), later)
      at_fate answered i =
          select_cases rec later
            (λ x. TakesEffect t t' between db q (failed (classify m t' x), later)) column
            (λ h. at_check refl (is_fenced rec q uses h (unchanged later))) found
      at_fate (not_run e) i = fails e i
      at_fate (reply_lost e) i = fails e i
      at_fate (uncounted e) i = fails e i

  module _ (guard : PgRow → Bool) (set : PgRow → PgRow)
      (d : Decides t.now t.ctx rec q db guard set) where
    -- The UPDATE is run, and the driver reports an error.
    lost-TakesEffect :
        (e : GoError)
        → IsDriver e
        → TakesEffect t t' between db q (failed (wrapped m t e), (update rec guard set db).1)
    lost-TakesEffect e driver =
        let sound = WritesWith-HasMode rec q uses in
        let foreign = wrapped-IsForeign m t e turn driver.foreign in
        update_cases rec db (λ z. TakesEffect t t' between db q (failed (wrapped m t e), z.1)) guard
          set (λ h. at_once (refused q _ sound foreign (wrapped-TellsContext m t e) (unchanged db)))
          (λ r e' h g.
            at_once (refused q _ sound foreign (wrapped-TellsContext m t e) (unchanged db)))
          (λ r e' h g.
            at_once
              (unanswered q done _ sound foreign (wrapped-TellsContext m t e) (d.in_time r e' h g)))

    -- Checkpoint, Renew and Release, with the UPDATE of each.
    pub update-TakesEffect : TakesEffect t t' between db q (
        let first = exec t.fate (update rec guard set) db in
        settled (rows_affected m t first.0, first.1))
    unfolding exec settle
    update-TakesEffect = at_fate t.fate turn.fate
      where
        at_fate :
            (f : Fate)
            → IsFate f
            → TakesEffect t t' between db q (
                let first = exec f (update rec guard set) db in
                settled (rows_affected m t first.0, first.1))
        at_fate answered i =
            update_cases rec db (λ z. TakesEffect t t' between db q (settled (ok z.0, z.1))) guard
              set (λ h. zero_rows-TakesEffect (inl h))
              (λ r e h g. zero_rows-TakesEffect (inr (d.too_late r e h g)))
              (λ r e h g. at_once (d.in_time r e h g))
        at_fate (not_run e) i = at_once (
            refused q _ (WritesWith-HasMode rec q uses) (wrapped-IsForeign m t e turn i.foreign)
              (wrapped-TellsContext m t e) (unchanged db))
        at_fate (reply_lost e) i = lost-TakesEffect e i
        at_fate (uncounted e) i = lost-TakesEffect e i

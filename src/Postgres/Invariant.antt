-- ===== src/Postgres/Invariant.antt =====
-- The statements keep what the table holds: the constraints on the exits, and tokens below the
-- sequence's last value.
use worklease.Base.{
  ℕ, ◌≤◌, ◌≡◌, refl, Bool, ◌&&◌, true, false, ◌⊎◌, inl, inr, Bool-cases, Option, none, some, String,
  List, [], ◌∷◌, arith, eq_iff, ◌∙◌, if◌then◌else◌,
}
use worklease.Base.Dict.{
  Dict, lookup, insert, erase, lookup-insert, lookup-erase, IsUnique, insert-IsUnique,
  erase-IsUnique,
}
use worklease.Backend.{Time, Duration, ExitMode, exit_text, declarable, LeaseRecord}
use worklease.Postgres.Table.{
  PgRow, Database, meets_checks, exit_mode_check, prev_exit_mode_check, declares_exit,
}
use worklease.Postgres.Queries.{
  update, store, acquired_row, coalesce, query_acquire, query_checkpoint, query_renew,
  query_release, query_vacuum_sweep, outlives, swept_rows, Statement, acquire_sent, checkpoint_sent,
  renew_sent, release_sent, forget_sent, sweep_sent, run_statement, run_statements,
}
use worklease.Postgres.View.{IsStored}
use worklease.Postgres.Updates.{update_cases, forget_cases, acquire_cases}

pub insert-IsStored :
    (db : Database) (w : String) (r : PgRow) (seq : ℕ)
    → IsStored db
    → meets_checks r ≡ true
    → r.fencing_token ≤ seq
    → db.worklease_fencing_seq ≤ seq
    → IsStored
        (record { worklease_leases = insert w r db.worklease_leases; worklease_fencing_seq = seq })
insert-IsStored db w r seq v ok' le grows = record {
  checks = λ k q e. ground (arith, lookup-insert w k r db.worklease_leases, v.checks k q);
  drawn = λ k q e. ground (arith, lookup-insert w k r db.worklease_leases, v.drawn k q);
  unique = insert-IsUnique w r db.worklease_leases v.unique;
}

erase-IsStored :
    (db : Database) (w : String)
    → IsStored db
    → IsStored (record db { worklease_leases = erase w db.worklease_leases })
erase-IsStored db w v = record {
  checks = λ k q e. ground (arith, lookup-erase w k db.worklease_leases, v.checks k q);
  drawn = λ k q e. ground (arith, lookup-erase w k db.worklease_leases, v.drawn k q);
  unique = erase-IsUnique w db.worklease_leases v.unique;
}

burnt-IsStored :
    (db : Database) (seq : ℕ)
    → IsStored db
    → db.worklease_fencing_seq ≤ seq
    → IsStored (record db { worklease_fencing_seq = seq })
burnt-IsStored db seq v le = record {
  checks = v.checks;
  drawn = λ k r e. omega (arith, v.drawn k r e);
  unique = v.unique;
}

module _ (db : Database) (v : IsStored db) where
  update-IsStored :
      (rec : LeaseRecord) (guard : PgRow → Bool) (set : PgRow → PgRow)
      → ((r : PgRow) → meets_checks r ≡ true → meets_checks (set r) ≡ true)
      → ((r : PgRow) → (set r).fencing_token ≡ r.fencing_token)
      → IsStored (update rec guard set db).1
  update-IsStored rec guard set keeps token =
      update_cases rec db (λ z. IsStored z.1) guard set (λ h. v) (λ r e m g. v)
        (λ r e m g.
          insert-IsStored db rec.work_id (set r) db.worklease_fencing_seq v
            (keeps r (v.checks rec.work_id r e)) (omega (arith, token r, v.drawn rec.work_id r e))
            (omega arith))

pub and_left : (a b : Bool) → (a && b) ≡ true → a ≡ true
and_left true b h = refl
and_left false b h = h

and_right : (a b : Bool) → (a && b) ≡ true → b ≡ true
and_right true b h = h
and_right false b h = cc

acquired_row-checks :
    (now : Time) (h : String) (ttl : Duration) (token : ℕ) (o : Option PgRow)
    → ((r : PgRow) → o ≡ some r → meets_checks r ≡ true)
    → meets_checks (acquired_row now h ttl token o) ≡ true
unfolding acquired_row exit_mode_check prev_exit_mode_check
acquired_row-checks now h ttl token none c = refl
acquired_row-checks now h ttl token (some r) c = at_column r.exit_mode (checked (c r refl))
  where
    checked : meets_checks r ≡ true → exit_mode_check r.exit_mode ≡ true
    checked h = and_left _ _ h

    at_column :
        (x : Option String)
        → exit_mode_check x ≡ true
        → prev_exit_mode_check (coalesce x "expired") ≡ true
    at_column none d = refl
    at_column (some s) d = ground arith

pub acquired_row-token :
    (now : Time) (h : String) (ttl : Duration) (token : ℕ) (o : Option PgRow)
    → (acquired_row now h ttl token o).fencing_token ≡ token
unfolding acquired_row
acquired_row-token now h ttl token none = refl
acquired_row-token now h ttl token (some r) = refl

-- The text of a mode that a holder can declare meets the constraint on exit_mode.
pub declarable-check :
    (mode : ExitMode) → declarable mode ≡ true → declares_exit (exit_text mode) ≡ true
unfolding exit_text declares_exit
declarable-check mode h = elim (cases h) [
  | inl e ↦ rw e refl
  | inr (inl e) ↦ rw e refl
  | inr (inr e) ↦ rw e refl
]
  where
    cases : declarable mode ≡ true → (mode ≡ 1) ⊎ ((mode ≡ 2) ⊎ (mode ≡ 3))
    cases d = ground arith

-- Sweep's statement, row by row.
module _ (stays : PgRow → Bool) where
  abbrev pub keep_if : Option PgRow → Option PgRow
  keep_if none = none
  keep_if (some r) = if stays r then some r else none

  pub lookup-swept_rows :
      (k : String) (d : Dict PgRow)
      → IsUnique d
      → lookup k (swept_rows stays d).1 ≡ keep_if (lookup k d)
  unfolding swept_rows lookup
  lookup-swept_rows k [] u = refl
  lookup-swept_rows k ((j, r) ∷ d) u = ground (arith, eq_iff j k, lookup-swept_rows k d u.1)

  swept_rows-IsUnique : (d : Dict PgRow) → IsUnique d → IsUnique (swept_rows stays d).1
  unfolding swept_rows
  swept_rows-IsUnique [] u = tt
  swept_rows-IsUnique ((j, r) ∷ d) u =
      ground (arith, swept_rows-IsUnique d u.1, lookup-swept_rows j d u.1)

module _ (db : Database) (v : IsStored db) where
  acquire-IsStored :
      (now : Time) (w h : String) (ttl : Duration) → IsStored (query_acquire now w h ttl db).1
  unfolding store
  acquire-IsStored now w h ttl =
      acquire_cases (λ z. IsStored z.1) now w h ttl db (λ seq le. burnt-IsStored db seq v le)
        (λ r e live. burnt-IsStored db _ v (omega arith))
        (λ token o fresh e free.
          let same = acquired_row-token now h ttl token o in
          insert-IsStored db w (acquired_row now h ttl token o) _ v
            (acquired_row-checks now h ttl token o (λ r x. v.checks w r (e ∙ x))) (omega arith)
            (omega (arith, same)))

  sweep-IsStored :
      (now : Time) (cutoff : Duration) (include_expired : Bool)
      → IsStored (query_vacuum_sweep now cutoff include_expired db).1
  unfolding query_vacuum_sweep
  sweep-IsStored now cutoff include_expired = record {
    checks = λ k r e. v.checks k r (was_there k r e);
    drawn = λ k r e. v.drawn k r (was_there k r e);
    unique = swept_rows-IsUnique stays db.worklease_leases v.unique;
  }
    where
      stays : PgRow → Bool
      stays = outlives now cutoff include_expired

      was_there :
          (k : String) (r : PgRow)
          → lookup k (swept_rows stays db.worklease_leases).1 ≡ some r
          → lookup k db.worklease_leases ≡ some r
      was_there k r e = ground (arith, lookup-swept_rows stays k db.worklease_leases v.unique)

  release-IsStored :
      (now : Time) (mode : ExitMode) (rec : LeaseRecord)
      → declarable mode ≡ true
      → IsStored (query_release now (exit_text mode) rec db).1
  unfolding query_release exit_mode_check
  release-IsStored now mode rec d =
      update-IsStored db v rec _ _ (λ r c. rw (declarable-check mode d) (and_right _ _ c))
        (λ r. refl)

pub statement-IsStored :
    (c : Statement) (db : Database) → IsStored db → IsStored (run_statement c db)
unfolding run_statement query_checkpoint query_renew query_release
statement-IsStored (acquire_sent now w h ttl) db v = acquire-IsStored db v now w h ttl
statement-IsStored (checkpoint_sent now state ttl rec) db v =
    update-IsStored db v rec _ _ (λ r c. c) (λ r. refl)
statement-IsStored (renew_sent now ttl rec) db v =
    update-IsStored db v rec _ _ (λ r c. c) (λ r. refl)
statement-IsStored (release_sent now mode rec) db v = elim (Bool-cases (declarable mode)) [
  | inl d ↦ rw d (release-IsStored db v now mode rec d)
  | inr d ↦ rw d v
]
statement-IsStored (forget_sent rec) db v =
    forget_cases rec db (λ z. IsStored z.1) (λ h. v) (λ r h. erase-IsStored db rec.work_id v)
statement-IsStored (sweep_sent now cutoff include_expired) db v =
    sweep-IsStored db v now cutoff include_expired

-- The statements that calls send, in any order, keep the constraints of the table on the exits, at
-- most one row of a work ID, and every token at or below the sequence's last value.
pub run_statements-IsStored :
    (cs : List Statement) (db : Database) → IsStored db → IsStored (run_statements cs db)
unfolding run_statements
run_statements-IsStored [] db v = v
run_statements-IsStored (c ∷ cs) db v =
    run_statements-IsStored cs (run_statement c db) (statement-IsStored c db v)

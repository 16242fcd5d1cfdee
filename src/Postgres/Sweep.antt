-- ===== src/Postgres/Sweep.antt =====
-- Sweep and Forget of the PostgreSQL backend as steps of the contract of backend.Backend.
use worklease.Base.{
  ◌≡◌, refl, Bool, true, false, ◌⊎◌, inl, inr, Bool-cases, Option, none, some, String, arith,
}
use worklease.Base.{length, ◌↔◌, [], ◌∷◌}
use worklease.Base.Dict.{Dict, lookup}
use worklease.Base.Dropped.{dropped, is_dropped, is_among-dropped, dropped-AreDistinct}
use worklease.Contract.{Counts, IsGone}
use worklease.Postgres.Queries.{swept_rows}
use worklease.Errors.{GoError}
use worklease.Errors.{ok}
use worklease.Backend.{Time, Duration, ExitMode, LeaseRecord}
use worklease.Postgres.Table.{PgRow, Database, exit_mode_check}
use worklease.Postgres.Queries.{query_forget, query_vacuum_sweep, outlives}
use worklease.Postgres.View.{view, term_of, some_term}
use worklease.Base.Int.{pos, ◌+ℤ◌, ◌≤ℤ◌, -ℤ_parts}
use worklease.Backend.{exit_none, exit_retired, SweepOptions}
use worklease.Contract.{forgets, sweeps, swept, Step, drops, clears, is_fenced, SweptAway, IsOld}
use worklease.Postgres.{deleted}
use worklease.Postgres.Steps.{reply_of}
use worklease.Postgres.Updates.{forget_cases}
use worklease.Postgres.View.{
  IsStored, at, exit_of, unchanged, erase-Puts, declared-not_none, declared-retired,
}
use worklease.Postgres.Invariant.{and_left, lookup-swept_rows, keep_if}
use worklease.Postgres.Queries.{is_swept}

-- The exits of the rows that Sweep deletes.
abbrev SweptExit : Bool → ExitMode → Type 0
SweptExit include_expired mode =
    (mode ≡ exit_retired) ⊎ ((include_expired ≡ true) × (mode ≡ exit_none))

exit-swept :
    (b : Bool) (x : Option String)
    → exit_mode_check x ≡ true
    → ((is_swept b x ≡ true) × SweptExit b (exit_of x))
      ⊎ ((is_swept b x ≡ false) × (SweptExit b (exit_of x) → ⊥))
unfolding exit_mode_check
exit-swept true none d = inl (refl, inr (refl, refl))
exit-swept false none d = inr (refl, λ h. ground arith)
exit-swept b (some s) d = elim (declared-retired s d) [
  | inl (e, t) ↦ inl (t, inl e)
  | inr (e, t) ↦ inr (t, λ h. ground (arith, declared-not_none s d))
]

-- What the conditions of Sweep's statement say of a row.
module _ (now : Time) (cutoff : Duration) (opts : SweepOptions) (r : PgRow)
    (c : exit_mode_check r.exit_mode ≡ true) where
  gone-IsOld :
      outlives now cutoff opts.include_expired r ≡ false → IsOld now cutoff opts (term_of r)
  unfolding outlives
  gone-IsOld gone = ground (
    arith,
    -ℤ_parts now cutoff,
    -ℤ_parts now r.updated_at,
    exit-swept opts.include_expired r.exit_mode c,
  )

  old-gone : IsOld now cutoff opts (term_of r) → outlives now cutoff opts.include_expired r ≡ false
  unfolding outlives
  old-gone old = ground (
    arith,
    -ℤ_parts now cutoff,
    -ℤ_parts now r.updated_at,
    exit-swept opts.include_expired r.exit_mode c,
  )

-- Sweep's statement counts the work IDs that it has deleted.
swept_rows-Counts :
    (db : Database)
    → IsStored db
    → (stays : PgRow → Bool)
    → let (n, rows) = swept_rows stays db.worklease_leases in
      Counts (view db) (view (record db { worklease_leases = rows })) n
unfolding swept_rows
swept_rows-Counts db v stays = record {
  gone = dropped stays db.worklease_leases;
  once = dropped-AreDistinct stays db.worklease_leases v.unique;
  exactly = λ w.
      rw
        (
          is_among-dropped stays w db.worklease_leases v.unique,
          lookup-swept_rows stays w db.worklease_leases v.unique,
        )
        (at_row (lookup w db.worklease_leases));
  count = length-dropped db.worklease_leases;
}
  where
    at_row :
        (o : Option PgRow)
        → (is_dropped stays o ≡ true) ↔ IsGone (some_term o) (some_term (keep_if stays o))
    at_row none = (λ e. cc, λ h. absurd h)
    at_row (some r) = elim (Bool-cases (stays r)) [
      | inl kept ↦ rw kept (λ e. cc, λ h. cc)
      | inr gone ↦ rw gone (λ e. refl, λ h. refl)
    ]

    length-dropped : (d : Dict PgRow) → length (dropped stays d) ≡ (swept_rows stays d).0
    length-dropped [] = refl
    length-dropped ((k, r) ∷ d) = ground (arith, length-dropped d)

module _ (db : Database) (v : IsStored db) (now : Time) (ctx : Option GoError) where
  pub query_vacuum_sweep-Step :
      (opts : SweepOptions) (cutoff : Duration)
      → cutoff ≤ℤ opts.retention +ℤ pos 2000
      → opts.retention ≤ℤ cutoff +ℤ pos 2000
      → let z = query_vacuum_sweep now cutoff opts.include_expired db in
        Step (at now ctx) (view db) (view z.1) (sweeps opts) (swept z.0)
  unfolding query_vacuum_sweep
  query_vacuum_sweep-Step opts cutoff low high =
      clears opts cutoff _ low high
        (λ w.
          rw (lookup-swept_rows stays w db.worklease_leases v.unique)
            (at_row (lookup w db.worklease_leases) (λ r e. and_left _ _ (v.checks w r e))))
        (swept_rows-Counts db v stays) (omega arith)
    where
      stays : PgRow → Bool
      stays = outlives now cutoff opts.include_expired

      at_row :
          (o : Option PgRow)
          → ((r : PgRow) → o ≡ some r → exit_mode_check r.exit_mode ≡ true)
          → SweptAway now cutoff opts (some_term o) (some_term (keep_if stays o))
      at_row none c = refl
      at_row (some r) c = elim (Bool-cases (stays r)) [
        | inl kept ↦
            rw kept (inr (refl, λ old. cc (kept, old-gone now cutoff opts r (c r refl) old)))
        | inr gone ↦ rw gone (inl (refl, gone-IsOld now cutoff opts r (c r refl) gone))
      ]

-- The reply of a DELETE, counted: one row is done, and none is fenced.
module _ (db : Database) (now : Time) (ctx : Option GoError) (rec : LeaseRecord) where
  pub query_forget-Step :
      let z = query_forget rec db in
      Step (at now ctx) (view db) (view z.1) (forgets rec) (reply_of (deleted (ok z.0)))
  unfolding deleted
  query_forget-Step =
      forget_cases rec db
        (λ z. Step (at now ctx) (view db) (view z.1) (forgets rec) (reply_of (deleted (ok z.0))))
        (λ h. is_fenced rec (forgets rec) refl h (unchanged db))
        (λ r h. drops rec (term_of r) h (erase-Puts db rec.work_id))

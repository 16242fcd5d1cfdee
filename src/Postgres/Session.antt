-- ===== src/Postgres/Session.antt =====
-- backend/postgres/postgres.go: how a call sends a statement through package database/sql, and what
-- it makes of an answer or an error. What becomes of a statement is chosen by the environment.
use worklease.Base.{ℕ, zero, suc, Option, none, some, String, List, if◌then◌else◌}
use worklease.Errors.{
  GoError, sentinel, wrap, join, is, no_rows, fenced, lease_expired, Result, ok, err,
}
use worklease.Backend.{Time}
use worklease.Postgres.Table.{Database}
use worklease.Postgres.Queries.{Statement, run_statements}

-- What becomes of a statement.
pub data Fate : Type 0 where
  answered : Fate
  -- the context, the driver or the database refuses it
  not_run : GoError → Fate
  -- it is run, and its result does not arrive
  reply_lost : GoError → Fate
  -- it is run, and RowsAffected is an error
  uncounted : GoError → Fate

-- One statement of a call: NOW() in it, what becomes of it, and ctx.Err() after it.
pub record Turn : Type 0 where
  pub now : Time
  pub fate : Fate
  pub ctx : Option GoError

-- db.ExecContext, and RowsAffected on its result.
unfoldable pub exec : Fate → (Database → ℕ × Database) → Database → Result (Result ℕ) × Database
exec answered statement db = let (n, db') = statement db in (ok (ok n), db')
exec (not_run e) statement db = (err e, db)
exec (reply_lost e) statement db = (err e, (statement db).1)
exec (uncounted e) statement db = (ok (err e), (statement db).1)

-- db.QueryRowContext, and Scan.
unfoldable pub query_row {ℓ} :
    {A : Type ℓ} → Fate → (Database → Result A × Database) → Database → Result A × Database
query_row answered statement db = statement db
query_row (not_run e) statement db = (err e, db)
query_row (reply_lost e) statement db = (err e, (statement db).1)
query_row (uncounted e) statement db = (err e, (statement db).1)

abbrev pub selected {ℓ} : {A : Type ℓ} → Fate → Result A → Result A
selected answered r = r
selected (not_run e) r = err e
selected (reply_lost e) r = err e
selected (uncounted e) r = err e

-- `fmt.Errorf("%w (%w)", err, ctxErr)`
unfoldable pub with_ctx_err : Option GoError → GoError → GoError
with_ctx_err none e = e
with_ctx_err (some c) e = join e c

abbrev pub wrapped : String → Turn → GoError → GoError
wrapped m t e = wrap m (with_ctx_err t.ctx e)

-- How many rows are affected, or the error of the call.
abbrev pub rows_affected : String → Turn → Result (Result ℕ) → Result ℕ
rows_affected m t (ok (ok n)) = ok n
rows_affected m t (ok (err e)) = err (wrapped m t e)
rows_affected m t (err e) = err (wrapped m t e)

-- What the SELECT after a zero-row UPDATE says: no row means fenced.
unfoldable pub classify {ℓ} : {A : Type ℓ} → String → Turn → Result A → GoError
unfolding with_ctx_err
classify m t (ok a) = sentinel lease_expired
classify m t (err e) = if is e no_rows then sentinel fenced else wrapped m t e

-- The two statements of Checkpoint, Renew and Release, after the first.
unfoldable pub settle {ℓ} :
    {A : Type ℓ}
    → String
    → List Statement
    → Turn
    → (Database → Result A)
    → Result ℕ
    → Database
    → Option GoError × Database
unfolding run_statements
settle m between t check (err e) db = (some e, db)
settle m between t check (ok (suc n)) db = (none, db)
settle m between t check (ok zero) db =
    let db' = run_statements between db in (some (classify m t (selected t.fate (check db'))), db')

-- ===== src/Postgres.antt =====
-- backend/postgres/postgres.go: the PostgreSQL backend. Checkpoint, Renew and Release send a second
-- statement when the first affects no row, and other sessions' statements come in between.
pub mod Table
pub mod Queries
pub mod Interval
pub mod ExitText
pub mod Session
pub mod View
pub mod Updates
pub mod Invariant
pub mod Steps
pub mod Sweep
pub mod History
pub mod Refinement
pub mod Methods
pub mod Answers
pub mod Context
pub mod Fencing
mod Tests
use worklease.Base.{
  ℕ, zero, suc, ◌+◌, ◌/◌, ◌%◌, ◌-◌, Bool, Option, none, some, String, List, [], ◌∷◌, ◌==◌, str_eq,
  ltb, if◌then◌else◌,
}
use worklease.Base.Int.{ℤ, pos, negsuc}
use worklease.Errors.{
  GoError, sentinel, plain, wrap, join, is, no_rows, fenced, lease_held, lease_expired,
  invalid_exit_mode, Result, ok, err,
}
use worklease.Backend.{
  Time, Duration, Bytes, ExitMode, exit_none, exit_finished, exit_abandoned, exit_retired,
  exit_expired, exit_text, declarable, Checkpoint, LeaseRecord, SweepOptions,
}
use worklease.Postgres.Table.{PgRow, Database}
use worklease.Postgres.Queries.{
  query_acquire, query_checkpoint, query_renew, query_renew_check, query_release,
  query_holder_check, query_read_checkpoint, query_forget, query_vacuum_sweep, Statement,
  run_statements,
}
use worklease.Postgres.Interval.{format_interval, interval}
use worklease.Postgres.ExitText.{exit_mode_from_sql}
use worklease.Postgres.Session.{
  Fate, answered, not_run, reply_lost, uncounted, Turn, exec, query_row, selected, with_ctx_err,
  wrapped, rows_affected, classify, settle,
}

abbrev pub leased : Turn → String → String → Result (ℕ × Time) → Result LeaseRecord
leased t work_id holder_id (ok (token, expires_at)) = ok (record {
  work_id = work_id;
  holder_id = holder_id;
  fencing_token = token;
  expires_at = expires_at;
})
leased t work_id holder_id (err e) =
    if is e no_rows
    then err (sentinel lease_held)
    else err (wrapped "postgres: Acquire: exec failed: " t e)

unfoldable pub acquire :
    Turn → String → String → Duration → Database → Result LeaseRecord × Database
unfolding query_row format_interval
acquire t work_id holder_id ttl db =
    let (result, db') =
      query_row t.fate (query_acquire t.now work_id holder_id (interval ttl)) db in
    (leased t work_id holder_id result, db')

-- A nil or empty state is stored as NULL.
abbrev pub state_arg : Option Bytes → Option Bytes
state_arg none = none
state_arg (some []) = none
state_arg (some (b ∷ bs)) = some (b ∷ bs)

unfoldable pub checkpoint :
    Turn
    → List Statement
    → Turn
    → LeaseRecord
    → Option Bytes
    → Duration
    → Database
    → Option GoError × Database
unfolding exec settle format_interval
checkpoint t between t' rec state ttl db =
    let (result, db') =
      exec t.fate (query_checkpoint t.now (state_arg state) (interval ttl) rec) db in
    settle "postgres: Checkpoint: " between t' (query_holder_check rec)
      (rows_affected "postgres: Checkpoint: " t result) db'

unfoldable pub renew :
    Turn → List Statement → Turn → LeaseRecord → Duration → Database → Option GoError × Database
unfolding exec settle format_interval
renew t between t' rec ttl db =
    let (result, db') = exec t.fate (query_renew t.now (interval ttl) rec) db in
    settle "postgres: Renew: " between t' (query_renew_check rec)
      (rows_affected "postgres: Renew: " t result) db'

unfoldable pub release_valid :
    Turn → List Statement → Turn → LeaseRecord → ExitMode → Database → Option GoError × Database
unfolding exec settle
release_valid t between t' rec mode db =
    let (result, db') = exec t.fate (query_release t.now (exit_text mode) rec) db in
    settle "postgres: Release: " between t' (query_holder_check rec)
      (rows_affected "postgres: Release: " t result) db'

unfoldable pub release :
    Turn → List Statement → Turn → LeaseRecord → ExitMode → Database → Option GoError × Database
unfolding release_valid
release t between t' rec mode db =
    if declarable mode
    then release_valid t between t' rec mode db
    else (some (sentinel invalid_exit_mode), db)

-- The text of a sql.NullString.
abbrev pub text_or_empty : Option String → String
text_or_empty none = ""
text_or_empty (some s) = s

unfoldable pub found_row : Turn → LeaseRecord → Result PgRow → Result Checkpoint
unfolding exit_mode_from_sql with_ctx_err
found_row t rec (err e) =
    if is e no_rows then err (sentinel fenced) else err (wrapped "postgres: ReadCheckpoint: " t e)
found_row t rec (ok r) =
    if r.fencing_token == rec.fencing_token
    then ok (record {
      state = state_arg r.checkpoint;
      prev_exit = exit_mode_from_sql r.prev_exit_mode;
      prev_holder_id = text_or_empty r.prev_holder_id;
    })
    else err (sentinel fenced)

unfoldable pub read_checkpoint : Turn → LeaseRecord → Database → Result Checkpoint
unfolding found_row
read_checkpoint t rec db = found_row t rec (selected t.fate (query_read_checkpoint rec.work_id db))

unfoldable pub deleted : Result ℕ → Option GoError
deleted (err e) = some e
deleted (ok zero) = some (sentinel fenced)
deleted (ok (suc n)) = none

unfoldable pub forget : Turn → LeaseRecord → Database → Option GoError × Database
unfolding exec deleted
forget t rec db =
    let (result, db') = exec t.fate (query_forget rec) db in
    (deleted (rows_affected "postgres: Forget: " t result), db')

-- `seconds` is what the text that fmt.Sprintf("%.6f seconds", d.Seconds()) gives of d stands for.
unfoldable pub sweep : (Duration → Duration) → Turn → SweepOptions → Database → Result ℕ × Database
unfolding exec
sweep seconds t opts db =
    let (result, db') =
      exec t.fate (query_vacuum_sweep t.now (seconds opts.retention) opts.include_expired) db in
    (rows_affected "postgres: Sweep: " t result, db')

-- The constructor, on a *sql.DB that may be nil.
unfoldable pub new {ℓ} : {A : Type ℓ} → Option A → Result A
new none = err (plain "postgres: db is required")
new (some db) = ok db

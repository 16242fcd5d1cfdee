-- ===== src/Postgres/Queries.antt =====
-- The statements of backend/postgres/postgres.go. Each is a transaction of its own, at the isolation
-- level READ COMMITTED that the package asks for: a function of what its NOW() returns, from the
-- table and the sequence to its result and to both after it.
use worklease.Base.{
  ℕ, ◌+◌, Bool, true, false, not, ◌&&◌, Option, none, some, String, List, [], ◌∷◌, ◌==◌, str_eq,
  ltb, if◌then◌else◌,
}
use worklease.Base.Int.{pos, ◌+ℤ◌, ◌-ℤ◌, ltb_ℤ}
use worklease.Base.Dict.{Dict, lookup, insert, erase}
use worklease.Errors.{sentinel, no_rows, Result, ok, err}
use worklease.Postgres.Table.{PgRow, Database, seq_end, exhausted}
use worklease.Backend.{Time, Duration, Bytes, ExitMode, declarable, exit_text, LeaseRecord}

abbrev pub coalesce : Option String → String → String
coalesce none s = s
coalesce (some t) s = t

-- The row of a lease that is new: the columns that both branches of queryAcquire set.
unfoldable pub acquired_row : Time → String → Duration → ℕ → Option PgRow → PgRow
acquired_row now holder_id ttl token none = record {
  holder_id = holder_id;
  fencing_token = token;
  expires_at = now +ℤ ttl;
  checkpoint = none;
  exit_mode = none;
  prev_exit_mode = "none";
  prev_holder_id = none;
  acquired_at = now;
  updated_at = now;
}
acquired_row now holder_id ttl token (some r) = record {
  holder_id = holder_id;
  fencing_token = token;
  expires_at = now +ℤ ttl;
  checkpoint = r.checkpoint;
  exit_mode = none;
  prev_exit_mode = coalesce r.exit_mode "expired";
  prev_holder_id = some r.holder_id;
  acquired_at = now;
  updated_at = now;
}

unfoldable pub store : String → PgRow → Dict PgRow → Result (ℕ × Time) × Database
store work_id r d = (
  ok (r.fencing_token, r.expires_at),
  record { worklease_leases = insert work_id r d; worklease_fencing_seq = r.fencing_token },
)

-- VALUES has drawn a token. A row that has expired is taken over, with another token.
unfoldable pub on_conflict :
    Time → String → String → Duration → Database → Option PgRow → Result (ℕ × Time) × Database
unfolding store acquired_row
on_conflict now work_id holder_id ttl db none =
    store work_id (acquired_row now holder_id ttl db.worklease_fencing_seq none) db.worklease_leases
on_conflict now work_id holder_id ttl db (some r) =
    if ltb_ℤ r.expires_at now
    then if ltb db.worklease_fencing_seq seq_end
      then store work_id (acquired_row now holder_id ttl (db.worklease_fencing_seq + 1) (some r))
          db.worklease_leases
      else (err exhausted, db)
    else (err (sentinel no_rows), db)

-- queryAcquire. An attempt on a held work ID uses up a token.
unfoldable pub query_acquire :
    Time → String → String → Duration → Database → Result (ℕ × Time) × Database
unfolding on_conflict
query_acquire now work_id holder_id ttl db =
    if ltb db.worklease_fencing_seq seq_end
    then on_conflict now work_id holder_id ttl
        (record db { worklease_fencing_seq = db.worklease_fencing_seq + 1 })
        (lookup work_id db.worklease_leases)
    else (err exhausted, db)

-- `work_id = ... AND holder_id = ... AND fencing_token = ...`, on the row of the work ID.
unfoldable pub row_matches : PgRow → LeaseRecord → Bool
row_matches r rec = str_eq r.holder_id rec.holder_id && r.fencing_token == rec.fencing_token

abbrev pub is_null : Option String → Bool
is_null none = true
is_null (some s) = false

unfoldable pub update_row :
    LeaseRecord → (PgRow → Bool) → (PgRow → PgRow) → Database → Option PgRow → ℕ × Database
unfolding row_matches
update_row rec guard set db none = (0, db)
update_row rec guard set db (some r) =
    if row_matches r rec && guard r
    then (1, record db { worklease_leases = insert rec.work_id (set r) db.worklease_leases })
    else (0, db)

-- UPDATE: how many rows are affected (work_id is the primary key), and the table after it.
unfoldable pub update : LeaseRecord → (PgRow → Bool) → (PgRow → PgRow) → Database → ℕ × Database
unfolding update_row
update rec guard set db = update_row rec guard set db (lookup rec.work_id db.worklease_leases)

unfoldable pub query_checkpoint :
    Time → Option Bytes → Duration → LeaseRecord → Database → ℕ × Database
unfolding update
query_checkpoint now state ttl rec db =
    update rec (λ r. is_null r.exit_mode)
      (λ r. record r { checkpoint = state; expires_at = now +ℤ ttl; updated_at = now }) db

unfoldable pub query_renew : Time → Duration → LeaseRecord → Database → ℕ × Database
unfolding update
query_renew now ttl rec db =
    update rec (λ r. ltb_ℤ now r.expires_at)
      (λ r. record r { expires_at = now +ℤ ttl; updated_at = now }) db

unfoldable pub query_release : Time → String → LeaseRecord → Database → ℕ × Database
unfolding update
query_release now mode rec db =
    update rec (λ r. ltb_ℤ now r.expires_at)
      (λ r. record r { exit_mode = some mode; expires_at = now -ℤ pos 1_000_000; updated_at = now })
      db

unfoldable pub select_row {ℓ} : {A : Type ℓ} → LeaseRecord → (PgRow → A) → Option PgRow → Result A
unfolding row_matches
select_row rec column none = err (sentinel no_rows)
select_row rec column (some r) = if row_matches r rec then ok (column r) else err (sentinel no_rows)

-- SELECT with the three conditions: what the row has, or no row.
unfoldable pub select {ℓ} : {A : Type ℓ} → LeaseRecord → (PgRow → A) → Database → Result A
unfolding select_row
select rec column db = select_row rec column (lookup rec.work_id db.worklease_leases)

unfoldable pub query_renew_check : LeaseRecord → Database → Result Time
unfolding select
query_renew_check rec db = select rec (λ r. r.expires_at) db

unfoldable pub query_holder_check : LeaseRecord → Database → Result ℕ
unfolding select
query_holder_check rec db = select rec (λ r. 1) db

abbrev pub row_or_none : Option PgRow → Result PgRow
row_or_none none = err (sentinel no_rows)
row_or_none (some r) = ok r

unfoldable pub query_read_checkpoint : String → Database → Result PgRow
query_read_checkpoint work_id db = row_or_none (lookup work_id db.worklease_leases)

unfoldable pub delete_row : LeaseRecord → Database → Option PgRow → ℕ × Database
unfolding row_matches
delete_row rec db none = (0, db)
delete_row rec db (some r) =
    if row_matches r rec
    then (1, record db { worklease_leases = erase rec.work_id db.worklease_leases })
    else (0, db)

unfoldable pub query_forget : LeaseRecord → Database → ℕ × Database
unfolding delete_row
query_forget rec db = delete_row rec db (lookup rec.work_id db.worklease_leases)

abbrev pub is_swept : Bool → Option String → Bool
is_swept include_expired none = include_expired
is_swept include_expired (some s) = str_eq s "retired"

-- Whether queryVacuumSweep leaves a row.
unfoldable pub outlives : Time → Duration → Bool → PgRow → Bool
outlives now retention include_expired r = not (
    ltb_ℤ r.updated_at (now -ℤ retention)
    && (ltb_ℤ r.expires_at now && is_swept include_expired r.exit_mode))

unfoldable pub swept_rows : (PgRow → Bool) → Dict PgRow → ℕ × Dict PgRow
swept_rows stays [] = (0, [])
swept_rows stays ((k, r) ∷ d) =
    let rest = swept_rows stays d in
    if stays r then (rest.0, (k, r) ∷ rest.1) else (rest.0 + 1, rest.1)

unfoldable pub query_vacuum_sweep : Time → Duration → Bool → Database → ℕ × Database
unfolding outlives swept_rows
query_vacuum_sweep now retention include_expired db =
    let (n, rows) = swept_rows (outlives now retention include_expired) db.worklease_leases in
    (n, record db { worklease_leases = rows })

-- The statements that write, as the calls send them.
pub data Statement : Type 0 where
  acquire_sent : Time → String → String → Duration → Statement
  checkpoint_sent : Time → Option Bytes → Duration → LeaseRecord → Statement
  renew_sent : Time → Duration → LeaseRecord → Statement
  release_sent : Time → ExitMode → LeaseRecord → Statement
  forget_sent : LeaseRecord → Statement
  sweep_sent : Time → Duration → Bool → Statement

-- Release sends its statement for a mode that a holder can declare only.
unfoldable pub run_statement : Statement → Database → Database
unfolding query_acquire query_checkpoint query_renew query_release query_forget query_vacuum_sweep
run_statement (acquire_sent now work_id holder_id ttl) db =
    (query_acquire now work_id holder_id ttl db).1
run_statement (checkpoint_sent now state ttl rec) db = (query_checkpoint now state ttl rec db).1
run_statement (renew_sent now ttl rec) db = (query_renew now ttl rec db).1
run_statement (release_sent now mode rec) db =
    if declarable mode then (query_release now (exit_text mode) rec db).1 else db
run_statement (forget_sent rec) db = (query_forget rec db).1
run_statement (sweep_sent now retention include_expired) db =
    (query_vacuum_sweep now retention include_expired db).1

unfoldable pub run_statements : List Statement → Database → Database
unfolding run_statement
run_statements [] db = db
run_statements (c ∷ cs) db = run_statements cs (run_statement c db)

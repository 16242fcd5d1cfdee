-- ===== src/Postgres/Table.antt =====
-- backend/postgres/schema.sql: the table of leases, its constraints and its sequence.
use worklease.Base.{ℕ, ◌-◌, ◌^◌, Bool, true, ◌&&◌, ◌||◌, Option, none, some, String, str_eq}
use worklease.Base.Dict.{Dict}
use worklease.Errors.{GoError, plain}
use worklease.Backend.{Time, Bytes}

-- A row of worklease_leases. NULL is `none`. Of its columns, acquired_at is written and not read.
pub record PgRow : Type 0 where
  pub holder_id : String
  pub fencing_token : ℕ
  pub expires_at : Time
  pub checkpoint : Option Bytes
  pub exit_mode : Option String
  pub prev_exit_mode : String
  pub prev_holder_id : Option String
  pub acquired_at : Time
  pub updated_at : Time

-- The table by its primary key, and the last value that the sequence has given out.
pub record Database : Type 0 where
  pub worklease_leases : Dict PgRow
  pub worklease_fencing_seq : ℕ

-- The constraints of the table on exit_mode and prev_exit_mode.
unfoldable pub declares_exit : String → Bool
declares_exit s = str_eq s "finished" || (str_eq s "abandoned" || str_eq s "retired")

unfoldable pub exit_mode_check : Option String → Bool
unfolding declares_exit
exit_mode_check none = true
exit_mode_check (some s) = declares_exit s

unfoldable pub prev_exit_mode_check : String → Bool
unfolding declares_exit
prev_exit_mode_check s = str_eq s "none" || (str_eq s "expired" || declares_exit s)

abbrev pub meets_checks : PgRow → Bool
meets_checks r = exit_mode_check r.exit_mode && prev_exit_mode_check r.prev_exit_mode

-- nextval: a sequence ends at 2 ^ 63 - 1, and is then an error.
abbrev pub seq_end : ℕ
seq_end = 2 ^ 63 - 1

abbrev pub exhausted : GoError
exhausted = plain "nextval: reached maximum value of sequence"

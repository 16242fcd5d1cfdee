-- ===== src/Postgres/View.antt =====
-- What the contract of backend.Backend sees of the table of the PostgreSQL backend.
use worklease.Base.{
  ℕ, ◌≤◌, ◌≡◌, ◌≢◌, refl, true, false, ◌⊎◌, inl, inr, Option, none, some, String, arith, eq_iff,
  str_eq,
}
use worklease.Base.Dict.{lookup, insert, erase, lookup-insert, lookup-erase, IsUnique}
use worklease.Errors.{GoError, wrap, is, no_rows}
use worklease.Backend.{Time, ExitMode, exit_none, exit_retired, exit_text, LeaseRecord}
use worklease.Contract.{
  Term, Leases, Setting, Unchanged, Puts, IsForeign, TellsContext, stored, Holds, IsNotHeld,
}
use worklease.Postgres.Table.{PgRow, Database, meets_checks, exit_mode_check, declares_exit}
use worklease.Postgres.Queries.{row_matches, is_null}
use worklease.Postgres.ExitText.{exit_mode_from_sql}
use worklease.Postgres.Session.{
  Fate, answered, not_run, reply_lost, uncounted, Turn, wrapped, with_ctx_err,
}
use worklease.Postgres.{text_or_empty}

abbrev pub exit_of : Option String → ExitMode
exit_of none = exit_none
exit_of (some s) = exit_mode_from_sql s

abbrev pub term_of : PgRow → Term
term_of r = record {
  holder_id = r.holder_id;
  fencing_token = r.fencing_token;
  expires_at = r.expires_at;
  state = stored r.checkpoint;
  exit_mode = exit_of r.exit_mode;
  prev_exit = exit_mode_from_sql r.prev_exit_mode;
  prev_holder_id = text_or_empty r.prev_holder_id;
  updated_at = r.updated_at;
}

abbrev pub some_term : Option PgRow → Option Term
some_term none = none
some_term (some r) = some (term_of r)

abbrev pub view : Database → Leases
view db = record {
  term = λ w. some_term (lookup w db.worklease_leases);
  issued = db.worklease_fencing_seq;
}

-- A statement has one time, that of its transaction.
abbrev pub at : Time → Option GoError → Setting
at now ctx = record { check = now; stamp = now; update = now; ctx = ctx }

-- What the table holds between statements.
pub record IsStored (db : Database) : Type 0 where
  pub checks :
      (k : String) (r : PgRow) → lookup k db.worklease_leases ≡ some r → meets_checks r ≡ true
  pub drawn :
      (k : String) (r : PgRow)
      → lookup k db.worklease_leases ≡ some r
      → r.fencing_token ≤ db.worklease_fencing_seq
  pub unique : IsUnique db.worklease_leases

pub unchanged : (db : Database) → Unchanged (view db) (view db)
unchanged db = record { same = λ w. refl; grows = omega arith }

pub burnt-Unchanged :
    (db : Database) (seq : ℕ)
    → db.worklease_fencing_seq ≤ seq
    → Unchanged (view db) (view (record db { worklease_fencing_seq = seq }))
burnt-Unchanged db seq le = record { same = λ w. refl; grows = le }

pub insert-Puts :
    (db : Database) (w : String) (r : PgRow) (seq : ℕ)
    → db.worklease_fencing_seq ≤ seq
    → Puts
        (view db)
        (view (record {
          worklease_leases = insert w r db.worklease_leases;
          worklease_fencing_seq = seq;
        }))
        w
        (some (term_of r))
insert-Puts db w r seq le = record {
  put = ground (arith, lookup-insert w w r db.worklease_leases, eq_iff w w);
  rest = λ j ne. ground (arith, lookup-insert w j r db.worklease_leases, eq_iff w j);
  grows = le;
}

pub erase-Puts :
    (db : Database) (w : String)
    → Puts (view db) (view (record db { worklease_leases = erase w db.worklease_leases })) w none
erase-Puts db w = record {
  put = ground (arith, lookup-erase w w db.worklease_leases, eq_iff w w);
  rest = λ j ne. ground (arith, lookup-erase w j db.worklease_leases, eq_iff w j);
  grows = omega arith;
}

module _ (db : Database) (rec : LeaseRecord) (r : PgRow)
    (e : lookup rec.work_id db.worklease_leases ≡ some r) where
  pub row_matches-Holds :
      row_matches r rec ≡ true → Holds rec ((view db).term rec.work_id) (term_of r)
  unfolding row_matches
  row_matches-Holds h = (rw e refl, ground (arith, eq_iff r.holder_id rec.holder_id), ground arith)

  pub row_matches-IsNotHeld : row_matches r rec ≡ false → IsNotHeld rec ((view db).term rec.work_id)
  unfolding row_matches
  row_matches-IsNotHeld h = rw e (ground (arith, eq_iff r.holder_id rec.holder_id))

-- The three exits that a holder can declare.
pub declares_exit-cases :
    (s : String) → declares_exit s ≡ true → (s ≡ "finished") ⊎ ((s ≡ "abandoned") ⊎ (s ≡ "retired"))
unfolding declares_exit
declares_exit-cases s h =
    ground (arith, eq_iff s "finished", eq_iff s "abandoned", eq_iff s "retired")

pub declared-not_none : (s : String) → declares_exit s ≡ true → exit_mode_from_sql s ≢ exit_none
unfolding exit_mode_from_sql exit_text
declared-not_none s h = elim (declares_exit-cases s h) [
  | inl e ↦ rw e (ground arith)
  | inr (inl e) ↦ rw e (ground arith)
  | inr (inr e) ↦ rw e (ground arith)
]

pub declared-retired :
    (s : String)
    → declares_exit s ≡ true
    → ((exit_mode_from_sql s ≡ exit_retired) × (str_eq s "retired" ≡ true))
      ⊎ ((exit_mode_from_sql s ≢ exit_retired) × (str_eq s "retired" ≡ false))
unfolding exit_mode_from_sql exit_text
declared-retired s h = elim (declares_exit-cases s h) [
  | inl e ↦ rw e (inr (ground arith, refl))
  | inr (inl e) ↦ rw e (inr (ground arith, refl))
  | inr (inr e) ↦ rw e (inl (refl, refl))
]

pub null-exit :
    (o : Option String)
    → exit_mode_check o ≡ true
    → ((is_null o ≡ true) × (exit_of o ≡ exit_none))
      ⊎ ((is_null o ≡ false) × (exit_of o ≢ exit_none))
unfolding exit_mode_check
null-exit none h = inl (refl, refl)
null-exit (some s) h = inr (refl, declared-not_none s h)

-- An error of the driver or of the database.
pub record IsDriver (e : GoError) : Type 0 where
  pub foreign : IsForeign e
  pub not_empty : is e no_rows ≡ false

abbrev pub IsFate : Fate → Type 0
IsFate answered = Unit {0}
IsFate (not_run e) = IsDriver e
IsFate (reply_lost e) = IsDriver e
IsFate (uncounted e) = IsDriver e

abbrev pub IsContext : Option GoError → Type 0
IsContext none = Unit {0}
IsContext (some e) = IsForeign e

pub record IsTurn (t : Turn) : Type 0 where
  pub fate : IsFate t.fate
  pub ctx : IsContext t.ctx

pub wrapped-IsForeign :
    (m : String) (t : Turn) (e : GoError) → IsTurn t → IsForeign e → IsForeign (wrapped m t e)
unfolding is with_ctx_err
wrapped-IsForeign m t e h f = at_ctx t.ctx h.ctx
  where
    at_ctx : (o : Option GoError) → IsContext o → IsForeign (wrap m (with_ctx_err o e))
    at_ctx none c = ground arith
    at_ctx (some x) c = ground arith

pub wrapped-TellsContext :
    (m : String) (t : Turn) (e : GoError) → TellsContext t.ctx (wrapped m t e)
unfolding is with_ctx_err
wrapped-TellsContext m t e = at_ctx t.ctx
  where
    at_ctx : (o : Option GoError) → TellsContext o (wrap m (with_ctx_err o e))
    at_ctx none = tt
    at_ctx (some c) = λ k h. ground arith

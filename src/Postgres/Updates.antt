-- ===== src/Postgres/Updates.antt =====
-- The cases of the statements that a record selects the row of.
use worklease.Base.{
  ℕ, ◌+◌, ◌≤◌, ◌<◌, ◌≡◌, refl, Bool, true, false, inl, inr, Bool-cases, ltb, Option, none, some,
  String, arith,
}
use worklease.Base.Dict.{lookup, insert, erase}
use worklease.Base.Int.{◌≤ℤ◌, ltb_ℤ}
use worklease.Errors.{Result, ok, err, sentinel, no_rows}
use worklease.Backend.{Time, Duration, LeaseRecord}
use worklease.Postgres.Table.{PgRow, Database, seq_end, exhausted}
use worklease.Postgres.Queries.{
  on_conflict, row_matches, update, update_row, select, select_row, delete_row, store, acquired_row,
  query_acquire, query_forget,
}
use worklease.Postgres.View.{view, term_of, some_term, row_matches-Holds, row_matches-IsNotHeld}
use worklease.Contract.{Holds, IsNotHeld, IsFree}

module _ (rec : LeaseRecord) (db : Database) where
  -- UPDATE affects no row, or the row that its conditions select.
  pub update_cases {ℓ} :
      (P : ℕ × Database → Type ℓ) (guard : PgRow → Bool) (set : PgRow → PgRow)
      → (IsNotHeld rec ((view db).term rec.work_id) → P (0, db))
      → ((r : PgRow)
          → lookup rec.work_id db.worklease_leases ≡ some r
          → Holds rec ((view db).term rec.work_id) (term_of r)
          → guard r ≡ false
          → P (0, db))
      → ((r : PgRow)
          → lookup rec.work_id db.worklease_leases ≡ some r
          → Holds rec ((view db).term rec.work_id) (term_of r)
          → guard r ≡ true
          → P (1, record db { worklease_leases = insert rec.work_id (set r) db.worklease_leases }))
      → P (update rec guard set db)
  unfolding update update_row
  update_cases P guard set other closed open' = at_row (lookup rec.work_id db.worklease_leases) refl
    where
      at_row :
          (o : Option PgRow)
          → lookup rec.work_id db.worklease_leases ≡ o
          → P (update_row rec guard set db o)
      at_row none e = other (rw e tt)
      at_row (some r) e = elim (Bool-cases (row_matches r rec)) [
        | inl h ↦ elim (Bool-cases (guard r)) [
          | inl g ↦ rw (h, g) (open' r e (row_matches-Holds db rec r e h) g)
          | inr g ↦ rw (h, g) (closed r e (row_matches-Holds db rec r e h) g)
        ]
        | inr h ↦ rw h (other (row_matches-IsNotHeld db rec r e h))
      ]

  -- DELETE with the same conditions.
  pub forget_cases {ℓ} :
      (P : ℕ × Database → Type ℓ)
      → (IsNotHeld rec ((view db).term rec.work_id) → P (0, db))
      → ((r : PgRow)
          → Holds rec ((view db).term rec.work_id) (term_of r)
          → P (1, record db { worklease_leases = erase rec.work_id db.worklease_leases }))
      → P (query_forget rec db)
  unfolding query_forget delete_row
  forget_cases P other drops = at_row (lookup rec.work_id db.worklease_leases) refl
    where
      at_row :
          (o : Option PgRow) → lookup rec.work_id db.worklease_leases ≡ o → P (delete_row rec db o)
      at_row none e = other (rw e tt)
      at_row (some r) e = elim (Bool-cases (row_matches r rec)) [
        | inl h ↦ rw h (drops r (row_matches-Holds db rec r e h))
        | inr h ↦ rw h (other (row_matches-IsNotHeld db rec r e h))
      ]

  -- SELECT with the same conditions.
  pub select_cases {ℓ ℓ'} :
      {A : Type ℓ} (P : Result A → Type ℓ') (column : PgRow → A)
      → (IsNotHeld rec ((view db).term rec.work_id) → P (err (sentinel no_rows)))
      → ((r : PgRow) → Holds rec ((view db).term rec.work_id) (term_of r) → P (ok (column r)))
      → P (select rec column db)
  unfolding select select_row
  select_cases P column other found = at_row (lookup rec.work_id db.worklease_leases) refl
    where
      at_row :
          (o : Option PgRow)
          → lookup rec.work_id db.worklease_leases ≡ o
          → P (select_row rec column o)
      at_row none e = other (rw e tt)
      at_row (some r) e = elim (Bool-cases (row_matches r rec)) [
        | inl h ↦ rw h (found r (row_matches-Holds db rec r e h))
        | inr h ↦ rw h (other (row_matches-IsNotHeld db rec r e h))
      ]

-- Acquire's statement fails at the end of the sequence, finds an unexpired row, or stores a row
-- with a new token.
pub acquire_cases {ℓ} :
    (P : Result (ℕ × Time) × Database → Type ℓ) (now : Time) (w h : String) (ttl : Duration)
    (db : Database)
    → ((seq : ℕ)
        → db.worklease_fencing_seq ≤ seq
        → P (err exhausted, record db { worklease_fencing_seq = seq }))
    → ((r : PgRow)
        → lookup w db.worklease_leases ≡ some r
        → now ≤ℤ r.expires_at
        → P (
          err (sentinel no_rows),
          record db { worklease_fencing_seq = db.worklease_fencing_seq + 1 },
        ))
    → ((token : ℕ) (o : Option PgRow)
        → db.worklease_fencing_seq < token
        → lookup w db.worklease_leases ≡ o
        → IsFree now (some_term o)
        → P (store w (acquired_row now h ttl token o) db.worklease_leases))
    → P (query_acquire now w h ttl db)
unfolding query_acquire on_conflict
acquire_cases P now w h ttl db fails held stores =
    elim (Bool-cases (ltb db.worklease_fencing_seq seq_end)) [
      | inl room ↦ rw room (at_row (lookup w db.worklease_leases) refl)
      | inr full ↦ rw full (fails db.worklease_fencing_seq (omega arith))
    ]
  where
    seq : ℕ
    seq = db.worklease_fencing_seq + 1

    at_row :
        (o : Option PgRow)
        → lookup w db.worklease_leases ≡ o
        → P (on_conflict now w h ttl (record db { worklease_fencing_seq = seq }) o)
    at_row none e = stores seq none (omega arith) e tt
    at_row (some r) e = elim (Bool-cases (ltb_ℤ r.expires_at now)) [
      | inl late ↦ elim (Bool-cases (ltb seq seq_end)) [
        | inl room ↦ rw (late, room) (stores (seq + 1) (some r) (omega arith) e (ground arith))
        | inr full ↦ rw (late, full) (fails seq (omega arith))
      ]
      | inr live ↦ rw live (held r e (ground arith))
    ]

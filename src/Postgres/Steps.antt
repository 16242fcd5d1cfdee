-- ===== src/Postgres/Steps.antt =====
-- The statements of the PostgreSQL backend as steps of the contract of backend.Backend.
use worklease.Base.{
  ℕ, ◌≡◌, ◌≢◌, refl, Bool, true, false, ◌⊎◌, inl, inr, Option, none, some, String, arith, ◌∙◌,
}
use worklease.Base.Dict.{lookup, insert}
use worklease.Base.Int.{ltb_ℤ}
use worklease.Errors.{Result, ok, err, sentinel}
use worklease.Backend.{Time, Duration, ExitMode, exit_text, declarable, LeaseRecord}
use worklease.Postgres.Table.{PgRow, Database, meets_checks, exit_mode_check, exhausted}
use worklease.Postgres.Queries.{is_null, store, acquired_row, coalesce, query_acquire}
use worklease.Postgres.View.{view, term_of, some_term}
use worklease.Contract.{Holds}
use worklease.Base.Int.{pos, ◌+ℤ◌, ◌-ℤ◌, -ℤ_parts}
use worklease.Errors.{is, listed, chain, number, lease_expired, GoError}
use worklease.Backend.{Bytes, exit_none}
use worklease.Contract.{
  Term, Leases, Request, acquires, checkpoints, renews, releases, Reply, granted, done, failed,
  Step, grants, finds_held, saves, saves_too_late, extends, extends_too_late, exits, exits_too_late,
  refused, Inherits, Leaves, LastsFor, IsForeign, WritesWith, stored, Puts,
}
use worklease.Postgres.Session.{Turn}
use worklease.Postgres.ExitText.{exit_mode_from_sql, exit_text_roundtrip}
use worklease.Postgres.{leased}
use worklease.Postgres.Updates.{acquire_cases}
use worklease.Postgres.View.{
  IsStored, IsTurn, at, exit_of, unchanged, burnt-Unchanged, insert-Puts, null-exit,
  declared-not_none, wrapped-IsForeign, wrapped-TellsContext,
}
use worklease.Postgres.Invariant.{acquired_row-token, and_left}

abbrev pub lease_reply : Result LeaseRecord → Reply
lease_reply (ok rec) = granted rec
lease_reply (err e) = failed e

abbrev pub reply_of : Option GoError → Reply
reply_of none = done
reply_of (some e) = failed e

exit-Leaves :
    (r : PgRow)
    → exit_mode_check r.exit_mode ≡ true
    → Leaves (term_of r) (exit_mode_from_sql (coalesce r.exit_mode "expired"))
unfolding exit_mode_from_sql exit_text exit_mode_check
exit-Leaves r c = at_column r.exit_mode c
  where
    at_column :
        (x : Option String)
        → exit_mode_check x ≡ true
        → ((exit_of x ≡ exit_none) × (exit_mode_from_sql (coalesce x "expired") ≡ 4))
          ⊎ ((exit_of x ≢ exit_none) × (exit_mode_from_sql (coalesce x "expired") ≡ exit_of x))
    at_column none d = inl (refl, refl)
    at_column (some s) d = inr (declared-not_none s d, refl)

acquired_row-Inherits :
    (now : Time) (h : String) (ttl : Duration) (token : ℕ) (o : Option PgRow)
    → ((r : PgRow) → o ≡ some r → meets_checks r ≡ true)
    → Inherits (some_term o) (term_of (acquired_row now h ttl token o))
unfolding acquired_row exit_mode_from_sql exit_text
acquired_row-Inherits now h ttl token none c = (refl, refl, refl)
acquired_row-Inherits now h ttl token (some r) c =
    (refl, exit-Leaves r (and_left _ _ (c r refl)), refl)

acquired_row-parts :
    (now : Time) (h : String) (ttl : Duration) (token : ℕ) (o : Option PgRow)
    → let k = acquired_row now h ttl token o in
      (k.holder_id ≡ h) × (exit_of k.exit_mode ≡ exit_none) × (k.expires_at ≡ now +ℤ ttl)
unfolding acquired_row
acquired_row-parts now h ttl token none = (refl, refl, refl)
acquired_row-parts now h ttl token (some r) = (refl, refl, refl)

exhausted-IsForeign : IsForeign exhausted
unfolding is
exhausted-IsForeign = record {
  not_fenced = refl;
  not_held = refl;
  not_expired = refl;
  not_invalid = refl;
}

module _ (db : Database) (v : IsStored db) where
  pub query_acquire-Step :
      (t : Turn) (w h : String) (ttl rounded : Duration)
      → IsTurn t
      → LastsFor t.now ttl (t.now +ℤ rounded)
      → let z = query_acquire t.now w h rounded db in
        Step
          (at t.now t.ctx)
          (view db)
          (view z.1)
          (acquires w h ttl)
          (lease_reply (leased t w h z.0))
  unfolding store is listed chain number
  query_acquire-Step t w h ttl rounded turn lasts =
      acquire_cases
        (λ z.
          Step (at t.now t.ctx) (view db) (view z.1) (acquires w h ttl)
            (lease_reply (leased t w h z.0)))
        t.now w h rounded db
        (λ seq le.
          refused _ _ tt (wrapped-IsForeign _ t exhausted turn exhausted-IsForeign)
            (wrapped-TellsContext _ t exhausted) (burnt-Unchanged db seq le))
        (λ r e live.
          finds_held w h ttl (term_of r) (rw e refl) live (burnt-Unchanged db _ (omega arith)))
        (λ token o fresh e free.
          let k = acquired_row t.now h rounded token o in
          let same = acquired_row-token t.now h rounded token o in
          let parts = acquired_row-parts t.now h rounded token o in
          grants w h ttl (term_of k) _ (rw e free)
            (rw e (acquired_row-Inherits t.now h rounded token o (λ r x. v.checks w r (e ∙ x))))
            parts.0 parts.1 (rw parts.2 lasts) (omega (arith, same)) refl
            (insert-Puts db w k _ (omega (arith, same))) (rw parts.0 refl))

Puts-same :
    {s s' : Leases} {w : String} {o o' : Option Term} → o ≡ o' → Puts s s' w o → Puts s s' w o'
Puts-same e h = rw (← e) h

-- What an UPDATE that a record selects the row of makes of a row that it matches: with its guard
-- closed the call comes too late, and with its guard open it takes effect.
pub record Decides (now : Time) (ctx : Option GoError) (rec : LeaseRecord) (q : Request)
    (db : Database) (guard : PgRow → Bool) (set : PgRow → PgRow) : Type 0 where
  pub uses : WritesWith rec q
  pub too_late :
      (r : PgRow)
      → lookup rec.work_id db.worklease_leases ≡ some r
      → Holds rec ((view db).term rec.work_id) (term_of r)
      → guard r ≡ false
      → Step (at now ctx) (view db) (view db) q (failed (sentinel lease_expired))
  pub in_time :
      (r : PgRow)
      → lookup rec.work_id db.worklease_leases ≡ some r
      → Holds rec ((view db).term rec.work_id) (term_of r)
      → guard r ≡ true
      → Step
          (at now ctx)
          (view db)
          (view (record db { worklease_leases = insert rec.work_id (set r) db.worklease_leases }))
          q
          done

module _ (db : Database) (v : IsStored db) (now : Time) (ctx : Option GoError)
    (rec : LeaseRecord) where
  column_of :
      (r : PgRow)
      → lookup rec.work_id db.worklease_leases ≡ some r
      → ((is_null r.exit_mode ≡ true) × (exit_of r.exit_mode ≡ exit_none))
        ⊎ ((is_null r.exit_mode ≡ false) × (exit_of r.exit_mode ≢ exit_none))
  column_of r e = null-exit r.exit_mode (and_left _ _ (v.checks rec.work_id r e))

  pub checkpoint-Decides :
      (state column : Option Bytes) (ttl rounded : Duration)
      → stored column ≡ stored state
      → LastsFor now ttl (now +ℤ rounded)
      → Decides now ctx rec
          (checkpoints rec state ttl)
          db
          (λ r. is_null r.exit_mode)
          (λ r. record r { checkpoint = column; expires_at = now +ℤ rounded; updated_at = now })
  checkpoint-Decides state column ttl rounded same lasts = record {
    uses = refl;
    too_late = λ r e h g.
        saves_too_late rec state ttl (term_of r) h (ground (arith, column_of r e)) (unchanged db);
    in_time = λ r e h g.
        saves rec state ttl (term_of r) (now +ℤ rounded) h (ground (arith, column_of r e)) lasts (
          rw (← same) (
            insert-Puts db rec.work_id
              (record r { checkpoint = column; expires_at = now +ℤ rounded; updated_at = now })
              db.worklease_fencing_seq (omega arith)));
  }

  pub renew-Decides :
      (ttl rounded : Duration)
      → LastsFor now ttl (now +ℤ rounded)
      → Decides now ctx rec
          (renews rec ttl)
          db
          (λ r. ltb_ℤ now r.expires_at)
          (λ r. record r { expires_at = now +ℤ rounded; updated_at = now })
  renew-Decides ttl rounded lasts = record {
    uses = refl;
    too_late = λ r e h g. extends_too_late rec ttl (term_of r) h (ground arith) (unchanged db);
    in_time = λ r e h g. extends rec ttl (term_of r) (now +ℤ rounded) h (ground arith) lasts (
        insert-Puts db rec.work_id (record r { expires_at = now +ℤ rounded; updated_at = now })
          db.worklease_fencing_seq (omega arith));
  }

  pub release-Decides :
      (mode : ExitMode)
      → declarable mode ≡ true
      → Decides now ctx rec
          (releases rec mode)
          db
          (λ r. ltb_ℤ now r.expires_at)
          (λ r. record r {
            exit_mode = some (exit_text mode);
            expires_at = now -ℤ pos 1_000_000;
            updated_at = now;
          })
  release-Decides mode d = record {
    uses = (refl, d);
    too_late = λ r e h g. exits_too_late rec mode (term_of r) d h (ground arith) (unchanged db);
    in_time = λ r e h g.
        exits rec mode (term_of r) (now -ℤ pos 1_000_000) d h (ground arith)
          (omega (arith, -ℤ_parts now (pos 1_000_000)))
          (Puts-same (rw (exit_text_roundtrip mode (ground arith)) refl) (
            insert-Puts db rec.work_id
              (record r {
                exit_mode = some (exit_text mode);
                expires_at = now -ℤ pos 1_000_000;
                updated_at = now;
              })
              db.worklease_fencing_seq (omega arith)));
  }

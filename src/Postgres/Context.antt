-- ===== src/Postgres/Context.antt =====
-- What the errors of the PostgreSQL backend tell about a context that is done.
use worklease.Base.{
  ℕ, zero, suc, ◌≡◌, refl, true, ◌⊎◌, inl, inr, Bool-cases, some, String, List, arith, ◌==◌,
}
use worklease.Errors.{
  GoError, Sentinel, sentinel, is, Result, ok, err, fenced, lease_held, lease_expired,
  invalid_exit_mode, no_rows,
}
use worklease.Errors.Laws.{is_self}
use worklease.Backend.{Time, Duration, LeaseRecord, exit_text, declarable}
use worklease.Contract.{
  Request, acquires, checkpoints, renews, releases, reads, forgets, sweeps, Reply, granted, read,
  swept, done, failed,
}
use worklease.Postgres.Table.{PgRow, Database}
use worklease.Postgres.Queries.{
  Statement, query_checkpoint, query_renew, query_renew_check, query_holder_check, query_release,
}
use worklease.Postgres.Interval.{interval}
use worklease.Postgres.Session.{Turn, exec, with_ctx_err, wrapped, rows_affected, classify, settle}
use worklease.Postgres.{
  leased, state_arg, acquire, checkpoint, renew, release, release_valid, found_row, read_checkpoint,
  deleted, forget, sweep,
}
use worklease.Postgres.Steps.{reply_of, lease_reply}
use worklease.Postgres.Answers.{answer}
use worklease.Postgres.Methods.{read_reply, swept_reply}

-- The errors of the contract itself.
abbrev pub IsOwn : GoError → Type 0
IsOwn e =
    (e ≡ sentinel fenced)
    ⊎ ((e ≡ sentinel lease_held)
        ⊎ ((e ≡ sentinel lease_expired) ⊎ (e ≡ sentinel invalid_exit_mode)))

module _ (s : Sentinel) where
  -- An error is one of the contract's own, or matches this one.
  abbrev pub Relays : Reply → Type 0
  Relays (failed e) = IsOwn e ⊎ (is e s ≡ true)
  Relays (granted rec) = Unit {0}
  Relays (read cp) = Unit {0}
  Relays (swept n) = Unit {0}
  Relays done = Unit {0}

  abbrev MatchesIfErr {ℓ} : {A : Type ℓ} → Result A → Type 0
  MatchesIfErr (ok a) = Unit {0}
  MatchesIfErr (err e) = is e s ≡ true

  wrapped_matches :
      (m : String) (t : Turn) (e : GoError)
      → t.ctx ≡ some (sentinel s)
      → is (wrapped m t e) s ≡ true
  unfolding with_ctx_err is
  wrapped_matches m t e done' = rw done' (ground (arith, is_self s))

  rows_affected-Matches :
      (m : String) (t : Turn) (r : Result (Result ℕ))
      → t.ctx ≡ some (sentinel s)
      → MatchesIfErr (rows_affected m t r)
  rows_affected-Matches m t (ok (ok n)) d = tt
  rows_affected-Matches m t (ok (err e)) d = wrapped_matches m t e d
  rows_affected-Matches m t (err e) d = wrapped_matches m t e d

  classify-Relays {ℓ} :
      {A : Type ℓ} (m : String) (t : Turn) (r : Result A)
      → t.ctx ≡ some (sentinel s)
      → Relays (failed (classify m t r))
  unfolding classify
  classify-Relays m t (ok a) d = inl (inr (inr (inl refl)))
  classify-Relays m t (err e) d = elim (Bool-cases (is e no_rows)) [
    | inl h ↦ rw h (inl (inl refl))
    | inr h ↦ rw h (inr (wrapped_matches m t e d))
  ]

  settle-Relays {ℓ} :
      {A : Type ℓ} (m : String) (between : List Statement) (t : Turn) (check : Database → Result A)
      (counted : Result ℕ) (db : Database)
      → MatchesIfErr counted
      → t.ctx ≡ some (sentinel s)
      → Relays (reply_of (settle m between t check counted db).0)
  unfolding settle
  settle-Relays m between t check (err e) db h d = inr h
  settle-Relays m between t check (ok (suc n)) db h d = tt
  settle-Relays m between t check (ok zero) db h d = classify-Relays m t _ d

  -- Checkpoint, Renew and Release: an UPDATE, and a SELECT if it affects no row.
  update-Relays {ℓ} :
      {A : Type ℓ} (m : String) (between : List Statement) (t t' : Turn)
      (check : Database → Result A) (statement : Database → ℕ × Database) (db : Database)
      → t.ctx ≡ some (sentinel s)
      → t'.ctx ≡ some (sentinel s)
      → let z = exec t.fate statement db in
        Relays (reply_of (settle m between t' check (rows_affected m t z.0) z.1).0)
  update-Relays m between t t' check statement db d d' =
      let z = exec t.fate statement db in
      settle-Relays m between t' check (rows_affected m t z.0) z.1 (rows_affected-Matches m t z.0 d)
        d'

  leased-Relays :
      (t : Turn) (w h : String) (r : Result (ℕ × Time))
      → t.ctx ≡ some (sentinel s)
      → Relays (lease_reply (leased t w h r))
  leased-Relays t w h (ok (token, expires_at)) d = tt
  leased-Relays t w h (err e) d = elim (Bool-cases (is e no_rows)) [
    | inl x ↦ rw x (inl (inr (inl refl)))
    | inr x ↦ rw x (inr (wrapped_matches _ t e d))
  ]

  found_row-Relays :
      (t : Turn) (rec : LeaseRecord) (r : Result PgRow)
      → t.ctx ≡ some (sentinel s)
      → Relays (read_reply (found_row t rec r))
  unfolding found_row
  found_row-Relays t rec (ok r) d = elim (Bool-cases (r.fencing_token == rec.fencing_token)) [
    | inl x ↦ rw x tt
    | inr x ↦ rw x (inl (inl refl))
  ]
  found_row-Relays t rec (err e) d = elim (Bool-cases (is e no_rows)) [
    | inl x ↦ rw x (inl (inl refl))
    | inr x ↦ rw x (inr (wrapped_matches _ t e d))
  ]

  deleted-Relays : (r : Result ℕ) → MatchesIfErr r → Relays (reply_of (deleted r))
  unfolding deleted
  deleted-Relays (ok zero) h = inl (inl refl)
  deleted-Relays (ok (suc n)) h = tt
  deleted-Relays (err e) h = inr h

  swept-Relays : (r : Result ℕ) → MatchesIfErr r → Relays (swept_reply r)
  swept-Relays (ok n) h = tt
  swept-Relays (err e) h = inr h

  -- Once ctx is done, with ctx.Err() this error at every statement of a call, the call succeeds, or
  -- its error is ErrFenced, ErrLeaseHeld, ErrLeaseExpired or ErrInvalidExitMode, or it matches
  -- ctx.Err() with errors.Is, whatever error the driver has returned.
  pub postgres_tells_context :
      (seconds : Duration → Duration) (t t' : Turn) (between : List Statement) (q : Request)
      (db : Database)
      → t.ctx ≡ some (sentinel s)
      → t'.ctx ≡ some (sentinel s)
      → Relays (answer seconds t between t' q db).0
  unfolding acquire checkpoint renew release release_valid read_checkpoint forget sweep
  postgres_tells_context seconds t t' between (acquires w h ttl) db d d' = leased-Relays t w h _ d
  postgres_tells_context seconds t t' between (checkpoints rec state ttl) db d d' =
      update-Relays _ between t t' (query_holder_check rec)
        (query_checkpoint t.now (state_arg state) (interval ttl) rec) db d d'
  postgres_tells_context seconds t t' between (renews rec ttl) db d d' =
      update-Relays _ between t t' (query_renew_check rec) (query_renew t.now (interval ttl) rec) db
        d d'
  postgres_tells_context seconds t t' between (releases rec mode) db d d' =
      elim (Bool-cases (declarable mode)) [
        | inl x ↦ rw x (
            update-Relays _ between t t' (query_holder_check rec)
              (query_release t.now (exit_text mode) rec) db d d')
        | inr x ↦ rw x (inl (inr (inr (inr refl))))
      ]
  postgres_tells_context seconds t t' between (reads rec) db d d' = found_row-Relays t rec _ d
  postgres_tells_context seconds t t' between (forgets rec) db d d' =
      deleted-Relays _ (rows_affected-Matches _ t _ d)
  postgres_tells_context seconds t t' between (sweeps opts) db d d' =
      swept-Relays _ (rows_affected-Matches _ t _ d)

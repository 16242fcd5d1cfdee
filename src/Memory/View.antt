-- ===== src/Memory/View.antt =====
-- What the contract of backend.Backend sees of the in-memory backend.
use worklease.Base.{
  ℕ, ◌≤◌, ◌≡◌, refl, true, false, inl, inr, Bool-cases, Option, none, some, String, [], ◌∷◌, arith,
  eq_iff,
}
use worklease.Base.Int.{pos, ◌+ℤ◌, +ℤ_parts}
use worklease.Base.Dict.{lookup, insert, erase, lookup-insert, lookup-erase}
use worklease.Errors.{GoError, Result, ok, err, is, wrap}
use worklease.Backend.{Time, Duration, Bytes, Checkpoint, LeaseRecord}
use worklease.Memory.{
  Row, MemoryBackend, Readings, held_by, normalize, commit, if_held, Outcome, refuse, write,
}
use worklease.Contract.{
  Term, Leases, Request, Reply, granted, read, swept, done, failed, Setting, Unchanged, Puts,
  IsForeign, TellsContext, Step, is_fenced, LastsFor, IsNotHeld, WritesWith, Holds, stored,
}

abbrev pub term_of : Row → Term
term_of r = record {
  holder_id = r.holder_id;
  fencing_token = r.fencing_token;
  expires_at = r.expires_at;
  state = r.checkpoint;
  exit_mode = r.exit_mode;
  prev_exit = r.prev_exit;
  prev_holder_id = r.prev_holder_id;
  updated_at = r.updated_at;
}

abbrev pub some_term : Option Row → Option Term
some_term none = none
some_term (some r) = some (term_of r)

-- What the contract sees of the backend.
abbrev pub view : MemoryBackend → Leases
view m = record { term = λ w. some_term (lookup w m.records); issued = m.seq }

abbrev pub setting : Option GoError → Readings → Setting
setting ctx now = record { check = now.check; stamp = now.stamp; update = now.update; ctx = ctx }

abbrev pub reply_of : Option GoError → Reply
reply_of none = done
reply_of (some e) = failed e

abbrev pub lease_reply : Result LeaseRecord → Reply
lease_reply (ok rec) = granted rec
lease_reply (err e) = failed e

abbrev pub read_reply : Result Checkpoint → Reply
read_reply (ok cp) = read cp
read_reply (err e) = failed e

abbrev pub swept_reply : Result ℕ → Reply
swept_reply (ok n) = swept n
swept_reply (err e) = failed e

-- Where ctx.Err() is not nil, it is an error of package context.
abbrev pub IsContext : Option GoError → Type 0
IsContext none = Unit {0}
IsContext (some e) = IsForeign e

pub wrap-IsForeign : (m : String) (e : GoError) → IsForeign e → IsForeign (wrap m e)
unfolding is
wrap-IsForeign m e h = ground arith

pub wrap-TellsContext : (m : String) (e : GoError) → TellsContext (some e) (wrap m e)
unfolding is
wrap-TellsContext m e = λ k h. h

pub unchanged : (m : MemoryBackend) → Unchanged (view m) (view m)
unchanged m = record { same = λ w. refl; grows = omega arith }

pub insert-Puts :
    (m : MemoryBackend) (w : String) (r : Row) (seq : ℕ)
    → m.seq ≤ seq
    → Puts
        (view m)
        (view (record { records = insert w r m.records; seq = seq }))
        w
        (some (term_of r))
insert-Puts m w r seq le = record {
  put = ground (arith, lookup-insert w w r m.records, eq_iff w w);
  rest = λ j ne. ground (arith, lookup-insert w j r m.records, eq_iff w j);
  grows = le;
}

pub erase-Puts :
    (m : MemoryBackend) (w : String)
    → Puts (view m) (view (record m { records = erase w m.records })) w none
erase-Puts m w = record {
  put = ground (arith, lookup-erase w w m.records, eq_iff w w);
  rest = λ j ne. ground (arith, lookup-erase w j m.records, eq_iff w j);
  grows = omega arith;
}

pub exactly-LastsFor : (from : Time) (ttl : Duration) → LastsFor from ttl (from +ℤ ttl)
exactly-LastsFor from ttl = omega (arith, +ℤ_parts (from +ℤ ttl) (pos 1000))

module _ (m : MemoryBackend) (rec : LeaseRecord) (now : Setting) where
  -- The guard of Checkpoint, Renew, Release and Forget.
  pub held_by-Holds :
      (r : Row)
      → lookup rec.work_id m.records ≡ some r
      → held_by r rec ≡ true
      → Holds rec ((view m).term rec.work_id) (term_of r)
  unfolding held_by
  held_by-Holds r e h = (rw e refl, ground (arith, eq_iff r.holder_id rec.holder_id), ground arith)

  pub held_by-IsNotHeld :
      (r : Row)
      → lookup rec.work_id m.records ≡ some r
      → held_by r rec ≡ false
      → IsNotHeld rec ((view m).term rec.work_id)
  unfolding held_by
  held_by-IsNotHeld r e h = rw e (ground (arith, eq_iff r.holder_id rec.holder_id))

  -- A call that looks its row up, compares the holder and the token, and then writes that row.
  pub commit-Step :
      (q : Request) (k : Row → Outcome)
      → WritesWith rec q
      → ((r : Row) (e : GoError)
          → Holds rec ((view m).term rec.work_id) (term_of r)
          → k r ≡ refuse e
          → Step now (view m) (view m) q (failed e))
      → ((r r' : Row)
          → Holds rec ((view m).term rec.work_id) (term_of r)
          → k r ≡ write r'
          → Step now
              (view m)
              (view (record m { records = insert rec.work_id r' m.records }))
              q
              done)
      → let z = commit rec.work_id m (if_held (lookup rec.work_id m.records) rec k) in
        Step now (view m) (view z.1) q (reply_of z.0)
  commit-Step q k uses refuses writes = at_row (lookup rec.work_id m.records) refl
    where
      at_outcome :
          (r : Row)
          → Holds rec ((view m).term rec.work_id) (term_of r)
          → (x : Outcome) → k r ≡ x
          → Step now
              (view m)
              (view (commit rec.work_id m x).1)
              q
              (reply_of (commit rec.work_id m x).0)
      at_outcome r h (refuse e) c = refuses r e h c
      at_outcome r h (write r') c = writes r r' h c

      at_row :
          (o : Option Row)
          → lookup rec.work_id m.records ≡ o
          → Step now
              (view m)
              (view (commit rec.work_id m (if_held o rec k)).1)
              q
              (reply_of (commit rec.work_id m (if_held o rec k)).0)
      at_row none e = is_fenced rec q uses (rw e tt) (unchanged m)
      at_row (some r) e = elim (Bool-cases (held_by r rec)) [
        | inl h ↦ rw h (at_outcome r (held_by-Holds r e h) (k r) refl)
        | inr h ↦ rw h (is_fenced rec q uses (held_by-IsNotHeld r e h) (unchanged m))
      ]

pub stored-normalize : (state : Option Bytes) → stored state ≡ normalize state
stored-normalize none = refl
stored-normalize (some []) = refl
stored-normalize (some (b ∷ bs)) = refl

pub puts :
    {s s' : Leases} {w : String} {k : Term} (r : Row)
    → term_of r ≡ k
    → Puts s s' w (some (term_of r))
    → Puts s s' w (some k)
puts r e h = rw (← e) h

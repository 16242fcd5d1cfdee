-- ===== src/Memory/Fencing.antt =====
-- Fencing in the in-memory backend: once a lease has a successor, or its row is gone, every call
-- with its record is refused, whatever calls come in between.
use worklease.Base.{
  ◌+◌, ◌≤◌, ◌<◌, ◌^◌, ◌≡◌, refl, ap, subst, false, Bool-cases, inl, inr, Option, none, some, String,
  List, arith, length, eq_iff, if◌then◌else◌,
}
use worklease.Base.Dict.{lookup, insert, lookup-insert}
use worklease.Errors.{ok, err, sentinel, fenced, invalid_exit_mode}
use worklease.Backend.{Time, Duration, Bytes, ExitMode, LeaseRecord, declarable}
use worklease.Memory.{
  Row, MemoryBackend, Readings, acquire, checkpoint, renew, release, forget, read_checkpoint,
  held_by, new_row, next_token, grant, granted, is_live, Outcome, refuse, if_held, read_row,
  forget_row,
}
use worklease.Memory.Calls.{Call, acquires, step, run}
use worklease.Memory.Invariant.{IsValid, IsOrdered, new_row-fencing_token}
use worklease.Memory.History.{seq-step, step-IsValid, AreTimely}
use worklease.Memory.Superseded.{IsSuperseded, run-IsSuperseded}

module _ (rec : LeaseRecord) where
  -- What a superseded holder gets from each call with its record: ErrFenced (from
  -- Release with no valid mode ErrInvalidExitMode), and nothing changes.
  pub record IsFencedOff (m : MemoryBackend) : Type 0 where
    pub no_checkpoint :
        (now : Readings) (state : Option Bytes) (ttl : Duration)
        → checkpoint none now rec state ttl m ≡ (some (sentinel fenced), m)
    pub no_renew :
        (now : Readings) (ttl : Duration) → renew none now rec ttl m ≡ (some (sentinel fenced), m)
    pub no_release :
        (now : Readings) (mode : ExitMode)
        → release none now rec mode m
          ≡ (some (sentinel (if declarable mode then fenced else invalid_exit_mode)), m)
    pub no_read : read_checkpoint none rec m ≡ err (sentinel fenced)
    pub no_forget : forget none rec m ≡ (some (sentinel fenced), m)

  module _ (m : MemoryBackend) (s : IsSuperseded rec m) where
    held_by-superseded : (r : Row) → lookup rec.work_id m.records ≡ some r → held_by r rec ≡ false
    unfolding held_by
    held_by-superseded r e = ground (arith, s.replaced r)

    if_held-superseded :
        (o : Option Row) (k : Row → Outcome)
        → lookup rec.work_id m.records ≡ o
        → if_held o rec k ≡ refuse (sentinel fenced)
    if_held-superseded none k e = refl
    if_held-superseded (some r) k e = rw (held_by-superseded r e)

    read_row-superseded :
        (o : Option Row) → lookup rec.work_id m.records ≡ o → read_row o rec ≡ err (sentinel fenced)
    read_row-superseded none e = refl
    read_row-superseded (some r) e = ground (arith, s.replaced r)

    forget_row-superseded :
        (o : Option Row)
        → lookup rec.work_id m.records ≡ o
        → forget_row o rec m ≡ (some (sentinel fenced), m)
    forget_row-superseded none e = refl
    forget_row-superseded (some r) e = rw (held_by-superseded r e)

    release-superseded :
        (now : Readings) (mode : ExitMode)
        → release none now rec mode m
          ≡ (some (sentinel (if declarable mode then fenced else invalid_exit_mode)), m)
    unfolding release
    release-superseded now mode = elim (Bool-cases (declarable mode)) [
      | inl d ↦ rw (d, if_held-superseded _ _ refl)
      | inr d ↦ rw d
    ]

    superseded-IsFencedOff : IsFencedOff m
    unfolding checkpoint renew read_checkpoint forget
    superseded-IsFencedOff = record {
      no_checkpoint = λ now state ttl. rw (if_held-superseded _ _ refl);
      no_renew = λ now ttl. rw (if_held-superseded _ _ refl);
      no_release = release-superseded;
      no_read = read_row-superseded _ refl;
      no_forget = forget_row-superseded _ refl;
    }

-- A successful Acquire: the lease was free, and the row of the new lease has the next token.
pub acquire_granted :
    (now : Readings) (work_id holder_id : String) (ttl : Duration) (m z : MemoryBackend)
    (rec : LeaseRecord)
    → acquire none now work_id holder_id ttl m ≡ (ok rec, z)
    → let r = new_row (lookup work_id m.records) now holder_id ttl (next_token m.seq) in
      (is_live (lookup work_id m.records) now.check ≡ false)
      × (rec ≡ granted work_id r)
      × (z ≡ record { records = insert work_id r m.records; seq = r.fencing_token })
unfolding acquire grant
acquire_granted now work_id holder_id ttl m z rec e = ground arith

-- A successful Acquire supersedes every record of its work ID whose token was issued before.
acquire-IsSuperseded :
    (old : LeaseRecord) (now : Readings) (holder_id : String) (ttl : Duration) (m z : MemoryBackend)
    (rec : LeaseRecord)
    → m.seq + 1 < 2 ^ 64
    → old.fencing_token ≤ m.seq
    → acquire none now old.work_id holder_id ttl m ≡ (ok rec, z)
    → IsSuperseded old z
acquire-IsSuperseded old now holder_id ttl m z rec room issued e =
    let token =
      new_row-fencing_token (lookup old.work_id m.records) now holder_id ttl (next_token m.seq) in
    let r = new_row (lookup old.work_id m.records) now holder_id ttl (next_token m.seq) in
    let (free, granted', z') = acquire_granted now old.work_id holder_id ttl m z rec e in
    rw z' (record {
      issued = omega arith;
      replaced = λ q h. ground (
        arith,
        lookup-insert old.work_id old.work_id r m.records,
        eq_iff old.work_id old.work_id,
      );
    })

-- Once a successor has acquired the work ID, the record of the lease before it is fenced off after
-- any further history: Checkpoint, Renew, ReadCheckpoint and Forget with it return
-- ErrFenced, Release returns ErrFenced for a valid mode and ErrInvalidExitMode for another, and
-- nothing changes. (The sequence has room, and the clock does not go back.)
pub acquire_fences_old :
    (t : Time) (old rec : LeaseRecord) (now : Readings) (holder_id : String) (ttl : Duration)
    (m z : MemoryBackend) (cs : List Call)
    → IsValid t m
    → IsOrdered t now
    → m.seq + 1 + length cs < 2 ^ 64
    → AreTimely now.update cs
    → old.fencing_token ≤ m.seq
    → acquire none now old.work_id holder_id ttl m ≡ (ok rec, z)
    → IsFencedOff old (run z cs)
unfolding step
acquire_fences_old t old rec now holder_id ttl m z cs v o room os issued e =
    superseded-IsFencedOff old (run z cs) (
      run-IsSuperseded old now.update z cs (omega (arith, seq)) os valid
        (acquire-IsSuperseded old now holder_id ttl m z rec (omega arith) issued e))
  where
    stepped : step m (acquires none now old.work_id holder_id ttl) ≡ z
    stepped = ap (λ r. r.1) e

    valid : IsValid now.update z
    valid =
        subst (IsValid now.update) stepped
          (step-IsValid t m (acquires none now old.work_id holder_id ttl) (omega arith) o v)

    seq : z.seq ≤ m.seq + 1
    seq =
        subst (λ y. y.seq ≤ m.seq + 1) stepped
          (seq-step m (acquires none now old.work_id holder_id ttl) (omega arith)).1

-- The token of a new lease is greater than every token that is stored, of whatever work ID.
acquire_token_fresh :
    (t : Time) (now : Readings) (work_id holder_id : String) (ttl : Duration) (m z : MemoryBackend)
    (rec : LeaseRecord) (k : String) (r : Row)
    → IsValid t m
    → m.seq + 1 < 2 ^ 64
    → lookup k m.records ≡ some r
    → acquire none now work_id holder_id ttl m ≡ (ok rec, z)
    → (r.fencing_token < rec.fencing_token) × (rec.fencing_token ≡ z.seq)
acquire_token_fresh t now work_id holder_id ttl m z rec k r v room h e =
    let token =
      new_row-fencing_token (lookup work_id m.records) now holder_id ttl (next_token m.seq) in
    let facts = acquire_granted now work_id holder_id ttl m z rec e in
    (ground (arith, (v.rows k r h).issued), ground arith)

-- ===== src/Memory/History.antt =====
-- Histories of the in-memory backend: every call keeps the invariant, and the fencing sequence
-- only grows.
use worklease.Base.{◌+◌, ◌≤◌, ◌<◌, ◌^◌, Option, none, some, List, [], ◌∷◌, arith, length}
use worklease.Base.Int.{◌≤ℤ◌}
use worklease.Base.Dict.{lookup-erase, erase-IsUnique}
use worklease.Errors.{GoError}
use worklease.Backend.{Time, LeaseRecord}
use worklease.Memory.{MemoryBackend, checkpoint, renew, forget, sweep, checkpoint_row, renew_row}
use worklease.Memory.Calls.{
  Call, acquires, checkpoints, renews, releases, forgets, sweeps, step, run, commit_cases,
  release_cases, acquire_cases, forget_cases,
}
use worklease.Memory.Invariant.{
  IsValid, IsValid-later, IsOrdered, acquire-IsValid, checkpoint-IsValid, renew-IsValid,
  release-IsValid, new_row-fencing_token,
}
use worklease.Memory.Sweep.{sweep-IsValid}

-- The last clock reading of a call that begins at time t.
abbrev pub end_time : Time → Call → Time
end_time t (acquires ctx now work_id holder_id ttl) = now.update
end_time t (checkpoints ctx now rec state ttl) = now.update
end_time t (renews ctx now rec ttl) = now.update
end_time t (releases ctx now rec mode) = now.update
end_time t (forgets ctx rec) = t
end_time t (sweeps ctx now opts) = now

-- The readings of a call that begins at time t do not go back.
abbrev pub IsTimely : Time → Call → Type 0
IsTimely t (acquires ctx now work_id holder_id ttl) = IsOrdered t now
IsTimely t (checkpoints ctx now rec state ttl) = IsOrdered t now
IsTimely t (renews ctx now rec ttl) = IsOrdered t now
IsTimely t (releases ctx now rec mode) = IsOrdered t now
IsTimely t (forgets ctx rec) = Unit {0}
IsTimely t (sweeps ctx now opts) = t ≤ℤ now

-- The same of the calls of a history, each after the one before.
abbrev pub AreTimely : Time → List Call → Type 0
AreTimely t [] = Unit {0}
AreTimely t (c ∷ cs) = IsTimely t c × AreTimely (end_time t c) cs

abbrev pub last_time : Time → List Call → Time
last_time t [] = t
last_time t (c ∷ cs) = last_time (end_time t c) cs

forget-IsValid :
    (t : Time) (ctx : Option GoError) (rec : LeaseRecord) (m : MemoryBackend)
    → IsValid t m
    → IsValid t (forget ctx rec m).1
forget-IsValid t ctx rec m v = forget_cases (IsValid t) ctx rec m v λ r e h. record {
  rows = λ k r h. ground (arith, lookup-erase rec.work_id k m.records, v.rows k r);
  distinct = λ j k q r hj hk. ground (
    arith,
    lookup-erase rec.work_id j m.records,
    lookup-erase rec.work_id k m.records,
    v.distinct j k q r,
  );
  unique = erase-IsUnique rec.work_id m.records v.unique;
}

-- Every call, in every order of calls, keeps the invariant.
pub step-IsValid :
    (t : Time) (m : MemoryBackend) (c : Call)
    → m.seq + 1 < 2 ^ 64
    → IsTimely t c
    → IsValid t m
    → IsValid (end_time t c) (step m c)
unfolding step
step-IsValid t m (acquires ctx now work_id holder_id ttl) room o v =
    acquire-IsValid t now m o v ctx work_id holder_id ttl room
step-IsValid t m (checkpoints ctx now rec state ttl) room o v =
    checkpoint-IsValid t now m o v ctx rec state ttl
step-IsValid t m (renews ctx now rec ttl) room o v = renew-IsValid t now m o v ctx rec ttl
step-IsValid t m (releases ctx now rec mode) room o v = release-IsValid t now m o v ctx rec mode
step-IsValid t m (forgets ctx rec) room o v = forget-IsValid t ctx rec m v
step-IsValid t m (sweeps ctx now opts) room o v =
    IsValid-later t now _ o (sweep-IsValid t now opts m v ctx)

-- What one call does to the sequence.
abbrev pub Grows : MemoryBackend → MemoryBackend → Type 0
Grows m z = (m.seq ≤ z.seq) × (z.seq ≤ m.seq + 1)

pub seq-step : (m : MemoryBackend) (c : Call) → m.seq + 1 < 2 ^ 64 → Grows m (step m c)
unfolding step checkpoint renew sweep
seq-step m (acquires ctx now work_id holder_id ttl) room =
    acquire_cases (Grows m) ctx now work_id holder_id ttl m (omega arith)
      λ free. rw new_row-fencing_token (omega arith)
seq-step m (checkpoints (some e) now rec state ttl) room = omega arith
seq-step m (checkpoints none now rec state ttl) room =
    commit_cases (Grows m) rec (checkpoint_row now state ttl) m (omega arith)
      λ r r' e h q. omega arith
seq-step m (renews (some e) now rec ttl) room = omega arith
seq-step m (renews none now rec ttl) room =
    commit_cases (Grows m) rec (renew_row now ttl) m (omega arith) λ r r' e h q. omega arith
seq-step m (releases ctx now rec mode) room =
    release_cases (Grows m) ctx now rec mode m (omega arith) λ r r' d e h q. omega arith
seq-step m (forgets ctx rec) room =
    forget_cases (Grows m) ctx rec m (omega arith) λ r e h. omega arith
seq-step m (sweeps (some e) now opts) room = omega arith
seq-step m (sweeps none now opts) room = omega arith

-- After any history of a valid backend, if the sequence has room for the calls and the clock does
-- not go back, the backend is valid: each work ID has one row, no two rows have the same token, and
-- every token was issued; the exits are values that the backend writes, a row with no previous exit
-- has no previous holder, no empty state is stored, a lease with a declared exit ended before its
-- last update, and no update lies after the last clock reading.
pub run-IsValid :
    (t : Time) (m : MemoryBackend) (cs : List Call)
    → m.seq + length cs < 2 ^ 64
    → AreTimely t cs
    → IsValid t m
    → IsValid (last_time t cs) (run m cs)
unfolding run
run-IsValid t m [] room o v = v
run-IsValid t m (c ∷ cs) room (o, os) v =
    run-IsValid (end_time t c) (step m c) cs (omega (arith, seq-step m c)) os
      (step-IsValid t m c (omega arith) o v)

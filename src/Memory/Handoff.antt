-- ===== src/Memory/Handoff.antt =====
-- What the next holder of a work ID reads: the last checkpoint, and how its predecessor left.
use worklease.Base.{
  ◌+◌, ◌<◌, ◌^◌, ◌≡◌, true, Option, none, some, String, List, [], ◌∷◌, arith, length, eq_iff,
  Bool-cases, inl, inr,
}
use worklease.Base.Int.{◌≤ℤ◌, ◌+ℤ◌, +ℤ_parts}
use worklease.Base.Dict.{lookup, lookup-insert}
use worklease.Errors.{ok, sentinel, lease_expired}
use worklease.Backend.{
  Time, Duration, Bytes, ExitMode, exit_none, exit_expired, declarable, Checkpoint, LeaseRecord,
}
use worklease.Memory.{
  Row, MemoryBackend, Readings, acquire, checkpoint, renew, release, held_by, new_row, next_token,
  declared_exit, normalize, read_checkpoint, release_grace_period, checkpoint_row, release_row,
}
use worklease.Memory.Calls.{Call, step, run, commit_done}
use worklease.Memory.Invariant.{IsValid}
use worklease.Memory.History.{AreTimely, end_time, step-IsValid, seq-step}
use worklease.Memory.Fencing.{acquire_granted}
use worklease.Memory.Exclusion.{IsForeign, foreign_call_keeps}

abbrev pub AreForeign : String → Row → List Call → Type 0
AreForeign w r [] = Unit {0}
AreForeign w r (c ∷ cs) = IsForeign w r c × AreForeign w r cs

pub foreign_run_keeps :
    (w : String) (r : Row) (t : Time) (m : MemoryBackend) (cs : List Call)
    → m.seq + length cs < 2 ^ 64
    → AreTimely t cs
    → IsValid t m
    → AreForeign w r cs
    → lookup w m.records ≡ some r
    → lookup w (run m cs).records ≡ some r
unfolding run
foreign_run_keeps w r t m [] room os v fs k = k
foreign_run_keeps w r t m (c ∷ cs) room (o, os) v (f, fs) k =
    foreign_run_keeps w r (end_time t c) (step m c) cs (omega (arith, seq-step m c)) os
      (step-IsValid t m c (omega arith) o v) fs (foreign_call_keeps w r t m c v k f)

-- What a successor reads after the row r.
abbrev pub legacy : Row → Checkpoint
legacy r = record {
  state = r.checkpoint;
  prev_exit = declared_exit r;
  prev_holder_id = r.holder_id;
}

-- A grant on a stored row hands that row's checkpoint, exit and holder to the new lease.
acquire_inherits :
    (now : Readings) (w holder_id : String) (ttl : Duration) (m z : MemoryBackend)
    (rec : LeaseRecord) (r : Row)
    → lookup w m.records ≡ some r
    → acquire none now w holder_id ttl m ≡ (ok rec, z)
    → read_checkpoint none rec z ≡ ok (legacy r)
unfolding new_row read_checkpoint
acquire_inherits now w holder_id ttl m z rec r k e =
    let q = new_row (some r) now holder_id ttl (next_token m.seq) in
    ground (
      arith,
      acquire_granted now w holder_id ttl m z rec e,
      lookup-insert w w q m.records,
      eq_iff w w,
    )

-- A write of Checkpoint, read off its result.
checkpoint_written :
    (now : Readings) (rec : LeaseRecord) (state : Option Bytes) (ttl : Duration)
    (m z : MemoryBackend)
    → checkpoint none now rec state ttl m ≡ (none, z)
    → (r : Row) × (lookup rec.work_id z.records ≡ some r)
      × (r.checkpoint ≡ normalize state)
      × (r.exit_mode ≡ exit_none)
      × (r.holder_id ≡ rec.holder_id)
      × (r.fencing_token ≡ rec.fencing_token)
      × (r.expires_at ≡ now.stamp +ℤ ttl)
unfolding checkpoint held_by
checkpoint_written now rec state ttl m z e =
    let (r, r', found, h, q, end) = commit_done rec (checkpoint_row now state ttl) m z e in
    (
      r',
      ground (
        arith,
        lookup-insert rec.work_id rec.work_id r' m.records,
        eq_iff rec.work_id rec.work_id,
      ),
      ground arith,
      ground arith,
      ground (arith, eq_iff r.holder_id rec.holder_id),
      ground arith,
      ground arith,
    )

-- A write of Release, read off its result.
pub release_written :
    (now : Readings) (rec : LeaseRecord) (mode : ExitMode) (m z : MemoryBackend)
    → release none now rec mode m ≡ (none, z)
    → (r : Row) × (r' : Row) × (declarable mode ≡ true)
      × (lookup rec.work_id m.records ≡ some r)
      × (lookup rec.work_id z.records ≡ some r')
      × (r' ≡ record r {
        exit_mode = mode;
        expires_at = now.stamp +ℤ release_grace_period;
        updated_at = now.update;
      })
      × (held_by r rec ≡ true)
unfolding release
release_written now rec mode m z e = elim (Bool-cases (declarable mode)) [
  | inl d ↦
      let (r, r', found, h, q, end) = commit_done rec (release_row now mode) m z (rw d at e) in
      (
        r,
        r',
        d,
        found,
        ground (
          arith,
          lookup-insert rec.work_id rec.work_id r' m.records,
          eq_iff rec.work_id rec.work_id,
        ),
        ground arith,
        h,
      )
  | inr d ↦ cc (rw d at e)
]

-- The handoff after a declared exit. A holder's Checkpoint and then its Release return nil; any calls follow that
-- have no right to change the row (under a context that is done, with a record of another work ID,
-- holder or token, an Acquire of another work ID or before the expiry, a Sweep that the row is not
-- one to delete for), in a valid state, with clock readings that do not go back and with room in
-- the token counter; then another holder acquires the work ID. It
-- reads the state of that Checkpoint (nil for an empty one), the mode of that Release, and the
-- ID of that holder.
pub release_handoff :
    (t : Time) (n₁ n₂ n₃ : Readings) (rec next : LeaseRecord) (state : Option Bytes)
    (ttl ttl' : Duration) (mode : ExitMode) (holder_id : String) (m z₁ z₂ z₃ : MemoryBackend)
    (cs : List Call) (r : Row)
    → checkpoint none n₁ rec state ttl m ≡ (none, z₁)
    → release none n₂ rec mode z₁ ≡ (none, z₂)
    → lookup rec.work_id z₂.records ≡ some r
    → IsValid t z₂
    → AreTimely t cs
    → z₂.seq + length cs < 2 ^ 64
    → AreForeign rec.work_id r cs
    → acquire none n₃ rec.work_id holder_id ttl' (run z₂ cs) ≡ (ok next, z₃)
    → read_checkpoint none next z₃
      ≡ ok (record { state = normalize state; prev_exit = mode; prev_holder_id = rec.holder_id })
release_handoff t n₁ n₂ n₃ rec next state ttl ttl' mode holder_id m z₁ z₂ z₃ cs r e₁ e₂ k v os room
      fs e₃ =
    let written = checkpoint_written n₁ rec state ttl m z₁ e₁ in
    let released = release_written n₂ rec mode z₁ z₂ e₂ in
    ground (
      arith,
      acquire_inherits n₃ rec.work_id holder_id ttl' (run z₂ cs) z₃ next r
          (foreign_run_keeps rec.work_id r t z₂ cs room os v fs k) e₃,
    )

-- The handoff after a crash. A holder's Checkpoint returns nil and the holder makes no further
-- call; any calls follow that
-- have no right to change the row (under a context that is done, with a record of another work ID,
-- holder or token, an Acquire of another work ID or before the expiry, a Sweep that the row is not
-- one to delete for), in a valid state, with clock readings that do not go back and with room in
-- the token counter; then another holder acquires the work ID. It
-- reads the state of that Checkpoint, ExitExpired, and the ID of that holder.
pub crash_handoff :
    (t : Time) (n₁ n₃ : Readings) (rec next : LeaseRecord) (state : Option Bytes)
    (ttl ttl' : Duration) (holder_id : String) (m z₁ z₃ : MemoryBackend) (cs : List Call) (r : Row)
    → checkpoint none n₁ rec state ttl m ≡ (none, z₁)
    → lookup rec.work_id z₁.records ≡ some r
    → IsValid t z₁
    → AreTimely t cs
    → z₁.seq + length cs < 2 ^ 64
    → AreForeign rec.work_id r cs
    → acquire none n₃ rec.work_id holder_id ttl' (run z₁ cs) ≡ (ok next, z₃)
    → read_checkpoint none next z₃
      ≡ ok (record {
        state = normalize state;
        prev_exit = exit_expired;
        prev_holder_id = rec.holder_id;
      })
crash_handoff t n₁ n₃ rec next state ttl ttl' holder_id m z₁ z₃ cs r e₁ k v os room fs e₃ =
    let written = checkpoint_written n₁ rec state ttl m z₁ e₁ in
    ground (
      arith,
      acquire_inherits n₃ rec.work_id holder_id ttl' (run z₁ cs) z₃ next r
          (foreign_run_keeps rec.work_id r t z₁ cs room os v fs k) e₃,
    )

-- A declared exit is final: after a Release that returned nil, with no clock reading before it,
-- Checkpoint, Renew and a second Release with the same record return ErrLeaseExpired and change
-- nothing.
pub release_is_final :
    (now later : Readings) (rec : LeaseRecord) (mode mode' : ExitMode) (state : Option Bytes)
    (ttl : Duration) (m z : MemoryBackend)
    → release none now rec mode m ≡ (none, z)
    → now.stamp ≤ℤ later.check
    → declarable mode' ≡ true
    → (checkpoint none later rec state ttl z ≡ (some (sentinel lease_expired), z))
      × (renew none later rec ttl z ≡ (some (sentinel lease_expired), z))
      × (release none later rec mode' z ≡ (some (sentinel lease_expired), z))
unfolding checkpoint renew release held_by
release_is_final now later rec mode mode' state ttl m z e le d =
    let released = release_written now rec mode m z e in
    (
      ground arith,
      ground (arith, +ℤ_parts now.stamp release_grace_period),
      ground (arith, +ℤ_parts now.stamp release_grace_period),
    )

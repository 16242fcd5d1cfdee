-- ===== src/Memory.antt =====
-- backend/memory/memory.go: the in-memory backend.
-- A call gets what ctx.Err() returns, and the values that its calls of clock.Now() return; the
-- mutex makes each call one step, so a call is a function from the backend to the result and the
-- new backend.
mod Rows
pub mod Calls
pub mod Invariant
pub mod Handoff
pub mod Availability
pub mod Superseded
pub mod Fencing
pub mod Exclusion
pub mod History
pub mod Sweep
pub mod Service
pub mod View
pub mod Counts
pub mod Steps
pub mod Refinement
pub mod Samples
mod Tests
unfoldable pub use Rows.*
use worklease.Base.{
  ℕ, ◌+◌, ◌%◌, ◌^◌, Bool, true, false, not, ◌&&◌, Option, none, some, String, [], ◌∷◌, ◌==◌, str_eq,
  if◌then◌else◌,
}
use worklease.Base.Int.{negsuc, ◌+ℤ◌, ◌-ℤ◌, ltb_ℤ, leb_ℤ}
use worklease.Base.Dict.{Dict, lookup, insert, erase}
use worklease.Errors.{
  GoError, sentinel, wrap, fenced, lease_held, lease_expired, invalid_exit_mode, Result, ok, err,
}
use worklease.Backend.{
  Time, Duration, Bytes, ExitMode, exit_none, exit_retired, exit_expired, declarable, Checkpoint,
  LeaseRecord, SweepOptions,
}

unfoldable pub grant : Row → String → MemoryBackend → Result LeaseRecord × MemoryBackend
grant r work_id m =
    (ok (granted work_id r), record { records = insert work_id r m.records; seq = r.fencing_token })

acquire_locked :
    Readings → String → String → Duration → MemoryBackend → Result LeaseRecord × MemoryBackend
unfolding new_row grant
acquire_locked now work_id holder_id ttl m =
    let existing = lookup work_id m.records in
    if is_live existing now.check
    then (err (sentinel lease_held), m)
    else grant (new_row existing now holder_id ttl (next_token m.seq)) work_id m

unfoldable pub acquire :
    Option GoError
    → Readings
    → String
    → String
    → Duration
    → MemoryBackend
    → Result LeaseRecord × MemoryBackend
unfolding acquire_locked
acquire (some e) now work_id holder_id ttl m = (err (wrap "memory: Acquire: " e), m)
acquire none now work_id holder_id ttl m = acquire_locked now work_id holder_id ttl m

-- The write that a call makes to the row of `work_id`, or the error that it returns instead.
pub data Outcome : Type 0 where
  refuse : GoError → Outcome
  write : Row → Outcome

abbrev pub commit : String → MemoryBackend → Outcome → Option GoError × MemoryBackend
commit work_id m (refuse e) = (some e, m)
commit work_id m (write r) = (none, record m { records = insert work_id r m.records })

-- `!exists || !r.heldBy(record)` returns ErrFenced; otherwise the call goes on with the row.
abbrev pub if_held : Option Row → LeaseRecord → (Row → Outcome) → Outcome
if_held none rec k = refuse (sentinel fenced)
if_held (some r) rec k = if held_by r rec then k r else refuse (sentinel fenced)

-- A nil or empty state clears the checkpoint.
abbrev pub normalize : Option Bytes → Option Bytes
normalize none = none
normalize (some []) = none
normalize (some (b ∷ bs)) = some (b ∷ bs)

abbrev pub checkpoint_row : Readings → Option Bytes → Duration → Row → Outcome
checkpoint_row now state ttl r =
    if not (r.exit_mode == exit_none)
    then refuse (sentinel lease_expired)
    else write (record r {
      checkpoint = normalize state;
      expires_at = now.stamp +ℤ ttl;
      updated_at = now.update;
    })

unfoldable pub checkpoint :
    Option GoError
    → Readings
    → LeaseRecord
    → Option Bytes
    → Duration
    → MemoryBackend
    → Option GoError × MemoryBackend
unfolding held_by
checkpoint (some e) now rec state ttl m = (some (wrap "memory: Checkpoint: " e), m)
checkpoint none now rec state ttl m =
    commit rec.work_id m (if_held (lookup rec.work_id m.records) rec (checkpoint_row now state ttl))

abbrev pub renew_row : Readings → Duration → Row → Outcome
renew_row now ttl r =
    if not (before now.check r.expires_at)
    then refuse (sentinel lease_expired)
    else write (record r { expires_at = now.stamp +ℤ ttl; updated_at = now.update })

unfoldable pub renew :
    Option GoError
    → Readings
    → LeaseRecord
    → Duration
    → MemoryBackend
    → Option GoError × MemoryBackend
unfolding held_by
renew (some e) now rec ttl m = (some (wrap "memory: Renew: " e), m)
renew none now rec ttl m =
    commit rec.work_id m (if_held (lookup rec.work_id m.records) rec (renew_row now ttl))

abbrev pub release_row : Readings → ExitMode → Row → Outcome
release_row now mode r =
    if not (after r.expires_at now.check)
    then refuse (sentinel lease_expired)
    else write (record r {
      exit_mode = mode;
      expires_at = now.stamp +ℤ release_grace_period;
      updated_at = now.update;
    })

release_valid :
    Option GoError
    → Readings
    → LeaseRecord
    → ExitMode
    → MemoryBackend
    → Option GoError × MemoryBackend
unfolding held_by
release_valid (some e) now rec mode m = (some (wrap "memory: Release: " e), m)
release_valid none now rec mode m =
    commit rec.work_id m (if_held (lookup rec.work_id m.records) rec (release_row now mode))

unfoldable pub release :
    Option GoError
    → Readings
    → LeaseRecord
    → ExitMode
    → MemoryBackend
    → Option GoError × MemoryBackend
unfolding release_valid
release ctx now rec mode m =
    if declarable mode
    then release_valid ctx now rec mode m
    else (some (sentinel invalid_exit_mode), m)

abbrev pub read_row : Option Row → LeaseRecord → Result Checkpoint
read_row none rec = err (sentinel fenced)
read_row (some r) rec =
    if r.fencing_token == rec.fencing_token
    then ok (record {
      state = r.checkpoint;
      prev_exit = r.prev_exit;
      prev_holder_id = r.prev_holder_id;
    })
    else err (sentinel fenced)

-- The copy that is returned is a value here, so no alias of the stored slice leaves the backend.
unfoldable pub read_checkpoint : Option GoError → LeaseRecord → MemoryBackend → Result Checkpoint
read_checkpoint (some e) rec m = err (wrap "memory: ReadCheckpoint: " e)
read_checkpoint none rec m = read_row (lookup rec.work_id m.records) rec

abbrev pub forget_row : Option Row → LeaseRecord → MemoryBackend → Option GoError × MemoryBackend
forget_row none rec m = (some (sentinel fenced), m)
forget_row (some r) rec m =
    if held_by r rec
    then (none, record m { records = erase rec.work_id m.records })
    else (some (sentinel fenced), m)

unfoldable pub forget :
    Option GoError → LeaseRecord → MemoryBackend → Option GoError × MemoryBackend
unfolding held_by
forget (some e) rec m = (some (wrap "memory: Forget: " e), m)
forget none rec m = forget_row (lookup rec.work_id m.records) rec m

-- The three `continue` tests of Sweep, in order.
unfoldable pub is_kept : Time → SweepOptions → Row → Bool
is_kept now opts r =
    if leb_ℤ (now -ℤ r.updated_at) opts.retention
    then true
    else if not (after now r.expires_at)
    then true
    else not (r.exit_mode == exit_retired) && not (opts.include_expired && r.exit_mode == exit_none)

unfoldable pub sweep_rows : Time → SweepOptions → Dict Row → ℕ × Dict Row
sweep_rows now opts [] = (0, [])
sweep_rows now opts ((work_id, r) ∷ rest) =
    let (deleted, kept) = sweep_rows now opts rest in
    if is_kept now opts r then (deleted, (work_id, r) ∷ kept) else (deleted + 1, kept)

unfoldable pub sweep :
    Option GoError → Time → SweepOptions → MemoryBackend → Result ℕ × MemoryBackend
unfolding sweep_rows
sweep (some e) now opts m = (err (wrap "memory: Sweep: " e), m)
sweep none now opts m =
    let (deleted, kept) = sweep_rows now opts m.records in (ok deleted, record m { records = kept })

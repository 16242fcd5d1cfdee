-- ===== src/Contract.antt =====
-- backend/backend.go: what the comments of the interface Backend promise of every backend, as a step
-- relation on abstract leases. The abstract state forgets how rows are stored, in what order, and
-- how tokens are numbered; a step says which answers a call may get and what it may change.
mod Terms
pub mod History
pub mod Fencing
pub mod Exclusion
mod Tests
unfoldable pub use Terms.*
use worklease.Base.{
  ℕ, ◌≤◌, ◌<◌, ◌≡◌, ◌≢◌, Bool, true, false, ◌⊎◌, Option, none, some, String, [], ◌∷◌,
}
use worklease.Base.Int.{pos, ◌+ℤ◌, ◌-ℤ◌, ◌≤ℤ◌, ◌<ℤ◌}
use worklease.Errors.{GoError, sentinel, is, fenced, lease_held, lease_expired, invalid_exit_mode}
use worklease.Backend.{
  Time, Duration, Bytes, ExitMode, exit_none, exit_retired, exit_expired, declarable, Checkpoint,
  LeaseRecord, SweepOptions,
}

-- One call, its answer, and the leases before and after it.
pub data Step (now : Setting) (s s' : Leases) : Request → Reply → Type 0 where
  grants :
      (w h : String) (ttl : Duration) (k : Term) (lease : LeaseRecord)
      → IsFree now.check (s.term w)
      → Inherits (s.term w) k
      → k.holder_id ≡ h
      → k.exit_mode ≡ exit_none
      → LastsFor now.stamp ttl k.expires_at
      → s.issued < k.fencing_token
      → s'.issued ≡ k.fencing_token
      → Puts s s' w (some k)
      → lease ≡ lease_of w k
      → Step now s s' (acquires w h ttl) (granted lease)
  finds_held :
      (w h : String) (ttl : Duration) (r : Term)
      → s.term w ≡ some r
      → now.check ≤ℤ r.expires_at
      → Unchanged s s'
      → Step now s s' (acquires w h ttl) (failed (sentinel lease_held))
  saves :
      (rec : LeaseRecord) (state : Option Bytes) (ttl : Duration) (r : Term) (e : Time)
      → Holds rec (s.term rec.work_id) r
      → r.exit_mode ≡ exit_none
      → LastsFor now.stamp ttl e
      → Puts s s' rec.work_id
          (some (record r { state = stored state; expires_at = e; updated_at = now.update }))
      → Step now s s' (checkpoints rec state ttl) done
  saves_too_late :
      (rec : LeaseRecord) (state : Option Bytes) (ttl : Duration) (r : Term)
      → Holds rec (s.term rec.work_id) r
      → r.exit_mode ≢ exit_none
      → Unchanged s s'
      → Step now s s' (checkpoints rec state ttl) (failed (sentinel lease_expired))
  extends :
      (rec : LeaseRecord) (ttl : Duration) (r : Term) (e : Time)
      → Holds rec (s.term rec.work_id) r
      → now.check <ℤ r.expires_at
      → LastsFor now.stamp ttl e
      → Puts s s' rec.work_id (some (record r { expires_at = e; updated_at = now.update }))
      → Step now s s' (renews rec ttl) done
  extends_too_late :
      (rec : LeaseRecord) (ttl : Duration) (r : Term)
      → Holds rec (s.term rec.work_id) r
      → r.expires_at ≤ℤ now.check
      → Unchanged s s'
      → Step now s s' (renews rec ttl) (failed (sentinel lease_expired))
  exits :
      (rec : LeaseRecord) (mode : ExitMode) (r : Term) (e : Time)
      → declarable mode ≡ true
      → Holds rec (s.term rec.work_id) r
      → now.check <ℤ r.expires_at
      → e <ℤ now.stamp
      → Puts s s' rec.work_id
          (some (record r { exit_mode = mode; expires_at = e; updated_at = now.update }))
      → Step now s s' (releases rec mode) done
  exits_too_late :
      (rec : LeaseRecord) (mode : ExitMode) (r : Term)
      → declarable mode ≡ true
      → Holds rec (s.term rec.work_id) r
      → r.expires_at ≤ℤ now.check
      → Unchanged s s'
      → Step now s s' (releases rec mode) (failed (sentinel lease_expired))
  exits_wrongly :
      (rec : LeaseRecord) (mode : ExitMode)
      → declarable mode ≡ false
      → Unchanged s s'
      → Step now s s' (releases rec mode) (failed (sentinel invalid_exit_mode))
  recalls :
      (rec : LeaseRecord) (r : Term)
      → s.term rec.work_id ≡ some r
      → r.fencing_token ≡ rec.fencing_token
      → Unchanged s s'
      → Step now s s' (reads rec) (read (checkpoint_of r))
  recalls_nothing :
      (rec : LeaseRecord)
      → HasOtherToken rec (s.term rec.work_id)
      → Unchanged s s'
      → Step now s s' (reads rec) (failed (sentinel fenced))
  drops :
      (rec : LeaseRecord) (r : Term)
      → Holds rec (s.term rec.work_id) r
      → Puts s s' rec.work_id none
      → Step now s s' (forgets rec) done
  clears :
      (opts : SweepOptions) (cutoff : Duration) (n : ℕ)
      → cutoff ≤ℤ opts.retention +ℤ pos 2000
      → opts.retention ≤ℤ cutoff +ℤ pos 2000
      → ((w : String) → SweptAway now.check cutoff opts (s.term w) (s'.term w))
      → Counts s s' n
      → s.issued ≤ s'.issued
      → Step now s s' (sweeps opts) (swept n)
  is_fenced :
      (rec : LeaseRecord) (q : Request)
      → WritesWith rec q
      → IsNotHeld rec (s.term rec.work_id)
      → Unchanged s s'
      → Step now s s' q (failed (sentinel fenced))
  -- the call is refused by the context, the driver or the database
  refused :
      (q : Request) (e : GoError)
      → HasMode q
      → IsForeign e
      → TellsContext now.ctx e
      → Unchanged s s'
      → Step now s s' q (failed e)
  -- the call is done, and its answer is lost
  unanswered :
      (q : Request) (reply : Reply) (e : GoError)
      → HasMode q
      → IsForeign e
      → TellsContext now.ctx e
      → Step now s s' q reply
      → Step now s s' q (failed e)

-- Any calls, by any clients.
pub data Reach (s : Leases) : Leases → Type 0 where
  here : Reach s s
  next :
      {u v : Leases} (now : Setting) (q : Request) (reply : Reply)
      → Reach s u
      → Step now u v q reply
      → Reach s v

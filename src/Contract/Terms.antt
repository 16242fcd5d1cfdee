-- ===== src/Contract/Terms.antt =====
-- backend/backend.go: the abstract leases of the contract, the calls and their answers, and how a call
-- can change the leases.
use worklease.Base.{ℕ, ◌≤◌, ◌≡◌, ◌≢◌, true, false, ◌⊎◌, Option, none, some, String, [], ◌∷◌}
use worklease.Base.Int.{pos, ◌+ℤ◌, ◌-ℤ◌, ◌≤ℤ◌, ◌<ℤ◌}
use worklease.Base.{List, length, ◌↔◌}
use worklease.Base.Dropped.{is_among, AreDistinct}
use worklease.Errors.{GoError, Sentinel, is, fenced, lease_held, lease_expired, invalid_exit_mode}
use worklease.Backend.{
  Time, Duration, Bytes, ExitMode, exit_none, exit_retired, exit_expired, declarable, Checkpoint,
  LeaseRecord, SweepOptions,
}

-- A lease of a work ID, from one Acquire to the next.
pub record Term : Type 0 where
  pub holder_id : String
  pub fencing_token : ℕ
  pub expires_at : Time
  pub state : Option Bytes
  pub exit_mode : ExitMode
  pub prev_exit : ExitMode
  pub prev_holder_id : String
  pub updated_at : Time

-- The last lease of each work ID, and the last fencing token that was issued.
pub record Leases : Type 0 where
  pub term : String → Option Term
  pub issued : ℕ

pub data Request : Type 0 where
  acquires : String → String → Duration → Request
  checkpoints : LeaseRecord → Option Bytes → Duration → Request
  renews : LeaseRecord → Duration → Request
  releases : LeaseRecord → ExitMode → Request
  reads : LeaseRecord → Request
  forgets : LeaseRecord → Request
  sweeps : SweepOptions → Request

pub data Reply : Type 0 where
  granted : LeaseRecord → Reply
  read : Checkpoint → Reply
  swept : ℕ → Reply
  done : Reply
  failed : GoError → Reply

-- What a call meets: the backend's clock when it tests an expiry, when it counts a TTL from, and
-- when it dates the change; and what ctx.Err() returns.
pub record Setting : Type 0 where
  pub check : Time
  pub stamp : Time
  pub update : Time
  pub ctx : Option GoError

-- A nil or empty state is no state.
abbrev pub stored : Option Bytes → Option Bytes
stored none = none
stored (some []) = none
stored (some (b ∷ bs)) = some (b ∷ bs)

abbrev pub lease_of : String → Term → LeaseRecord
lease_of w k = record {
  work_id = w;
  holder_id = k.holder_id;
  fencing_token = k.fencing_token;
  expires_at = k.expires_at;
}

abbrev pub checkpoint_of : Term → Checkpoint
checkpoint_of k = record {
  state = k.state;
  prev_exit = k.prev_exit;
  prev_holder_id = k.prev_holder_id;
}

-- A backend may round a TTL up, by less than a microsecond.
abbrev pub LastsFor : Time → Duration → Time → Type 0
LastsFor from ttl to = (from +ℤ ttl ≤ℤ to) × (to <ℤ (from +ℤ ttl) +ℤ pos 1000)

-- No lease of the work ID is live.
abbrev pub IsFree : Time → Option Term → Type 0
IsFree now none = Unit {0}
IsFree now (some r) = r.expires_at <ℤ now

-- The exit that a successor sees.
abbrev pub Leaves : Term → ExitMode → Type 0
Leaves r e =
    ((r.exit_mode ≡ exit_none) × (e ≡ exit_expired))
    ⊎ ((r.exit_mode ≢ exit_none) × (e ≡ r.exit_mode))

-- The new lease takes over the state, the exit and the holder of the one before.
abbrev pub Inherits : Option Term → Term → Type 0
Inherits none k = (k.state ≡ none) × (k.prev_exit ≡ exit_none) × (k.prev_holder_id ≡ "")
Inherits (some r) k = (k.state ≡ r.state) × Leaves r k.prev_exit × (k.prev_holder_id ≡ r.holder_id)

-- The stored lease is the one of this record.
abbrev pub Holds : LeaseRecord → Option Term → Term → Type 0
Holds rec o r = (o ≡ some r) × (r.holder_id ≡ rec.holder_id) × (r.fencing_token ≡ rec.fencing_token)

-- It is not.
abbrev pub IsNotHeld : LeaseRecord → Option Term → Type 0
IsNotHeld rec none = Unit {0}
IsNotHeld rec (some r) = (r.holder_id ≢ rec.holder_id) ⊎ (r.fencing_token ≢ rec.fencing_token)

abbrev pub HasOtherToken : LeaseRecord → Option Term → Type 0
HasOtherToken rec none = Unit {0}
HasOtherToken rec (some r) = r.fencing_token ≢ rec.fencing_token

-- No lease changes. Tokens may be used up.
pub record Unchanged (s s' : Leases) : Type 0 where
  pub same : (w : String) → s'.term w ≡ s.term w
  pub grows : s.issued ≤ s'.issued

-- One work ID gets a lease, or loses it.
pub record Puts (s s' : Leases) (w : String) (o : Option Term) : Type 0 where
  pub put : s'.term w ≡ o
  pub rest : (j : String) → j ≢ w → s'.term j ≡ s.term j
  pub grows : s.issued ≤ s'.issued

-- What a Sweep with this cut-off deletes. A backend may round the retention, by at most two
-- microseconds.
abbrev pub IsOld : Time → Duration → SweepOptions → Term → Type 0
IsOld now cutoff opts r =
    (cutoff <ℤ (now -ℤ r.updated_at))
    × (r.expires_at <ℤ now)
    × ((r.exit_mode ≡ exit_retired) ⊎ ((opts.include_expired ≡ true) × (r.exit_mode ≡ exit_none)))

abbrev pub SweptAway : Time → Duration → SweepOptions → Option Term → Option Term → Type 0
SweptAway now cutoff opts none o = o ≡ none
SweptAway now cutoff opts (some r) o =
    ((o ≡ none) × IsOld now cutoff opts r) ⊎ ((o ≡ some r) × (IsOld now cutoff opts r → ⊥))

-- A lease that a Sweep has deleted.
abbrev pub IsGone : Option Term → Option Term → Type 0
IsGone none o = ⊥
IsGone (some r) o = o ≡ none

-- The number of work IDs that lose their lease.
pub record Counts (s s' : Leases) (n : ℕ) : Type 0 where
  pub gone : List String
  pub once : AreDistinct gone
  pub exactly : (w : String) → (is_among w gone ≡ true) ↔ IsGone (s.term w) (s'.term w)
  pub count : length gone ≡ n

-- An error tells that the context is done, if it is: it matches what ctx.Err() matches.
abbrev pub TellsContext : Option GoError → GoError → Type 0
TellsContext none e = Unit {0}
TellsContext (some c) e = (k : Sentinel) → is c k ≡ true → is e k ≡ true

-- An error of the context, the driver or the database: none of the contract's own.
pub record IsForeign (e : GoError) : Type 0 where
  pub not_fenced : is e fenced ≡ false
  pub not_held : is e lease_held ≡ false
  pub not_expired : is e lease_expired ≡ false
  pub not_invalid : is e invalid_exit_mode ≡ false

-- The calls that write with a record.
abbrev pub WritesWith : LeaseRecord → Request → Type 0
WritesWith rec (checkpoints r state ttl) = r ≡ rec
WritesWith rec (renews r ttl) = r ≡ rec
WritesWith rec (releases r mode) = (r ≡ rec) × (declarable mode ≡ true)
WritesWith rec (forgets r) = r ≡ rec
WritesWith rec (acquires w h ttl) = ⊥
WritesWith rec (reads r) = ⊥
WritesWith rec (sweeps opts) = ⊥

-- A Release names an exit that a holder can declare: the mode is tested before anything else.
abbrev pub HasMode : Request → Type 0
HasMode (releases r mode) = declarable mode ≡ true
HasMode (acquires w h ttl) = Unit {0}
HasMode (checkpoints r state ttl) = Unit {0}
HasMode (renews r ttl) = Unit {0}
HasMode (forgets r) = Unit {0}
HasMode (reads r) = Unit {0}
HasMode (sweeps opts) = Unit {0}

pub WritesWith-HasMode : (rec : LeaseRecord) (q : Request) → WritesWith rec q → HasMode q
WritesWith-HasMode rec (releases r mode) uses = uses.1
WritesWith-HasMode rec (acquires w h ttl) uses = tt
WritesWith-HasMode rec (checkpoints r state ttl) uses = tt
WritesWith-HasMode rec (renews r ttl) uses = tt
WritesWith-HasMode rec (forgets r) uses = tt
WritesWith-HasMode rec (reads r) uses = tt
WritesWith-HasMode rec (sweeps opts) uses = tt

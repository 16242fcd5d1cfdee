-- ===== src/Worker/Handoff.antt =====
-- worker/runner.go over worklease.go over backend/memory/memory.go: what a worker that succeeds leaves
-- to the next holder.
mod Tests
use worklease.Base.{
  ℕ, ◌+◌, ◌<◌, ◌^◌, ◌≡◌, refl, sym, ◌∙◌, true, false, inl, inr, Option, none, some, Option-cases,
  String, List, [], ◌∷◌, arith, length, if◌then◌else◌,
}
use worklease.Base.Dict.{lookup}
use worklease.Errors.{
  GoError, Result, ok, err, sentinel, is, is_err, fenced, lease_window_exhausted,
}
use worklease.Backend.{Time, Duration, Bytes, exit_finished, Checkpoint, LeaseRecord, declarable}
use worklease.Memory.{
  Row, MemoryBackend, Readings, acquire, checkpoint, release, read_checkpoint, normalize,
}
use worklease.Memory.Calls.{Call, run as run_calls}
use worklease.Memory.Invariant.{IsValid}
use worklease.Memory.History.{AreTimely}
use worklease.Memory.Handoff.{AreForeign, release_handoff}
use worklease.Client.Types.{Context, Token, Observer, Timing, LeaseClient}
use worklease.Client.Calls.{
  to_record, once, attempt, wrap_error, checkpoint as client_checkpoint, release as client_release,
  read_checkpoint as client_read,
}
use worklease.Client.Fencing.{on_memory}
use worklease.Lease.{Lease, Scope, caller, cleanup, WorkOutcome, returned, End, returns}
use worklease.Worker.{Runner, run, settle, classify, exit_of}

-- The lease client as an implementation of the interface Lease: each call gets what ctx.Err()
-- returns for its scope, and its times. Acquire is called without options.
unfoldable pub client_lease :
    {S O : Type 0} → LeaseClient S O → (Scope → Context) → (S × O → Timing) → Lease (S × O)
unfolding attempt client_checkpoint client_release client_read
client_lease c live timing = record {
  acquire = λ scope work_id w.
      let (reply, token, w') = attempt c (live scope) (timing w) work_id w in
      (once reply token, w');
  read_checkpoint = λ scope token w. client_read c (live scope) (timing w) token w;
  checkpoint = λ scope token state w. client_checkpoint c (live scope) (timing w) token state w;
  release = λ scope token mode w. client_release c (live scope) (timing w) token mode w;
}

-- Run with a work function that returns or panics.
run_settled :
    {W : Type 0} (r : Runner W) {work_id : String} {token : Token} {cp : Checkpoint}
    {outcome : WorkOutcome} {w₀ w₁ w₂ w₃ : W}
    → r.lease.acquire caller work_id w₀ ≡ (ok token, w₁)
    → r.lease.read_checkpoint caller token w₁ ≡ (ok cp, w₂)
    → r.fn token cp w₂ ≡ (outcome, w₃)
    → run r work_id w₀ ≡ settle r token outcome w₃
unfolding run
run_settled r acquired read worked = ground (arith, acquired, read, worked)

module _ {C O : Type 0} (tick : C → Readings × C) (ttl : Duration) (holder_id : String)
    (obs : Observer O) (timing : (MemoryBackend × C) × O → Timing) where
  -- A lease client on the in-memory backend, under contexts that are not done.
  abbrev pub lease : Lease ((MemoryBackend × C) × O)
  lease = client_lease (on_memory tick ttl holder_id obs) (λ scope. none) timing

  abbrev pub runner :
      (Token → Checkpoint → (MemoryBackend × C) × O → WorkOutcome × ((MemoryBackend × C) × O))
      → Duration
      → Runner ((MemoryBackend × C) × O)
  runner fn timeout = record { lease = lease; fn = fn; cleanup_timeout = timeout }

  -- A final checkpoint and a release that both went through.
  settle_saves :
      (fn : Token → Checkpoint → (MemoryBackend × C) × O → WorkOutcome × ((MemoryBackend × C) × O))
      (timeout : Duration) (token : Token) (state : Bytes) (m z : MemoryBackend) (k k' : C)
      (o o' : O)
      → settle (runner fn timeout) token (returned (some state) none none) ((m, k), o)
        ≡ (returns none, ((z, k'), o'))
      → (z₁ : MemoryBackend) × (checkpoint none (tick k).0 (to_record token) (some state) ttl m
          ≡ (none, z₁))
        × (release none (tick (tick k).1).0 (to_record token) exit_finished z₁ ≡ (none, z))
  unfolding client_lease classify exit_of client_checkpoint client_release
  settle_saves fn timeout token state m z k k' o o' e = at_checkpoint saved refl
    where
      saved : Option GoError × MemoryBackend
      saved = checkpoint none (tick k).0 (to_record token) (some state) ttl m

      left : MemoryBackend → Option GoError × MemoryBackend
      left m' = release none (tick (tick k).1).0 (to_record token) exit_finished m'

      at_release :
          (m' : MemoryBackend) (y : Option GoError × MemoryBackend)
          → saved ≡ (none, m')
          → left m' ≡ y
          → left m' ≡ (none, z)
      at_release m' (none, m'') h h' = ground (arith, e, h, h')
      at_release m' (some x, m'') h h' = ground (arith, e, h, h')

      at_checkpoint :
          (x : Option GoError × MemoryBackend)
          → saved ≡ x
          → (z₁ : MemoryBackend) × (saved ≡ (none, z₁)) × (left z₁ ≡ (none, z))
      at_checkpoint (none, m') h = (m', h, at_release m' (left m') h refl)
      at_checkpoint (some x, m') h = absurd (ground (arith, e, h))

  -- From one worker to the next holder, through the runner, the lease client and the in-memory
  -- backend. A worker's Run returns nil after its work function has returned a state and nil, with
  -- nothing wrong with its lease. Then any calls follow that
  -- have no right to change the row (under a context that is done, with a record of another work ID,
  -- holder or token, an Acquire of another work ID or before the expiry, a Sweep that the row is not
  -- one to delete for), in a valid state, with clock readings that do not go back and with room in
  -- the token counter; then another holder acquires the work ID. It
  -- reads that state (nil for an empty one), ExitFinished,
  -- and the ID of the holder in the worker's token.
  pub worker_handoff :
      (fn : Token → Checkpoint → (MemoryBackend × C) × O → WorkOutcome × ((MemoryBackend × C) × O))
      (timeout : Duration) (work_id : String) (token : Token) (cp : Checkpoint) (state : Bytes)
      (w₀ w₁ w₂ : (MemoryBackend × C) × O) (m z z₃ : MemoryBackend) (k k' : C) (o o' : O) (t : Time)
      (cs : List Call) (row : Row) (n₃ : Readings) (other : String) (ttl' : Duration)
      (next : LeaseRecord)
      → lease.acquire caller work_id w₀ ≡ (ok token, w₁)
      → lease.read_checkpoint caller token w₁ ≡ (ok cp, w₂)
      → fn token cp w₂ ≡ (returned (some state) none none, ((m, k), o))
      → run (runner fn timeout) work_id w₀ ≡ (returns none, ((z, k'), o'))
      → lookup token.work_id z.records ≡ some row
      → IsValid t z
      → AreTimely t cs
      → z.seq + length cs < 2 ^ 64
      → AreForeign token.work_id row cs
      → acquire none n₃ token.work_id other ttl' (run_calls z cs) ≡ (ok next, z₃)
      → read_checkpoint none next z₃
        ≡ ok (record {
          state = normalize (some state);
          prev_exit = exit_finished;
          prev_holder_id = token.holder_id;
        })
  worker_handoff fn timeout work_id token cp state w₀ w₁ w₂ m z z₃ k k' o o' t cs row n₃ other ttl'
        next acquired read worked ran found v timely room foreign taken =
      let (z₁, saved, left) = settle_saves fn timeout token state m z k k' o o' (settled ran) in
      release_handoff t (tick k).0 (tick (tick k).1).0 n₃ (to_record token) next (some state) ttl
        ttl' exit_finished other m z₁ z z₃ cs row saved left found v timely room foreign taken
    where
      settled :
          run (runner fn timeout) work_id w₀ ≡ (returns none, ((z, k'), o'))
          → settle (runner fn timeout) token (returned (some state) none none) ((m, k), o)
            ≡ (returns none, ((z, k'), o'))
      settled e = sym (run_settled (runner fn timeout) acquired read worked) ∙ e

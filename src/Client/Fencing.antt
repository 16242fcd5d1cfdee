-- ===== src/Client/Fencing.antt =====
-- A fenced holder, seen through the lease client on the in-memory backend.
use worklease.Base.{◌+◌, ◌≤◌, ◌<◌, ◌^◌, ◌≡◌, refl, true, Option, none, some, String, List, length}
use worklease.Errors.{GoError, ok, sentinel, is_err, error_of, fenced, is}
use worklease.Errors.Laws.{is_self}
use worklease.Backend.{Time, Duration, Bytes, LeaseRecord}
use worklease.Memory.{MemoryBackend, Readings, acquire}
use worklease.Memory.Calls.{Call, run}
use worklease.Memory.Invariant.{IsValid, IsOrdered}
use worklease.Memory.History.{AreTimely}
use worklease.Memory.Fencing.{acquire_fences_old}
use worklease.Memory.Service.{service}
use worklease.Client.Types.{
  Token, LeaseClient, Observer, Timing, on_checkpoint, on_renew, on_forget, on_fenced,
  operation_checkpoint, operation_renew, operation_forget,
}
use worklease.Client.Calls.{to_record, size, checkpoint, renew, forget, read_checkpoint}

-- A client on the in-memory backend.
abbrev pub on_memory :
    {C O : Type 0}
    → (C → Readings × C)
    → Duration
    → String
    → Observer O
    → LeaseClient (MemoryBackend × C) O
on_memory tick ttl holder_id obs = record {
  backend = service tick;
  ttl = ttl;
  holder_id = holder_id;
  obs = obs;
}

module _ {C O : Type 0} (tick : C → Readings × C) (ttl : Duration) (holder_id : String)
    (obs : Observer O) where
  abbrev pub c : LeaseClient (MemoryBackend × C) O
  c = on_memory tick ttl holder_id obs

  -- What the methods do for a holder that is fenced off.
  abbrev pub Stopped : Token → Timing → Option Bytes → MemoryBackend → C → O → Type 0
  Stopped token timing state m k o =
      let w : (MemoryBackend × C) × O = ((m, k), o) in
      let e : Option GoError = some (sentinel fenced) in
      ((is_err (checkpoint c none timing token state w).0 fenced ≡ true)
        × ((checkpoint c none timing token state w).1 ≡ (
          (m, (tick k).1),
          obs (on_fenced token operation_checkpoint)
              (obs (on_checkpoint token (size state) timing.dur e) o),
        )))
      × ((is_err (renew c none timing token w).0 fenced ≡ true)
          × ((renew c none timing token w).1 ≡ (
            (m, (tick k).1),
            obs (on_fenced token operation_renew) (obs (on_renew token timing.dur 1 e) o),
          )))
      × ((is_err (forget c none timing token w).0 fenced ≡ true)
          × ((forget c none timing token w).1 ≡ (
            (m, k),
            obs (on_fenced token operation_forget) (obs (on_forget token timing.dur e) o),
          )))
      × (is_err (error_of (read_checkpoint c none timing token w).0) fenced ≡ true)

  -- Once a successor has acquired the work ID, the holder before it learns so from its client
  -- after any further history: Checkpoint, Renew and Forget return an error
  -- that matches ErrFenced, leave the backend as it is, and call OnFenced after the method's own
  -- event; ReadCheckpoint returns an error that matches ErrFenced. (The sequence has room, and the
  -- clock does not go back.)
  pub client_learns_fencing :
      (t : Time) (token : Token) (rec : LeaseRecord) (now : Readings) (successor : String)
      (ttl' : Duration) (m z : MemoryBackend) (cs : List Call) (timing : Timing)
      (state : Option Bytes) (k : C) (o : O)
      → IsValid t m
      → IsOrdered t now
      → m.seq + 1 + length cs < 2 ^ 64
      → AreTimely now.update cs
      → token.fencing_token ≤ m.seq
      → acquire none now token.work_id successor ttl' m ≡ (ok rec, z)
      → Stopped token timing state (run z cs) k o
  unfolding checkpoint renew forget read_checkpoint is
  client_learns_fencing t token rec now successor ttl' m z cs timing state k o v od room os issued
        e =
      let off =
        acquire_fences_old t (to_record token) rec now successor ttl' m z cs v od room os issued
          e in
      (
        rw (off.no_checkpoint (tick k).0 state ttl, is_self fenced) (is_self fenced, refl),
        rw (off.no_renew (tick k).0 ttl, is_self fenced) (is_self fenced, refl),
        rw (off.no_forget, is_self fenced) (is_self fenced, refl),
        rw (off.no_read, is_self fenced) (is_self fenced),
      )

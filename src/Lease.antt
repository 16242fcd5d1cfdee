-- ===== src/Lease.antt =====
-- The Lease interface of lease.go, as worker/runner.go and leader/leader.go use it.
-- W is the state of all that a call can reach. The two contexts that the callers pass are the
-- caller's own, and the cleanup context that survives its cancellation for a time.
use worklease.Base.{Option, String, List, [], ◌∷◌, ◌++◌, if◌then◌else◌}
use worklease.Base.Int.{pos, leb_ℤ}
use worklease.Errors.{GoError, Result}
use worklease.Backend.{Duration, Bytes, ExitMode, Checkpoint}
use worklease.Client.Types.{Token}

pub data Scope : Type 0 where
  -- the ctx of the caller
  caller : Scope
  -- context.WithTimeout(context.WithoutCancel(ctx), timeout)
  cleanup : Duration → Scope

-- The methods that Runner.Run and Elect call, with the options that they pass to Acquire given, but
-- StartRenewal, which is in WorkOutcome below.
pub record Lease (W : Type 0) : Type 0 where
  pub acquire : Scope → String → W → Result Token × W
  pub read_checkpoint : Scope → Token → W → Result Checkpoint × W
  pub checkpoint : Scope → Token → Option Bytes → W → Option GoError × W
  pub release : Scope → Token → ExitMode → W → Option GoError × W

-- What there is once the function that runs under the renewal context has ended and stopRenewal
-- has returned: that it panicked, or what it returned, with context.Cause(renewCtx) at that point.
pub data WorkOutcome : Type 0 where
  panicked : WorkOutcome
  returned : Option Bytes → Option GoError → Option GoError → WorkOutcome

-- How a call ends.
pub data End : Type 0 where
  returns : Option GoError → End
  panics : End

-- 5s where the configured timeout is zero or negative.
unfoldable pub cleanup_timeout : Duration → Duration
cleanup_timeout d = if leb_ℤ d (pos 0) then pos 5_000_000_000 else d

-- The calls that a client of the interface makes, in order.
pub data LeaseCall : Type 0 where
  called_acquire : Scope → String → LeaseCall
  called_read : Scope → Token → LeaseCall
  called_work : Token → LeaseCall
  called_checkpoint : Scope → Token → Option Bytes → LeaseCall
  called_release : Scope → Token → ExitMode → LeaseCall
  -- the callbacks and the waits of Elect
  called_elected called_lost called_relinquished : Token → LeaseCall
  slept : Duration → LeaseCall

-- The releases among the calls, with the context and the mode of each.
abbrev pub releases : List LeaseCall → List (Scope × ExitMode)
releases [] = []
releases (called_release scope token mode ∷ cs) = (scope, mode) ∷ releases cs
releases (called_acquire scope work_id ∷ cs) = releases cs
releases (called_read scope token ∷ cs) = releases cs
releases (called_work token ∷ cs) = releases cs
releases (called_checkpoint scope token state ∷ cs) = releases cs
releases (called_elected token ∷ cs) = releases cs
releases (called_lost token ∷ cs) = releases cs
releases (called_relinquished token ∷ cs) = releases cs
releases (slept d ∷ cs) = releases cs

-- A lease that gives the replies of a script and records the calls. A client that makes each call
-- at most once meets every behaviour of a lease in some script.
pub record Script : Type 0 where
  pub on_acquire : Result Token
  pub on_read : Result Checkpoint
  pub on_checkpoint : Option GoError
  pub on_release : Option GoError

abbrev pub scripted : Script → Lease (List LeaseCall)
scripted s = record {
  acquire = λ scope work_id w. (s.on_acquire, w ++ called_acquire scope work_id ∷ []);
  read_checkpoint = λ scope token w. (s.on_read, w ++ called_read scope token ∷ []);
  checkpoint =
      λ scope token state w. (s.on_checkpoint, w ++ called_checkpoint scope token state ∷ []);
  release = λ scope token mode w. (s.on_release, w ++ called_release scope token mode ∷ []);
}

-- ===== src/Leader.antt =====
-- leader/leader.go: Elect.
pub mod Terms
mod Tests
use worklease.Base.{
  Bool, true, false, not, ◌&&◌, ◌||◌, ◌==◌, Option, none, some, String, if◌then◌else◌,
}
use worklease.Base.Int.{pos, ◌+ℤ◌, leb_ℤ, ltb_ℤ}
use worklease.Errors.{
  GoError, Result, ok, err, sentinel, wrap, is, is_err, fenced, lease_held, lease_window_exhausted,
  retire, canceled, deadline_exceeded, leader_lease_required, leader_fn_required,
}
use worklease.Backend.{Duration, ExitMode, exit_finished, exit_abandoned, exit_retired}
use worklease.Client.Types.{Token}
use worklease.Lease.{Lease, caller, cleanup, End, returns, panics, cleanup_timeout}

-- What there is once fn has ended: that it panicked; or its error, whether renewCtx was done then,
-- whether ctx was done then, and context.Cause(renewCtx) after stopRenewal.
pub data FnOutcome : Type 0 where
  fn_panicked : FnOutcome
  fn_returned : Option GoError → Bool → Bool → Option GoError → FnOutcome

-- The callbacks change the state like any other call; nil is none.
pub record Config (W : Type 0) : Type 0 where
  pub idle_interval : Duration
  pub backoff_interval : Duration
  pub cleanup_timeout : Duration
  pub on_elected : Option (Token → W → W)
  pub on_lost : Option (Token → W → W)
  pub on_relinquished : Option (Token → W → W)

-- What Elect takes from the runtime: a select on time.After(d) and ctx.Done(), and the draw
-- time.Duration(idleJitter * float64(base) * rand.Float64()).
pub record Runtime (W : Type 0) : Type 0 where
  pub sleep : Duration → W → W
  pub draw : Duration → Duration

-- 1s
abbrev pub default_idle_interval : Duration
default_idle_interval = pos 1_000_000_000

abbrev notify : {W : Type 0} → Option (Token → W → W) → Token → W → W
notify none token w = w
notify (some f) token w = f token w

module _ {W : Type 0} (rt : Runtime W) (lease : Lease W) (cfg : Config W) where
  unfoldable pub jitter_wait : Duration → Duration
  jitter_wait base = base +ℤ rt.draw base

  abbrev pub backoff : W → W
  backoff w = if ltb_ℤ (pos 0) cfg.backoff_interval then rt.sleep cfg.backoff_interval w else w

  -- The pacing of a failed Acquire: P1, P2, P3.
  unfoldable pub pace : GoError → W → W
  unfolding jitter_wait
  pace e w =
      if is e canceled || is e deadline_exceeded
      then w
      else if is e lease_held
      then rt.sleep
          (jitter_wait
            (if leb_ℤ cfg.idle_interval (pos 0) then default_idle_interval else cfg.idle_interval))
          w
      else backoff w

  -- STEP 8 where the lease is not lost: the mode and the result.
  unfoldable pub exit_of : Option GoError → ExitMode × Option GoError
  exit_of none = (exit_finished, none)
  exit_of (some e) = if is e retire then (exit_retired, none) else (exit_abandoned, some e)

  -- The result where the lease window ran out.
  abbrev pub exhausted : Option GoError → Option GoError → Option GoError
  exhausted (some e) cause = some e
  exhausted none (some c) = some (wrap "leader: " c)
  exhausted none none = none

  abbrev is_nil : Option GoError → Bool
  is_nil none = true
  is_nil (some e) = false

  -- STEP 10.
  abbrev relinquish : Token → ExitMode → Option GoError → W → W
  relinquish token mode rel_err w =
      if is_nil rel_err && not (mode == exit_abandoned)
      then notify cfg.on_relinquished token w
      else w

  abbrev with_release : Option GoError → Option GoError → Option GoError
  with_release none result = result
  with_release (some e) none = some (wrap "leader: release: " e)
  with_release (some e) (some x) = some x

  -- STEP 9 to 13.
  abbrev pub resign : Token → ExitMode → Option GoError → W → End × W
  resign token mode result w =
      let (rel_err, w') =
        lease.release (cleanup (cleanup_timeout cfg.cleanup_timeout)) token mode w in
      let w'' = relinquish token mode rel_err w' in
      if is_err rel_err fenced
      then (returns (some (sentinel fenced)), w'')
      else (returns (with_release rel_err result), backoff w'')

  -- STEP 7 and 8.
  abbrev pub classify : Token → Option GoError → Option GoError → W → End × W
  classify token fn_err cause w =
      if is_err fn_err fenced || is_err cause fenced
      then (returns (some (sentinel fenced)), w)
      else if is_err cause lease_window_exhausted
      then (returns (exhausted fn_err cause), backoff w)
      else let (mode, result) = exit_of fn_err in resign token mode result w

  -- From the end of fn on.
  abbrev pub settle : Token → FnOutcome → W → End × W
  settle token fn_panicked w = (panics, w)
  settle token (fn_returned fn_err renew_done ctx_done cause) w =
      classify token fn_err cause
        (if renew_done && not ctx_done then notify cfg.on_lost token w else w)

  unfoldable pub elect_with : (Token → W → FnOutcome × W) → String → W → End × W
  unfolding pace exit_of cleanup_timeout
  elect_with fn work_id w =
      let (acquired, w₁) = lease.acquire caller work_id w in
      elim acquired [
        | err e ↦ (returns (some e), pace e w₁)
        | ok token ↦
            let (outcome, w₂) = fn token (notify cfg.on_elected token w₁) in settle token outcome w₂
      ]

-- The nil checks, and then the rest.
unfoldable pub elect :
    {W : Type 0}
    → Runtime W
    → Option (Lease W)
    → Config W
    → Option (Token → W → FnOutcome × W)
    → String
    → W
    → End × W
unfolding elect_with
elect rt none cfg fn work_id w = (returns (some (sentinel leader_lease_required)), w)
elect rt (some lease) cfg none work_id w = (returns (some (sentinel leader_fn_required)), w)
elect rt (some lease) cfg (some fn) work_id w = elect_with rt lease cfg fn work_id w

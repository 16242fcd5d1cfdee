-- ===== src/Worker.antt =====
-- worker/runner.go: NewRunner and Runner.Run.
pub mod Exits
pub mod Handoff
mod Tests
use worklease.Base.{Bool, true, false, not, Option, none, some, String, if◌then◌else◌}
use worklease.Errors.{
  GoError, Result, ok, err, sentinel, wrap, is, is_err, fenced, lease_window_exhausted, retire,
  worker_lease_required, worker_work_fn_required,
}
use worklease.Backend.{
  Duration, Bytes, ExitMode, exit_finished, exit_abandoned, exit_retired, Checkpoint,
}
use worklease.Client.Types.{Token}
use worklease.Lease.{
  Lease, Scope, caller, cleanup, WorkOutcome, panicked, returned, End, returns, panics,
  cleanup_timeout,
}

-- The WorkFn with its renewal: from the token and the prior checkpoint to what it returns and the
-- cause of the renewal context, over the state that it and the renewal change meanwhile.
abbrev pub WorkFn : Type 0 → Type 0
WorkFn W = Token → Checkpoint → W → WorkOutcome × W

pub record RunnerConfig (W : Type 0) : Type 0 where
  pub lease : Option (Lease W)
  pub work_fn : Option (WorkFn W)
  pub cleanup_timeout : Duration

pub record Runner (W : Type 0) : Type 0 where
  pub lease : Lease W
  pub fn : WorkFn W
  pub cleanup_timeout : Duration

unfoldable pub new_runner : {W : Type 0} → RunnerConfig W → Result (Runner W)
unfolding cleanup_timeout
new_runner cfg = elim cfg.lease [
  | none ↦ err (sentinel worker_lease_required)
  | some lease ↦ elim cfg.work_fn [
    | none ↦ err (sentinel worker_work_fn_required)
    | some fn ↦
        ok
          (record { lease = lease; fn = fn; cleanup_timeout = cleanup_timeout cfg.cleanup_timeout })
  ]
]

-- STEP 6: `errors.Is(workErr, ErrFenced) || errors.Is(cause, ErrFenced)` and so on.
pub data Outcome : Type 0 where
  is_fenced : Outcome
  window_exhausted : GoError → Outcome
  exits : ExitMode → Option GoError → Outcome

abbrev first_error : Option GoError → Option GoError → GoError
first_error (some e) cause = e
first_error none (some cause) = wrap "worker: " cause
first_error none none = sentinel lease_window_exhausted

unfoldable pub exit_of : Option GoError → ExitMode × Option GoError
exit_of none = (exit_finished, none)
exit_of (some e) = if is e retire then (exit_retired, none) else (exit_abandoned, some e)

unfoldable pub classify : Option GoError → Option GoError → Outcome
unfolding exit_of
classify work_err cause =
    if is_err work_err fenced
    then is_fenced
    else if is_err cause fenced
    then is_fenced
    else if is_err cause lease_window_exhausted
    then window_exhausted (first_error work_err cause)
    else let (mode, result) = exit_of work_err in exits mode result

module _ {W : Type 0} (r : Runner W) (token : Token) where
  -- What Run returns after the release.
  abbrev pub after_release : Option GoError → Option GoError → Option GoError
  after_release none result = result
  after_release (some e) result =
      if is e fenced
      then some (sentinel fenced)
      else elim result [ none ↦ some (wrap "worker: release: " e) | some x ↦ some x ]

  -- STEP 9.
  abbrev pub finish : ExitMode → Option GoError → W → End × W
  finish mode result w =
      let (rel_err, w') = r.lease.release (cleanup r.cleanup_timeout) token mode w in
      (returns (after_release rel_err result), w')

  -- The result where the final checkpoint failed: `if successClass { result = … }`.
  abbrev pub checkpoint_failed : GoError → Option GoError → Option GoError
  checkpoint_failed e none = some (wrap "worker: checkpoint: " e)
  checkpoint_failed e (some x) = some x

  -- STEP 8.
  abbrev pub save : Option Bytes → ExitMode → Option GoError → W → End × W
  save none mode result w = finish mode result w
  save (some state) mode result w =
      let (cp_err, w') = r.lease.checkpoint (cleanup r.cleanup_timeout) token (some state) w in
      elim cp_err [
        | none ↦ finish mode result w'
        | some e ↦
            if is e fenced
            then (returns (some (sentinel fenced)), w')
            else finish exit_abandoned (checkpoint_failed e result) w'
      ]

  abbrev pub conclude : Option Bytes → Outcome → W → End × W
  conclude state is_fenced w = (returns (some (sentinel fenced)), w)
  conclude state (window_exhausted e) w = (returns (some e), w)
  conclude state (exits mode result) w = save state mode result w

  abbrev pub settle : WorkOutcome → W → End × W
  settle panicked w = (panics, w)
  settle (returned state work_err cause) w = conclude state (classify work_err cause) w

unfoldable pub run : {W : Type 0} → Runner W → String → W → End × W
unfolding classify
run r work_id w =
    let (acquired, w₁) = r.lease.acquire caller work_id w in
    elim acquired [
      | err e ↦ (returns (some (wrap "worker: acquire: " e)), w₁)
      | ok token ↦
          let (read, w₂) = r.lease.read_checkpoint caller token w₁ in
          elim read [
            | err e ↦
                if is e fenced
                then (returns (some (sentinel fenced)), w₂)
                else (returns (some (wrap "worker: read checkpoint: " e)), w₂)
            | ok cp ↦ let (outcome, w₃) = r.fn token cp w₂ in settle r token outcome w₃
          ]
    ]

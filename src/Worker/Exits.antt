-- ===== src/Worker/Exits.antt =====
-- Which exit Runner.Run records, and what it returns.
use worklease.Base.{
  ◌≡◌, Bool, true, false, ◌||◌, Option, none, some, String, List, [], ◌∷◌, ◌++◌, arith, is_some,
  if◌then◌else◌,
}
use worklease.Errors.{GoError, ok, is, is_err, fenced, lease_window_exhausted, retire}
use worklease.Backend.{
  Duration, Bytes, ExitMode, exit_finished, exit_abandoned, exit_retired, Checkpoint,
}
use worklease.Client.Types.{Token}
use worklease.Lease.{
  Scope, caller, cleanup, WorkOutcome, returned, End, returns, LeaseCall, called_acquire,
  called_read, called_work, releases, Script, scripted,
}
use worklease.Worker.{Runner, run, settle, classify, exit_of}

-- A runner over a scripted lease, whose work function ends as given.
abbrev pub runner : Script → WorkOutcome → Duration → Runner (List LeaseCall)
runner s outcome timeout = record {
  lease = scripted s;
  fn = λ token cp w. (outcome, w ++ called_work token ∷ []);
  cleanup_timeout = timeout;
}

-- The calls up to the work function's.
abbrev pub started : String → Token → List LeaseCall
started work_id token =
    called_acquire caller work_id ∷ called_read caller token ∷ called_work token ∷ []

-- The lease is gone: fenced, or its window ran out.
abbrev pub is_lost : Option GoError → Option GoError → Bool
is_lost work_err cause =
    is_err work_err fenced || (is_err cause fenced || is_err cause lease_window_exhausted)

-- The reply that the final checkpoint meets: none is made for a nil state.
abbrev pub saved : Option Bytes → Script → Option GoError
saved none s = none
saved (some state) s = s.on_checkpoint

-- The exit that the comments promise for what the work function returned, once the final
-- checkpoint went through.
abbrev pub promised_exit : Option GoError → ExitMode
promised_exit none = exit_finished
promised_exit (some e) = if is e retire then exit_retired else exit_abandoned

-- Whether Run counts as successful what the work function returned.
abbrev pub is_success : Option GoError → Bool
is_success none = true
is_success (some e) = is e retire

module _ (s : Script) (timeout : Duration) (work_id : String) (token : Token) (cp : Checkpoint)
    (acquired : s.on_acquire ≡ ok token) (read : s.on_read ≡ ok cp) where
  run-started :
      (outcome : WorkOutcome)
      → run (runner s outcome timeout) work_id []
        ≡ settle (runner s outcome timeout) token outcome (started work_id token)
  unfolding run
  run-started outcome = rw (acquired, run) (rw (read, run))

  abbrev settled : Option Bytes → Option GoError → Option GoError → End × List LeaseCall
  settled state work_err cause =
      settle (runner s (returned state work_err cause) timeout) token
        (returned state work_err cause) (started work_id token)

  abbrev expected : Option Bytes → Option GoError → Option GoError → List (Scope × ExitMode)
  expected state work_err cause =
      if is_lost work_err cause || is_err (saved state s) fenced
      then []
      else if is_some (saved state s)
      then (cleanup timeout, exit_abandoned) ∷ []
      else (cleanup timeout, promised_exit work_err) ∷ []

  releases-settled :
      (state : Option Bytes) (work_err cause : Option GoError)
      → releases (settled state work_err cause).1 ≡ expected state work_err cause
  unfolding classify exit_of
  releases-settled none none none = ground arith
  releases-settled _ _ _ = ground arith

  -- Once the work function has returned, Run releases nothing if the lease is lost or the final
  -- checkpoint was fenced; it releases with ExitAbandoned if that checkpoint failed otherwise, and
  -- else with ExitFinished for nil, ExitRetired for an error that wraps ErrRetire, and ExitAbandoned
  -- for any other. There is one release at most, and it is on the cleanup context.
  pub releases-run :
      (state : Option Bytes) (work_err cause : Option GoError)
      → releases (run (runner s (returned state work_err cause) timeout) work_id []).1 ≡ (
          if is_lost work_err cause || is_err (saved state s) fenced
          then []
          else if is_some (saved state s)
          then (cleanup timeout, exit_abandoned) ∷ []
          else (cleanup timeout, promised_exit work_err) ∷ [])
  releases-run state work_err cause =
      rw (run-started (returned state work_err cause)) (releases-settled state work_err cause)

  settled_keeps :
      (state : Option Bytes) (e : GoError) (cause : Option GoError)
      → is e retire ≡ false
      → is_lost (some e) cause ≡ false
      → is_err (saved state s) fenced ≡ false
      → is_err s.on_release fenced ≡ false
      → (settled state (some e) cause).0 ≡ returns (some e)
  unfolding classify exit_of
  settled_keeps none e none a b c d = ground arith
  settled_keeps _ e _ a b c d = ground arith

  -- An error of the work function that does not wrap ErrRetire is what Run returns, whether or not
  -- the final checkpoint and the release fail, as long as nothing is fenced and the lease window
  -- did not run out.
  run_keeps_work_error :
      (state : Option Bytes) (e : GoError) (cause : Option GoError)
      → is e retire ≡ false
      → is_lost (some e) cause ≡ false
      → is_err (saved state s) fenced ≡ false
      → is_err s.on_release fenced ≡ false
      → (run (runner s (returned state (some e) cause) timeout) work_id []).0 ≡ returns (some e)
  run_keeps_work_error state e cause a b c d =
      rw (run-started (returned state (some e) cause)) (settled_keeps state e cause a b c d)

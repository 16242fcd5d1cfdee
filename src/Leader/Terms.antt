-- ===== src/Leader/Terms.antt =====
-- How a term of leadership ends: the exit that Elect records, the callbacks, and the waits.
use worklease.Base.{
  ◌≡◌, Bool, true, false, not, ◌&&◌, ◌||◌, Option, none, some, String, List, [], ◌∷◌, ◌++◌, arith,
  is_some, if◌then◌else◌, ℕ, ◌<◌, ◌*◌,
}
use worklease.Base.Int.{pos, pos_part, ◌+ℤ◌, ◌≤ℤ◌, leb_ℤ, ltb_ℤ}
use worklease.Errors.{GoError, ok, err, is, lease_held, canceled, deadline_exceeded}
use worklease.Backend.{Duration}
use worklease.Client.Types.{Token}
use worklease.Lease.{
  Lease, caller, cleanup, End, returns, LeaseCall, called_acquire, called_work, called_read,
  called_checkpoint, called_release, called_elected, called_lost, called_relinquished, slept,
  releases, Script, scripted, cleanup_timeout,
}
use worklease.Worker.Exits.{promised_exit, is_success, is_lost}
use worklease.Leader.{
  Config, Runtime, FnOutcome, fn_returned, elect_with, settle, pace, exit_of, jitter_wait,
  default_idle_interval,
}

-- A configuration whose three callbacks record that they were called.
abbrev pub recording : Duration → Duration → Duration → Config (List LeaseCall)
recording idle backoff timeout = record {
  idle_interval = idle;
  backoff_interval = backoff;
  cleanup_timeout = timeout;
  on_elected = some (λ token w. w ++ called_elected token ∷ []);
  on_lost = some (λ token w. w ++ called_lost token ∷ []);
  on_relinquished = some (λ token w. w ++ called_relinquished token ∷ []);
}

-- Waits are recorded, and the jitter is any function.
abbrev pub pacing : (Duration → Duration) → Runtime (List LeaseCall)
pacing draw = record { sleep = λ d w. w ++ slept d ∷ []; draw = draw }

abbrev pub waits : List LeaseCall → List Duration
waits [] = []
waits (slept d ∷ cs) = d ∷ waits cs
waits (called_release scope token mode ∷ cs) = waits cs
waits (called_acquire scope work_id ∷ cs) = waits cs
waits (called_read scope token ∷ cs) = waits cs
waits (called_work token ∷ cs) = waits cs
waits (called_checkpoint scope token state ∷ cs) = waits cs
waits (called_elected token ∷ cs) = waits cs
waits (called_lost token ∷ cs) = waits cs
waits (called_relinquished token ∷ cs) = waits cs

abbrev pub was_relinquished : List LeaseCall → Bool
was_relinquished [] = false
was_relinquished (called_relinquished token ∷ cs) = true
was_relinquished (slept d ∷ cs) = was_relinquished cs
was_relinquished (called_release scope token mode ∷ cs) = was_relinquished cs
was_relinquished (called_acquire scope work_id ∷ cs) = was_relinquished cs
was_relinquished (called_read scope token ∷ cs) = was_relinquished cs
was_relinquished (called_work token ∷ cs) = was_relinquished cs
was_relinquished (called_checkpoint scope token state ∷ cs) = was_relinquished cs
was_relinquished (called_elected token ∷ cs) = was_relinquished cs
was_relinquished (called_lost token ∷ cs) = was_relinquished cs

module _ (draw : Duration → Duration) (s : Script) (idle backoff timeout : Duration)
    (work_id : String) where
  abbrev pub elected : FnOutcome → End × List LeaseCall
  elected outcome =
      elect_with (pacing draw) (scripted s) (recording idle backoff timeout)
        (λ token w. (outcome, w ++ called_work token ∷ [])) work_id []

  abbrev pub idle_base : Duration
  idle_base = if leb_ℤ idle (pos 0) then default_idle_interval else idle

  -- A failed Acquire is returned as it is, and the wait before that depends on it: none for a
  -- context error, the jittered idle interval for ErrLeaseHeld (1s where it is not positive), and
  -- the backoff interval for any other error (none where it is not positive). Nothing else is
  -- called.
  elect_paces_failures :
      (outcome : FnOutcome) (e : GoError)
      → s.on_acquire ≡ err e
      → ((elected outcome).0 ≡ returns (some e))
        × (releases (elected outcome).1 ≡ [])
        × (waits (elected outcome).1 ≡ (
            if is e canceled || is e deadline_exceeded
            then []
            else if is e lease_held
            then (idle_base +ℤ draw idle_base) ∷ []
            else if ltb_ℤ (pos 0) backoff
            then backoff ∷ []
            else []))
  unfolding elect_with pace jitter_wait
  elect_paces_failures outcome e failed = (
    rw (failed, elect_with),
    rw (failed, elect_with) (ground arith),
    rw (failed, elect_with) (ground arith),
  )

  module _ (token : Token) (acquired : s.on_acquire ≡ ok token) where
    abbrev pub in_office : List LeaseCall
    in_office = called_acquire caller work_id ∷ called_elected token ∷ called_work token ∷ []

    abbrev settled : FnOutcome → End × List LeaseCall
    settled outcome =
        settle (pacing draw) (scripted s) (recording idle backoff timeout) token outcome in_office

    elect_started : (outcome : FnOutcome) → elected outcome ≡ settled outcome
    unfolding elect_with
    elect_started outcome = rw (acquired, elect_with)

    releases-settled :
        (fn_err : Option GoError) (renewed over : Bool) (cause : Option GoError)
        → releases (settled (fn_returned fn_err renewed over cause)).1 ≡ (
            if is_lost fn_err cause
            then []
            else (cleanup (cleanup_timeout timeout), promised_exit fn_err) ∷ [])
    unfolding exit_of
    releases-settled none true true none = ground arith
    releases-settled _ _ _ _ = ground arith

    -- Once fn has returned, Elect releases nothing if the lease is lost, and otherwise once, on the
    -- cleanup context: with ExitFinished for nil, ExitRetired for an error that wraps ErrRetire,
    -- and ExitAbandoned for any other.
    pub elect_releases :
        (fn_err : Option GoError) (renewed over : Bool) (cause : Option GoError)
        → releases (elected (fn_returned fn_err renewed over cause)).1 ≡ (
            if is_lost fn_err cause
            then []
            else (cleanup (cleanup_timeout timeout), promised_exit fn_err) ∷ [])
    elect_releases fn_err renewed over cause =
        rw (elect_started (fn_returned fn_err renewed over cause))
          (releases-settled fn_err renewed over cause)

    settled_relinquishes :
        (fn_err : Option GoError) (renewed over : Bool) (cause : Option GoError)
        → was_relinquished (settled (fn_returned fn_err renewed over cause)).1
          ≡ (not (is_lost fn_err cause) && (is_success fn_err && not (is_some s.on_release)))
    unfolding exit_of
    settled_relinquishes none true true none = ground arith
    settled_relinquishes _ _ _ _ = ground arith

    -- OnRelinquished is called exactly if fn succeeded or retired the work ID, the lease is not
    -- lost, and Release returned nil.
    elect_relinquishes :
        (fn_err : Option GoError) (renewed over : Bool) (cause : Option GoError)
        → was_relinquished (elected (fn_returned fn_err renewed over cause)).1
          ≡ (not (is_lost fn_err cause) && (is_success fn_err && not (is_some s.on_release)))
    elect_relinquishes fn_err renewed over cause =
        rw (elect_started (fn_returned fn_err renewed over cause))
          (settled_relinquishes fn_err renewed over cause)

-- The idle wait lies in [base, 1.2 * base), where the draw lies in [0, 0.2 * base).
pub jitter_wait_bounds :
    {W : Type 0} (rt : Runtime W) (lease : Lease W) (cfg : Config W) (base : ℕ)
    → pos 0 ≤ℤ rt.draw (pos base)
    → (5 * pos_part (rt.draw (pos base))) < base
    → (pos base ≤ℤ jitter_wait rt lease cfg (pos base))
      × (5 * pos_part (jitter_wait rt lease cfg (pos base)) < 6 * base)
unfolding jitter_wait ◌+ℤ◌
jitter_wait_bounds rt lease cfg base low high = ground arith

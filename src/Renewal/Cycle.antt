-- ===== src/Renewal/Cycle.antt =====
-- renewAttempt and renewCycle: one Renew call, and its retries.
use worklease.Base.{ℕ, ◌+◌, Bool, false, not, Option, none, some, List, [], ◌∷◌, if◌then◌else◌}
use worklease.Base.Int.{◌+ℤ◌, ltb_ℤ}
use worklease.Errors.{
  GoError, sentinel, join, is, fenced, lease_expired, lease_window_exhausted, canceled,
  deadline_exceeded,
}
use worklease.Backend.{Time, Duration}
use worklease.Client.Types.{Token, on_renew, on_fenced, operation_renew, Observer}
use worklease.Renewal.Backoff.{Floats, RenewalConfig, backoff_wait, next_backoff}

-- Which case of the select of renewAttempt is taken: the call returned, or W1, W2, W3.
pub data AttemptEnd : Type 0 where
  attempt_returned : Option GoError → AttemptEnd
  attempt_stopped : AttemptEnd
  attempt_parent_done : GoError → AttemptEnd
  attempt_window_closed : AttemptEnd

-- Which case of the select during the backoff is taken.
pub data Pause : Type 0 where
  pause_stopped pause_parent_done pause_window_closed pause_over : Pause

-- What one attempt of renewCycle meets: time.Now() before the call and its duration, how the wait
-- for it ends, time.Now() before the backoff, the backoff's end, and time.Now() after it.
pub record Try : Type 0 where
  pub start : Time
  pub dur : Duration
  pub end : AttemptEnd
  pub now_before : Time
  pub pause : Pause
  pub now_after : Time

-- The error that OnRenew gets.
unfoldable pub attempt_error : AttemptEnd → Option GoError
attempt_error (attempt_returned e) = e
attempt_error attempt_stopped = some (sentinel canceled)
attempt_error (attempt_parent_done e) = some e
attempt_error attempt_window_closed = some (sentinel deadline_exceeded)

-- How a cycle ends: renewed, with the new window; or the goroutine exits, with the cause that it
-- cancels the renewal context with, if it does.
pub data CycleEnd : Type 0 where
  renewed : Time → CycleEnd
  exited : Option GoError → CycleEnd

-- What an attempt leads to.
pub data Verdict : Type 0 where
  ended : CycleEnd → Verdict
  fenced_off : Verdict
  retries : Verdict

abbrev window_exhausted : CycleEnd
window_exhausted = exited (some (sentinel lease_window_exhausted))

-- `!time.Now().Before(window)`
abbrev pub is_closed : Time → Time → Bool
is_closed window now = not (ltb_ℤ now window)

unfoldable pub after_pause : Time → Try → Verdict
after_pause window t = elim t.pause [
  | pause_stopped ↦ ended (exited none)
  | pause_parent_done ↦ ended (exited none)
  | pause_window_closed ↦ ended window_exhausted
  | pause_over ↦ if is_closed window t.now_after then ended window_exhausted else retries
]

unfoldable pub after_error : Time → Try → GoError → Verdict
unfolding after_pause
after_error window t e =
    if is e fenced
    then fenced_off
    else if is e lease_expired
    then ended (exited (some (join (sentinel lease_window_exhausted) (sentinel lease_expired))))
    else if is_closed window t.now_before
    then ended window_exhausted
    else after_pause window t

unfoldable pub verdict : Duration → Time → Try → Verdict
unfolding after_error
verdict ttl window t = elim t.end [
  | attempt_stopped ↦ ended (exited none)
  | attempt_parent_done e ↦ ended (exited none)
  | attempt_window_closed ↦ ended window_exhausted
  | attempt_returned e ↦ elim e [
    | none ↦ ended (renewed (t.start +ℤ ttl))
    | some x ↦ after_error window t x
  ]
]

-- The observer, the backoff timer, and what the cycle is called with.
pub record Renewer (F O : Type 0) : Type 0 where
  pub floats : Floats F
  pub obs : Observer O
  -- time.NewTimer of the backoff
  pub timer : Duration → O → O
  pub ttl : Duration
  pub token : Token
  pub config : RenewalConfig F

-- Whether the attempt reached its backoff, where the timer is set.
unfoldable pub reaches_pause : Time → Try → Bool
reaches_pause window t = elim t.end [
  | attempt_returned (some e) ↦
      if is e fenced
      then false
      else if is e lease_expired
      then false
      else not (is_closed window t.now_before)
  | _ ↦ false
]

module _ {F O : Type 0} (c : Renewer F O) where
  -- OnRenew, exactly once for each attempt.
  abbrev pub reported : ℕ → Try → O → O
  reported attempt t o = c.obs (on_renew c.token t.dur attempt (attempt_error t.end)) o

  abbrev pub timed : Time → Duration → Try → O → O
  timed window base t o =
      if reaches_pause window t
      then c.timer (backoff_wait c.floats base c.config.backoff_jitter) o
      else o

  -- What an attempt's verdict makes of the cycle.
  abbrev pub turn : Verdict → O → Option CycleEnd × O → Option CycleEnd × O
  turn (ended end) o again = (some end, o)
  turn fenced_off o again =
      (some (exited (some (sentinel fenced))), c.obs (on_fenced c.token operation_renew) o)
  turn retries o again = again

  -- The loop of renewCycle; `none` if it would go on after the last attempt that is given.
  unfoldable pub cycle : Time → List Try → ℕ → Duration → O → Option CycleEnd × O
  unfolding verdict reaches_pause attempt_error
  cycle window [] attempt base o = (none, o)
  cycle window (t ∷ ts) attempt base o =
      let o' = timed window base t (reported attempt t o) in
      let again = cycle window ts (attempt + 1) (next_backoff base c.config.backoff_max) o' in
      turn (verdict c.ttl window t) o' again

  -- renewCycle: attempt 1, with the initial backoff.
  unfoldable pub renew_cycle : Time → List Try → O → Option CycleEnd × O
  unfolding cycle
  renew_cycle window ts o = cycle window ts 1 c.config.backoff_initial o

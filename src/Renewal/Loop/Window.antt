-- ===== src/Renewal/Loop/Window.antt =====
-- What the tracked lease window is.
use worklease.Base.{
  ◌++◌, ◌+◌, ◌≡◌, refl, ap, false, Bool-cases, ◌⊎◌, ◌≢◌, inl, inr, Option, none, some, List, [],
  ◌∷◌, arith, ℕ,
}
use worklease.Base.Int.{◌+ℤ◌, ◌<ℤ◌}
use worklease.Errors.{is_err, fenced, lease_expired}
use worklease.Backend.{Time, Duration}
use worklease.Renewal.Backoff.{next_backoff}
use worklease.Renewal.Cycle.{
  Renewer, Try, attempt_returned, attempt_error, CycleEnd, renewed, exited, Verdict, ended,
  fenced_off, retries, verdict, turn, timed, reported, cycle, renew_cycle, is_closed,
}
use worklease.Renewal.Loop.{
  Wake, wake_stopped, wake_parent_done, wake_window_closed, wake_ticked, Phase, running, in_cycle,
  done_with, Goroutine, wake, onward, after_cycle, loop, start_renewal,
}

-- The first of these attempts whose Renew call returned nil: the window is its local start plus the
-- TTL.
abbrev pub RenewedTo : Duration → List Try → Time → Type 0
RenewedTo ttl [] window = ⊥
RenewedTo ttl (t ∷ ts) window =
    ((t.end ≡ attempt_returned none) × (window ≡ t.start +ℤ ttl))
    ⊎ ((t.end ≢ attempt_returned none) × RenewedTo ttl ts window)

abbrev pub RenewedIn : Duration → Wake → Time → Type 0
RenewedIn ttl (wake_ticked now ts) window = RenewedTo ttl ts window
RenewedIn ttl wake_stopped window = ⊥
RenewedIn ttl wake_parent_done window = ⊥
RenewedIn ttl wake_window_closed window = ⊥

verdict_renewed :
    (ttl : Duration) (window next : Time) (t : Try)
    → verdict ttl window t ≡ ended (renewed next)
    → (t.end ≡ attempt_returned none) × (next ≡ t.start +ℤ ttl)
unfolding verdict
verdict_renewed ttl window next t h = ground arith

-- An attempt is retried only while the lease window is open, before the backoff and after it, and
-- only after an error that is neither ErrFenced nor ErrLeaseExpired.
retries_in_window :
    (ttl : Duration) (window : Time) (t : Try)
    → verdict ttl window t ≡ retries
    → (t.now_before <ℤ window)
      × (t.now_after <ℤ window)
      × (is_err (attempt_error t.end) fenced ≡ false)
      × (is_err (attempt_error t.end) lease_expired ≡ false)
      × (attempt_error t.end ≢ none)
unfolding verdict attempt_error
retries_in_window ttl window t h =
    (ground arith, ground arith, ground arith, ground arith, λ e. ground arith)

module _ {F O : Type 0} (c : Renewer F O) (window : Time) where
  cycle-RenewedTo :
      (ts : List Try) (attempt : ℕ) (base : Duration) (o : O) (next : Time)
      → (cycle c window ts attempt base o).0 ≡ some (renewed next)
      → RenewedTo c.ttl ts next
  unfolding cycle
  cycle-RenewedTo [] attempt base o next h = cc
  cycle-RenewedTo (t ∷ ts) attempt base o next h =
      at_verdict (verdict c.ttl window t) refl
        (cycle-RenewedTo ts (attempt + 1) (next_backoff base c.config.backoff_max)
          (timed c window base t (reported c attempt t o)) next)
        h
    where
      o' : O
      o' = timed c window base t (reported c attempt t o)

      not_renewed : verdict c.ttl window t ≡ retries → t.end ≢ attempt_returned none
      not_renewed q e = (retries_in_window c.ttl window t q).4 (rw e refl)

      again : Option CycleEnd × O
      again = cycle c window ts (attempt + 1) (next_backoff base c.config.backoff_max) o'

      at_verdict :
          (v : Verdict)
          → verdict c.ttl window t ≡ v
          → (again.0 ≡ some (renewed next) → RenewedTo c.ttl ts next)
          → (turn c v o' again).0 ≡ some (renewed next)
          → RenewedTo c.ttl (t ∷ ts) next
      at_verdict (ended end) q ih h' = inl (verdict_renewed c.ttl window next t (ground arith))
      at_verdict fenced_off q ih h' = cc
      at_verdict retries q ih h' = inr (not_renewed q, ih h')

-- What one more wake does to a goroutine: it runs on, with the window of the wake's Renew call that
-- returned nil, or it does not run on, and the window stays.
abbrev pub Moves : Duration → Wake → Goroutine → Goroutine → Type 0
Moves ttl w g g' =
    ((g'.phase ≡ running) × RenewedIn ttl w g'.window)
    ⊎ ((g'.phase ≢ running) × (g'.window ≡ g.window))

module _ {F O : Type 0} (c : Renewer F O) where
  wake-Moves :
      (window : Time) (w : Wake) (o : O) (p : Phase)
      → Moves c.ttl w (record { window = window; phase = p }) (wake c window w o).0
  unfolding wake renew_cycle
  wake-Moves window wake_stopped o p = inr (λ e. cc e, refl)
  wake-Moves window wake_parent_done o p = inr (λ e. cc e, refl)
  wake-Moves window wake_window_closed o p = inr (λ e. cc e, refl)
  wake-Moves window (wake_ticked now ts) o p = elim (Bool-cases (is_closed window now)) [
    | inl closed ↦ rw closed (inr (λ e. cc e, refl))
    | inr open_yet ↦ rw open_yet (at_end (renew_cycle c window ts o) refl)
  ]
    where
      at_end :
          (r : Option CycleEnd × O)
          → renew_cycle c window ts o ≡ r
          → Moves c.ttl
              (wake_ticked now ts)
              (record { window = window; phase = p })
              (after_cycle c window r).0
      at_end (none, o') q = inr (λ e. cc e, refl)
      at_end (some (renewed next), o') q =
          inl
            (refl, cycle-RenewedTo c window ts 1 c.config.backoff_initial o next (ap (λ x. x.0) q))
      at_end (some (exited cause), o') q = inr (λ e. cc e, refl)

  loop-Moves :
      (window : Time) (ws : List Wake) (w : Wake) (o : O)
      → Moves c.ttl w (loop c window ws o).0 (loop c window (ws ++ w ∷ []) o).0
  unfolding loop
  loop-Moves window [] w o = at_phase g.0.phase refl
    where
      g : Goroutine × O
      g = wake c window w o

      at_phase :
          (p : Phase)
          → g.0.phase ≡ p
          → Moves c.ttl w
              (record { window = window; phase = running })
              (onward c p g (record { window = g.0.window; phase = running }, g.1)).0
      at_phase running q = ground (arith, q, wake-Moves window w o running)
      at_phase in_cycle q = wake-Moves window w o running
      at_phase (done_with cause) q = wake-Moves window w o running
  loop-Moves window (x ∷ ws) w o = at_phase g.0.phase refl (loop-Moves g.0.window ws w g.1)
    where
      g : Goroutine × O
      g = wake c window x o

      before : Goroutine × O
      before = loop c g.0.window ws g.1

      after : Goroutine × O
      after = loop c g.0.window (ws ++ w ∷ []) g.1

      at_phase :
          (p : Phase)
          → g.0.phase ≡ p
          → Moves c.ttl w before.0 after.0
          → Moves c.ttl w (onward c p g before).0 (onward c p g after).0
      at_phase running q ih = ih
      at_phase in_cycle q ih = inr (λ e. ground (arith, q, e), refl)
      at_phase (done_with cause) q ih = inr (λ e. ground (arith, q, e), refl)

  -- The lease window of the goroutine, wake by wake: at the start it is the token's local deadline.
  -- After each further wake, either the goroutine runs on, and the window is the local start plus
  -- the TTL of the first Renew call of that very wake that returned nil; or it does not run on, and
  -- the window is what it was before that wake.
  pub window_from_success :
      (ws : List Wake) (w : Wake) (o : O)
      → ((start_renewal c [] o).0.window ≡ c.token.deadline)
        × Moves c.ttl w (start_renewal c ws o).0 (start_renewal c (ws ++ w ∷ []) o).0
  unfolding start_renewal loop
  window_from_success ws w o = (refl, loop-Moves c.token.deadline ws w o)

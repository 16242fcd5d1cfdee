-- ===== src/Renewal/Loop/Causes.antt =====
-- Why the renewal context is cancelled.
use worklease.Base.{
  ◌+◌, ◌≡◌, refl, Bool-cases, true, false, ◌⊎◌, inl, inr, Option, none, some, List, [], ◌∷◌, arith,
  ℕ,
}
use worklease.Errors.{
  GoError, sentinel, join, is, fenced, lease_window_exhausted, lease_expired, listed, chain, number,
}
use worklease.Errors.Laws.{is_self}
use worklease.Backend.{Time, Duration}
use worklease.Renewal.Backoff.{next_backoff}
use worklease.Renewal.Cycle.{
  Renewer, Try, attempt_returned, CycleEnd, renewed, exited, Verdict, ended, fenced_off, retries,
  turn, timed, reported, verdict, cycle, renew_cycle,
}
use worklease.Renewal.Loop.{
  Wake, wake_stopped, wake_parent_done, wake_window_closed, wake_ticked, Phase, running, in_cycle,
  done_with, Goroutine, wake, onward, after_cycle, is_closed, loop, start_renewal,
}

-- Some Renew call of these attempts returned an error that matches ErrFenced.
abbrev pub WasFenced : List Try → Type 0
WasFenced [] = ⊥
WasFenced (t ∷ ts) =
    ((e : GoError) × (t.end ≡ attempt_returned (some e)) × (is e fenced ≡ true)) ⊎ WasFenced ts

-- The same of the attempts of one wake, and of a run of the loop.
abbrev pub FencedIn : Wake → Type 0
FencedIn (wake_ticked now ts) = WasFenced ts
FencedIn wake_stopped = ⊥
FencedIn wake_parent_done = ⊥
FencedIn wake_window_closed = ⊥

abbrev pub EverFenced : List Wake → Type 0
EverFenced [] = ⊥
EverFenced (w ∷ ws) = FencedIn w ⊎ EverFenced ws

-- A cause: the window ran out, and the cause does not match ErrFenced; or it matches, and a Renew
-- call was fenced.
abbrev pub IsCause : Type 0 → GoError → Type 0
IsCause was e =
    ((is e lease_window_exhausted ≡ true) × (is e fenced ≡ false)) ⊎ ((is e fenced ≡ true) × was)

-- The two causes of an exhausted window.
abbrev exhausted : GoError
exhausted = sentinel lease_window_exhausted

abbrev found_lapsed : GoError
found_lapsed = join (sentinel lease_window_exhausted) (sentinel lease_expired)

exhausted-causes :
    (is exhausted lease_window_exhausted ≡ true)
    × (is exhausted fenced ≡ false)
    × (is found_lapsed lease_window_exhausted ≡ true)
    × (is found_lapsed fenced ≡ false)
unfolding is listed chain number
exhausted-causes = (refl, refl, refl, refl)

verdict_cause :
    (ttl : Duration) (window : Time) (t : Try) (e : GoError)
    → verdict ttl window t ≡ ended (exited (some e))
    → (is e lease_window_exhausted ≡ true) × (is e fenced ≡ false)
unfolding verdict
verdict_cause ttl window t e h = ground (arith, exhausted-causes)

verdict_fenced :
    (ttl : Duration) (window : Time) (t : Try)
    → verdict ttl window t ≡ fenced_off
    → (e : GoError) × (t.end ≡ attempt_returned (some e)) × (is e fenced ≡ true)
unfolding verdict
verdict_fenced ttl window t h = ground arith

IsCause-map : {was was' : Type 0} (e : GoError) → (was → was') → IsCause was e → IsCause was' e
IsCause-map e f (inl c) = inl c
IsCause-map e f (inr (m, w)) = inr (m, f w)

-- The loop of renewCycle, turn by turn.
module _ {F O : Type 0} (c : Renewer F O) (window : Time) where
  cycle-IsCause :
      (ts : List Try) (attempt : ℕ) (base : Duration) (o : O) (e : GoError)
      → (cycle c window ts attempt base o).0 ≡ some (exited (some e))
      → IsCause (WasFenced ts) e
  unfolding cycle
  cycle-IsCause [] attempt base o e h = cc
  cycle-IsCause (t ∷ ts) attempt base o e h =
      at_verdict (verdict c.ttl window t) refl
        (cycle-IsCause ts (attempt + 1) (next_backoff base c.config.backoff_max)
          (timed c window base t (reported c attempt t o)) e)
        h
    where
      o' : O
      o' = timed c window base t (reported c attempt t o)

      again : Option CycleEnd × O
      again = cycle c window ts (attempt + 1) (next_backoff base c.config.backoff_max) o'

      at_verdict :
          (v : Verdict)
          → verdict c.ttl window t ≡ v
          → (again.0 ≡ some (exited (some e)) → IsCause (WasFenced ts) e)
          → (turn c v o' again).0 ≡ some (exited (some e))
          → IsCause (WasFenced (t ∷ ts)) e
      at_verdict (ended end) q ih h' = inl (verdict_cause c.ttl window t e (ground arith))
      at_verdict fenced_off q ih h' =
          inr (ground (arith, is_self fenced), inl (verdict_fenced c.ttl window t q))
      at_verdict retries q ih h' = IsCause-map e (λ f. inr f) (ih h')

module _ {F O : Type 0} (c : Renewer F O) where
  wake-IsCause :
      (window : Time) (w : Wake) (o : O) (e : GoError)
      → (wake c window w o).0.phase ≡ done_with (some e)
      → IsCause (FencedIn w) e
  unfolding wake renew_cycle
  wake-IsCause window wake_stopped o e h = cc
  wake-IsCause window wake_parent_done o e h = cc
  wake-IsCause window wake_window_closed o e h = inl (ground (arith, exhausted-causes))
  wake-IsCause window (wake_ticked now ts) o e h = elim (Bool-cases (is_closed window now)) [
    | inl closed ↦ inl (ground (arith, exhausted-causes))
    | inr open_yet ↦
        cycle-IsCause c window ts 1 c.config.backoff_initial o e
          (ended_so (renew_cycle c window ts o) (rw open_yet at h))
  ]
    where
      ended_so :
          (r : Option CycleEnd × O)
          → (after_cycle c window r).0.phase ≡ done_with (some e)
          → r.0 ≡ some (exited (some e))
      ended_so (none, o') h = cc
      ended_so (some (renewed t), o') h = cc
      ended_so (some (exited cause), o') h = ground arith

  loop-IsCause :
      (window : Time) (ws : List Wake) (o : O) (e : GoError)
      → (loop c window ws o).0.phase ≡ done_with (some e)
      → IsCause (EverFenced ws) e
  unfolding loop
  loop-IsCause window [] o e h = cc
  loop-IsCause window (w ∷ ws) o e h = at_phase g.0.phase refl (loop-IsCause g.0.window ws g.1 e) h
    where
      g : Goroutine × O
      g = wake c window w o

      at_phase :
          (p : Phase)
          → g.0.phase ≡ p
          → ((loop c g.0.window ws g.1).0.phase ≡ done_with (some e) → IsCause (EverFenced ws) e)
          → (onward c p g (loop c g.0.window ws g.1)).0.phase ≡ done_with (some e)
          → IsCause (EverFenced (w ∷ ws)) e
      at_phase running q ih h = IsCause-map e (λ f. inr f) (ih h)
      at_phase in_cycle q ih h = cc
      at_phase (done_with cause) q ih h = IsCause-map e (λ f. inl f) (wake-IsCause window w o e h)

  -- The goroutine of StartRenewal cancels the renewal context with two kinds of cause only,
  -- whatever happens and in whatever order (the parent's own cancellation aside, which is no cause
  -- of the goroutine's): a cause that matches ErrFenced, after a Renew call that returned ErrFenced; and one that
  -- matches ErrLeaseWindowExhausted and not ErrFenced.
  pub renewal_causes :
      (ws : List Wake) (o : O) (e : GoError)
      → (start_renewal c ws o).0.phase ≡ done_with (some e)
      → ((is e lease_window_exhausted ≡ true) × (is e fenced ≡ false))
        ⊎ ((is e fenced ≡ true) × EverFenced ws)
  unfolding start_renewal
  renewal_causes ws o e h = loop-IsCause c.token.deadline ws o e h

-- ===== src/Renewal/Loop.antt =====
-- StartRenewal: the goroutine's loop over its ticks, and LeaseWindow.
pub mod Causes
pub mod Window
use worklease.Base.{
  ℕ, ◌/◌, ◌-◌, Bool, true, false, Option, none, some, List, [], ◌∷◌, if◌then◌else◌, suc,
}
use worklease.Base.Int.{pos, negsuc, leb_ℤ, ltb_ℤ}
use worklease.Errors.{GoError, sentinel, lease_window_exhausted}
use worklease.Backend.{Time, Duration}
use worklease.Client.Types.{Token}
use worklease.Renewal.Backoff.{Floats, RenewalConfig, RenewalOption, apply_options, millisecond}
use worklease.Renewal.Cycle.{Renewer, Try, CycleEnd, renewed, exited, renew_cycle, is_closed}

-- Which case of the loop's select is taken; a tick comes with time.Now() and the attempts of the
-- cycle that it starts.
pub data Wake : Type 0 where
  wake_stopped wake_parent_done wake_window_closed : Wake
  wake_ticked : Time → List Try → Wake

-- The tracked window, and how the goroutine stands: waiting for its next wake, inside a cycle whose
-- attempts go on after those that are given, or exited with the cause that it has cancelled the
-- renewal context with, if any.
pub data Phase : Type 0 where
  running in_cycle : Phase
  done_with : Option GoError → Phase

pub record Goroutine : Type 0 where
  pub window : Time
  pub phase : Phase

-- The first window of a token.
abbrev pub initial_window : Token → Time
initial_window token = token.deadline

-- TTL/2, and one nanosecond at least. Go's division rounds towards zero.
abbrev pub half : Duration → Duration
half (pos n) = pos (n / 2)
half (negsuc n) = if leb_ℤ (pos 1) (pos n) then negsuc (suc n / 2 - 1) else pos 0

abbrev pub default_renewal_interval : Duration → Duration
default_renewal_interval ttl = if ltb_ℤ (half ttl) (pos 1) then pos 1 else half ttl

module _ {F : Type 0} (fl : Floats F) (default_jitter : F) where
  -- STEP 1 of StartRenewal: the defaults, and then the options.
  unfoldable pub resolve : Duration → List (RenewalOption F) → RenewalConfig F
  unfolding apply_options
  resolve ttl opts = apply_options fl opts (record {
    renewal_interval = default_renewal_interval ttl;
    backoff_initial = pos 100_000_000;
    backoff_max = pos 5_000_000_000;
    backoff_jitter = default_jitter;
  })

module _ {F O : Type 0} (c : Renewer F O) where
  abbrev pub after_cycle : Time → Option CycleEnd × O → Goroutine × O
  after_cycle window (none, o) = (record { window = window; phase = in_cycle }, o)
  after_cycle window (some (renewed next), o) = (record { window = next; phase = running }, o)
  after_cycle window (some (exited cause), o) =
      (record { window = window; phase = done_with cause }, o)

  -- One turn of the loop.
  unfoldable pub wake : Time → Wake → O → Goroutine × O
  wake window wake_stopped o = (record { window = window; phase = done_with none }, o)
  wake window wake_parent_done o = (record { window = window; phase = done_with none }, o)
  wake window wake_window_closed o =
      (record { window = window; phase = done_with (some (sentinel lease_window_exhausted)) }, o)
  wake window (wake_ticked now ts) o =
      if is_closed window now
      then (
        record { window = window; phase = done_with (some (sentinel lease_window_exhausted)) },
        o,
      )
      else after_cycle window (renew_cycle c window ts o)

  -- The loop goes on while the goroutine waits for a wake.
  abbrev pub onward : Phase → Goroutine × O → Goroutine × O → Goroutine × O
  onward running here rest = rest
  onward in_cycle here rest = here
  onward (done_with cause) here rest = here

  -- The loop over the wakes that it is given.
  unfoldable pub loop : Time → List Wake → O → Goroutine × O
  unfolding wake
  loop window [] o = (record { window = window; phase = running }, o)
  loop window (w ∷ ws) o =
      let (g, o') = wake window w o in let rest = loop g.window ws o' in onward g.phase (g, o') rest

  -- The goroutine from its start.
  unfoldable pub start_renewal : List Wake → O → Goroutine × O
  unfolding loop
  start_renewal ws o = loop (initial_window c.token) ws o

-- LeaseWindow of the renewal context: nothing once it is done, whether the goroutine has cancelled
-- it or its parent is done.
unfoldable pub lease_window : Goroutine → Bool → Option Time
lease_window g parent_done = elim g.phase [
  | done_with (some cause) ↦ none
  | _ ↦ if parent_done then none else some g.window
]

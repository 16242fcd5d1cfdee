-- ===== src/Renewal/Tests.antt =====
-- The theorems on the renewal goroutine, applied to a lease with a TTL of 10.
use worklease.Base.{ℕ, ◌≡◌, ◌⊎◌, refl, true, false, Option, none, some, List, [], ◌∷◌}
use worklease.Base.Int.{pos, ◌+ℤ◌}
use worklease.Errors.{
  GoError, sentinel, plain, is, fenced, lease_window_exhausted, listed, chain, number,
}
use worklease.Backend.{Time}
use worklease.Client.Types.{Event}
use worklease.Renewal.Backoff.{Floats, RenewalConfig}
use worklease.Renewal.Cycle.{Renewer, Try, attempt_returned, pause_over, renew_cycle}
use worklease.Renewal.Loop.{Wake, wake_ticked, start_renewal}
use worklease.Renewal.Loop.Causes.{EverFenced, renewal_causes}
use worklease.Renewal.Loop.Window.{window_from_success, Moves}

abbrev no_jitter : Floats ℕ
no_jitter = record {
  zero_f = 0;
  one_f = 1;
  less = λ a b. false;
  at_most = λ a b. true;
  draw = λ d f. pos 0;
}

abbrev config : RenewalConfig ℕ
config = record {
  renewal_interval = pos 5;
  backoff_initial = pos 1;
  backoff_max = pos 4;
  backoff_jitter = 0;
}

abbrev renewer : Renewer ℕ (List Event)
renewer = record {
  floats = no_jitter;
  obs = λ e o. e ∷ o;
  timer = λ d o. o;
  ttl = pos 10;
  token = record {
    work_id = "job";
    holder_id = "a";
    fencing_token = 1;
    expires_at = pos 10;
    deadline = pos 10;
  };
  config = config;
}

abbrev try : Option GoError → Time → Try
try e t = record {
  start = t;
  dur = pos 0;
  end = attempt_returned e;
  now_before = t;
  pause = pause_over;
  now_after = t +ℤ pos 1;
}

-- One tick renews, after a failed attempt.
abbrev renewing : Wake
renewing = wake_ticked (pos 5) (try (some (plain "down")) (pos 5) ∷ try none (pos 7) ∷ [])

-- At the next tick the lease is fenced.
abbrev wakes : List Wake
wakes = renewing ∷ wake_ticked (pos 10) (try (some (sentinel fenced)) (pos 10) ∷ []) ∷ []

renewal_causes_example :
    ((is (sentinel fenced) lease_window_exhausted ≡ true) × (is (sentinel fenced) fenced ≡ false))
    ⊎ ((is (sentinel fenced) fenced ≡ true) × EverFenced wakes)
unfolding start_renewal is listed chain number ◌+ℤ◌ renew_cycle
renewal_causes_example = renewal_causes renewer wakes [] (sentinel fenced) refl

window_from_success_example :
    ((start_renewal renewer [] []).0.window ≡ pos 10)
    × Moves
        (pos 10)
        renewing
        (start_renewal renewer [] []).0
        (start_renewal renewer (renewing ∷ []) []).0
window_from_success_example = window_from_success renewer [] renewing []

-- ===== src/Renewal/Backoff/Growth.antt =====
-- How the backoff grows, and what the options leave it.
use worklease.Base.{
  ℕ, zero, suc, ◌*◌, ◌^◌, ◌≤◌, ◌<◌, ◌≡◌, ap, List, [], ◌∷◌, arith, ltb, if◌then◌else◌,
}
use mathlib.Core.Path.{◌≡⟨◌⟩◌, ◌∎}
use native.Mathlib.Nat.{pow-suc}
use worklease.Base.Int.{pos, ◌≤ℤ◌, ◌<ℤ◌}
use worklease.Backend.{Duration}
use worklease.Renewal.Backoff.{
  Floats, RenewalConfig, RenewalOption, with_renewal_interval, with_renewal_backoff, apply_option,
  apply_options, next_backoff,
}

-- The base of the wait before retry k + 2, from the initial one.
pub nth_backoff : ℕ → Duration → Duration → Duration
nth_backoff zero base cap = base
nth_backoff (suc k) base cap = next_backoff (nth_backoff k base cap) cap

abbrev min : ℕ → ℕ → ℕ
min a b = if ltb b a then b else a

-- One doubling, far from the end of int64.
next_backoff-min :
    (b m : ℕ) → b ≤ m → m < 2 ^ 62 → next_backoff (pos b) (pos m) ≡ pos (min (2 * b) m)
unfolding next_backoff
next_backoff-min b m le small = ground arith

min_double : (p m : ℕ) → min (2 * min p m) m ≡ min (2 * p) m
min_double p m = ground arith

pow_step : (k b : ℕ) → 2 * (2 ^ k * b) ≡ 2 ^ suc k * b
pow_step k b = rw pow-suc (omega arith)

-- With a maximum below 2^62 ns, the k-th wait is based on min (2^k * initial, max).
backoff_doubles :
    (k b m : ℕ) → b ≤ m → m < 2 ^ 62 → nth_backoff k (pos b) (pos m) ≡ pos (min (2 ^ k * b) m)
unfolding nth_backoff
backoff_doubles zero b m le small = ground arith
backoff_doubles (suc k) b m le small =
    next_backoff (nth_backoff k (pos b) (pos m)) (pos m)
    ≡⟨ ap (λ d. next_backoff d (pos m)) (backoff_doubles k b m le small) ⟩
      next_backoff (pos (min (2 ^ k * b) m)) (pos m)
    ≡⟨ next_backoff-min (min (2 ^ k * b) m) m (ground arith) small ⟩
      pos (min (2 * min (2 ^ k * b) m) m)
    ≡⟨ ap pos (min_double (2 ^ k * b) m) ⟩ pos (min (2 * (2 ^ k * b)) m)
    ≡⟨ ap (λ n. pos (min n m)) (pow_step k b) ⟩ pos (min (2 ^ suc k * b) m) ∎

-- A configuration whose backoff is positive and starts below its maximum.
abbrev pub IsPaced : {F : Type 0} → RenewalConfig F → Type 0
IsPaced c =
    (pos 0 <ℤ c.renewal_interval)
    × (pos 0 <ℤ c.backoff_initial)
    × (c.backoff_initial ≤ℤ c.backoff_max)

module _ {F : Type 0} (fl : Floats F) where
  apply_option-IsPaced :
      (o : RenewalOption F) (c : RenewalConfig F) → IsPaced c → IsPaced (apply_option fl o c)
  unfolding apply_option
  apply_option-IsPaced (with_renewal_interval d) c v = ground arith
  apply_option-IsPaced (with_renewal_backoff initial max_interval jitter) c v = ground arith

  -- Whatever options a caller gives, negative intervals included, the renewal interval and the
  -- backoff stay positive and the first backoff stays below the maximum.
  apply_options-IsPaced :
      (os : List (RenewalOption F)) (c : RenewalConfig F)
      → IsPaced c
      → IsPaced (apply_options fl os c)
  unfolding apply_options
  apply_options-IsPaced [] c v = v
  apply_options-IsPaced (o ∷ os) c v =
      apply_options-IsPaced os (apply_option fl o c) (apply_option-IsPaced o c v)

-- ===== src/Renewal/Backoff.antt =====
-- The options of StartRenewal and the backoff between two attempts.
pub mod Growth
use worklease.Base.{ℕ, suc, ◌+◌, ◌-◌, ◌%◌, ◌^◌, Bool, List, [], ◌∷◌, if◌then◌else◌}
use worklease.Base.Int.{ℤ, pos, negsuc, sub_ℕ, ◌+ℤ◌, ltb_ℤ, leb_ℤ, pos_part, neg_part}
use worklease.Backend.{Duration}

-- The float64 operations that the options and backoffWait use. `draw base jitter` is
-- time.Duration(jitter * float64(base) * rand.Float64()).
pub record Floats (F : Type 0) : Type 0 where
  pub zero_f : F
  pub one_f : F
  pub less : F → F → Bool
  pub at_most : F → F → Bool
  pub draw : Duration → F → Duration

pub record RenewalConfig (F : Type 0) : Type 0 where
  pub renewal_interval : Duration
  pub backoff_initial : Duration
  pub backoff_max : Duration
  pub backoff_jitter : F

pub data RenewalOption (F : Type 0) : Type 0 where
  with_renewal_interval : Duration → RenewalOption F
  with_renewal_backoff : Duration → Duration → F → RenewalOption F

abbrev pub millisecond : Duration
millisecond = pos 1_000_000

-- `if d <= 0 { d = time.Millisecond }`
abbrev pub floored : Duration → Duration
floored d = if leb_ℤ d (pos 0) then millisecond else d

module _ {F : Type 0} (fl : Floats F) where
  unfoldable pub clamp_jitter : F → F
  clamp_jitter jitter =
      let low = if fl.less jitter fl.zero_f then fl.zero_f else jitter in
      if fl.less fl.one_f low then fl.one_f else low

  unfoldable pub apply_option : RenewalOption F → RenewalConfig F → RenewalConfig F
  unfolding clamp_jitter
  apply_option (with_renewal_interval d) c =
      if ltb_ℤ (pos 0) d then record c { renewal_interval = d } else c
  apply_option (with_renewal_backoff initial max_interval jitter) c =
      let first = floored initial in
      let cap = floored max_interval in
      record c {
        backoff_initial = if ltb_ℤ cap first then cap else first;
        backoff_max = cap;
        backoff_jitter = clamp_jitter jitter;
      }

  unfoldable pub apply_options : List (RenewalOption F) → RenewalConfig F → RenewalConfig F
  unfolding apply_option
  apply_options [] c = c
  apply_options (o ∷ os) c = apply_options os (apply_option o c)

  -- The draw is added where the jitter is positive.
  unfoldable pub backoff_wait : Duration → F → Duration
  backoff_wait base jitter =
      if fl.at_most jitter fl.zero_f then base else base +ℤ fl.draw base jitter

-- The int64 that an integer wraps around to.
unfoldable pub wrap64 : ℤ → ℤ
wrap64 (pos n) = sub_ℕ ((n + 2 ^ 63) % 2 ^ 64) (2 ^ 63)
wrap64 (negsuc n) = sub_ℕ ((2 ^ 63 + (2 ^ 64 - suc n % 2 ^ 64)) % 2 ^ 64) (2 ^ 63)

-- `base * 2` on an int64.
unfoldable pub next_backoff : Duration → Duration → Duration
unfolding wrap64 ◌+ℤ◌
next_backoff base max_interval =
    let next = wrap64 (base +ℤ base) in if ltb_ℤ max_interval next then max_interval else next

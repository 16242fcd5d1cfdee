-- ===== src/Client/Options.antt =====
-- lease.go: the options of Acquire.
use worklease.Base.{Bool, true, false, List, [], ◌∷◌, if◌then◌else◌}
use worklease.Base.Int.{pos, ltb_ℤ}
use worklease.Backend.{Duration}

-- An AcquireOption is one of the two that the package makes.
pub data AcquireOption : Type 0 where
  with_wait_for_lease : AcquireOption
  with_poll_interval : Duration → AcquireOption

pub record AcquireConfig : Type 0 where
  pub wait_for_lease : Bool
  pub poll_interval : Duration

-- What the option's closure does to the configuration.
unfoldable pub apply_option : AcquireOption → AcquireConfig → AcquireConfig
apply_option with_wait_for_lease c = record c { wait_for_lease = true }
apply_option (with_poll_interval d) c =
    if ltb_ℤ (pos 0) d then record c { poll_interval = d } else c

unfoldable pub apply_options : List AcquireOption → AcquireConfig → AcquireConfig
unfolding apply_option
apply_options [] c = c
apply_options (o ∷ os) c = apply_options os (apply_option o c)

-- STEP 2 of Acquire, with the default poll interval of 2s.
unfoldable pub resolve : List AcquireOption → AcquireConfig
unfolding apply_options
resolve opts =
    apply_options opts (record { wait_for_lease = false; poll_interval = pos 2_000_000_000 })

unfoldable pub has_wait_for_lease : List AcquireOption → Bool
unfolding apply_options
has_wait_for_lease opts =
    (apply_options opts (record { wait_for_lease = false; poll_interval = pos 0 })).wait_for_lease

-- ===== src/Postgres/Interval.antt =====
-- backend/postgres/postgres.go: formatInterval, the text of a duration as a PostgreSQL interval.
use worklease.Base.{
  ◌≡◌, arith, ◌⊎◌, inl, inr, Bool-cases, true, false, ◌*◌, ◌+◌, ◌/◌, ◌%◌, ◌-◌, ltb, if◌then◌else◌,
}
use worklease.Base.Int.{ℤ, pos, negsuc, ◌+ℤ◌, ◌≤ℤ◌, ◌<ℤ◌, +ℤ_parts}
use worklease.Backend.{Duration}

-- An INTERVAL of so many microseconds.
abbrev pub microseconds : ℤ → Duration
microseconds (pos n) = pos (n * 1000)
microseconds (negsuc n) = negsuc (n * 1000 + 999)

-- The number of microseconds that the text names.
unfoldable pub format_interval : Duration → ℤ
format_interval (pos n) = pos (if ltb 0 (n % 1000) then n / 1000 + 1 else n / 1000)
format_interval (negsuc n) = if ltb n 999 then pos 0 else negsuc ((n + 1) / 1000 - 1)

abbrev pub interval : Duration → Duration
interval d = microseconds (format_interval d)

-- The interval that a TTL is written as is the TTL rounded up to a whole microsecond: never less
-- than the TTL, and less than a microsecond more.
pub format_interval_rounds_up : (d : Duration) → (d ≤ℤ interval d) × (interval d <ℤ d +ℤ pos 1000)
unfolding format_interval
format_interval_rounds_up (pos n) =
    (ground (arith, +ℤ_parts (pos n) (pos 1000)), ground (arith, +ℤ_parts (pos n) (pos 1000)))
format_interval_rounds_up (negsuc n) = at_size (Bool-cases (ltb n 999))
  where
    at_size :
        (ltb n 999 ≡ true) ⊎ (ltb n 999 ≡ false)
        → (negsuc n ≤ℤ interval (negsuc n)) × (interval (negsuc n) <ℤ negsuc n +ℤ pos 1000)
    at_size (inl h) = rw h (omega arith, ground (arith, +ℤ_parts (negsuc n) (pos 1000)))
    at_size (inr h) = rw h (ground arith, ground (arith, +ℤ_parts (negsuc n) (pos 1000)))

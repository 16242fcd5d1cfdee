-- ===== src/Conformance/Memory/Clock.antt =====
-- The clock that the conformance suite runs on.
use worklease.Base.{ℕ, ◌+◌}
use worklease.Base.Int.{pos}
use worklease.Memory.{Readings}

-- A clock that advances by the gap from one operation to the next.
abbrev pub tick : ℕ → ℕ → Readings × ℕ
tick gap n = (record { check = pos n; stamp = pos n; update = pos n }, n + gap)

-- ===== src/Conformance/Tests.antt =====
-- The conformance suite on a clock that starts at 5 and ticks every 10 nanoseconds.
use worklease.Base.{◌≡◌, true, arith}
use worklease.Memory.{new}
use worklease.Memory.Service.{service}
use worklease.Conformance.{run_suite}
use worklease.Conformance.Memory.Clock.{tick}
use worklease.Conformance.Memory.{memory_conforms}

memory_conforms_example : run_suite (service (tick 10)) (new, 5) ≡ true
memory_conforms_example = memory_conforms 5 10 (omega arith) (omega arith)

-- ===== src/Memory/Samples.antt =====
-- A small history for the tests: worker "a" holds "job", saves a state, and leaves it.
use worklease.Base.{ℕ, true, false, none, some, List, [], ◌∷◌, arith}
use worklease.Base.Int.{pos, negsuc, ◌+ℤ◌}
use worklease.Base.Dict.{lookup, insert}
use worklease.Backend.{LeaseRecord, SweepOptions, exit_finished}
use worklease.Memory.{Row, MemoryBackend, Readings, new, acquire, checkpoint, release, held_by}
use worklease.Memory.Calls.{Call, acquires, releases, checkpoints, sweeps, step, run}
use worklease.Memory.Invariant.{IsValid, new-IsValid}
use worklease.Memory.History.{step-IsValid}

abbrev pub at : ℕ → Readings
at n = record { check = pos n; stamp = pos n; update = pos n }

abbrev pub lease_a : LeaseRecord
lease_a = record { work_id = "job"; holder_id = "a"; fencing_token = 1; expires_at = pos 11 }

abbrev pub lease_b : LeaseRecord
lease_b = record { work_id = "job"; holder_id = "b"; fencing_token = 2; expires_at = pos 30 }

-- The row of "a" after its Acquire at 1, its Checkpoint at 2 and its Release at 3.
abbrev pub row_a : Row
row_a = record {
  holder_id = "a";
  fencing_token = 1;
  expires_at = pos 11;
  checkpoint = none;
  exit_mode = 0;
  prev_exit = 0;
  prev_holder_id = "";
  updated_at = pos 1;
}

abbrev pub saved_a : Row
saved_a = record row_a { checkpoint = some (7 ∷ []); expires_at = pos 12; updated_at = pos 2 }

abbrev pub left_a : Row
left_a = record saved_a { exit_mode = 1; expires_at = negsuc 999_996; updated_at = pos 3 }

abbrev pub row_b : Row
row_b = record {
  holder_id = "b";
  fencing_token = 2;
  expires_at = pos 30;
  checkpoint = none;
  exit_mode = 0;
  prev_exit = 4;
  prev_holder_id = "a";
  updated_at = pos 20;
}

abbrev pub only : Row → ℕ → MemoryBackend
only r n = record { records = ("job", r) ∷ []; seq = n }

abbrev pub starts_a : Call
starts_a = acquires none (at 1) "job" "a" (pos 10)

abbrev pub saves_a : Call
saves_a = checkpoints none (at 2) lease_a (some (7 ∷ [])) (pos 10)

abbrev pub leaves_a : Call
leaves_a = releases none (at 3) lease_a exit_finished

pub held-IsValid : IsValid (pos 1) (only row_a 1)
unfolding step acquire new lookup insert ◌+ℤ◌
held-IsValid = step-IsValid (pos 0) new starts_a (omega arith) (ground arith) (new-IsValid (pos 0))

abbrev pub retired_only : SweepOptions
retired_only = record { retention = pos 5; include_expired = false }

-- Before the Acquire of "b" another work ID is acquired, and a Sweep runs once the leases have
-- lapsed.
abbrev pub others : List Call
others = acquires none (at 4) "other" "c" (pos 10) ∷ sweeps none (pos 15) retired_only ∷ []

abbrev pub granted_b : LeaseRecord
granted_b = record { work_id = "job"; holder_id = "b"; fencing_token = 3; expires_at = pos 30 }

pub saved-IsValid : IsValid (pos 2) (only saved_a 1)
unfolding step checkpoint held_by lookup insert ◌+ℤ◌
saved-IsValid =
    step-IsValid (pos 1) (only row_a 1) saves_a (omega arith) (ground arith) held-IsValid

pub left-IsValid : IsValid (pos 3) (only left_a 1)
unfolding step release held_by lookup insert ◌+ℤ◌
left-IsValid =
    step-IsValid (pos 2) (only saved_a 1) leaves_a (omega arith) (ground arith) saved-IsValid

abbrev pub taken_over : MemoryBackend → MemoryBackend
taken_over m = (acquire none (at 20) "job" "b" (pos 10) (run m others)).1

abbrev pub all_old : SweepOptions
all_old = record { retention = pos 5; include_expired = true }

abbrev pub swept_out : MemoryBackend
swept_out = record { records = []; seq = 1 }

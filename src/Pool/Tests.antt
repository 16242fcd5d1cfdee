-- ===== src/Pool/Tests.antt =====
-- The theorems on the worker pool, applied to a pool of the work IDs "a" and "b".
use worklease.Base.{◌≡◌, ◌↔◌, ◌≢◌, ◌⊎◌, true, none, some, String, List, [], ◌∷◌, is_some}
use worklease.Base.Int.{pos}
use worklease.Base.Dict.{lookup}
use worklease.Errors.{sentinel, permanent, all_slots_dead}
use worklease.Pool.Config.{Config, check_ids}
use worklease.Pool.Config.Checks.{AreWorkIds, check_ids_exact}
use worklease.Pool.Slots.{Action, exited_dead, enters, leaves, ends, start, run, result}
use worklease.Pool.Slots.Causes.{DiesIn}
use worklease.Pool.Slots.Death.{dead_slots, run_dies_with_slots}
use worklease.Pool.Slots.Active.{is_working, active_while_working}

abbrev ids : List String
ids = "a" ∷ "b" ∷ []

-- A negative idle interval, and no pacing otherwise.
abbrev config : Config
config = record {
  work_ids = ids;
  acquire_options = [];
  idle_interval = pos 0;
  rerun_interval = pos 0;
  backoff_interval = pos 3;
}

check_ids_exact_example : (check_ids 0 [] ids ≡ none) ↔ AreWorkIds ids
check_ids_exact_example = check_ids_exact ids

-- Both slots run and end with a permanent error.
abbrev deaths : List Action
deaths =
    enters "a"
    ∷ enters "b"
    ∷ leaves "a" (some (permanent true))
    ∷ ends "a" (some (permanent true))
    ∷ leaves "b" (some (permanent true))
    ∷ ends "b" (some (permanent true))
    ∷ []

run_dies_with_slots_example :
    ((result (run (start ids) deaths) ≡ some (sentinel all_slots_dead))
      ↔ (dead_slots (run (start ids) deaths).slots ≡ 2))
    × ((lookup "b" (run (start ids) deaths).slots ≢ some exited_dead) ⊎ DiesIn "b" deaths)
run_dies_with_slots_example = run_dies_with_slots ids deaths "b"

active_while_working_example :
    is_some (lookup "b" (run (start ids) (enters "b" ∷ [])).active)
    ≡ is_working (lookup "b" (run (start ids) (enters "b" ∷ [])).slots)
active_while_working_example = active_while_working ids (enters "b" ∷ []) "b"

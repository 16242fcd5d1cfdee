-- ===== src/Worker/Tests.antt =====
-- The theorems on Runner.Run, applied to runs of the work ID "job".
use worklease.Base.{◌≡◌, refl, Option, none, some, [], ◌∷◌}
use worklease.Base.Int.{pos}
use worklease.Errors.{GoError, ok, sentinel, is, retire, listed, chain, number}
use worklease.Backend.{Checkpoint, exit_retired}
use worklease.Client.Types.{Token}
use worklease.Lease.{Script, returned, releases, cleanup}
use worklease.Worker.{run}
use worklease.Worker.Exits.{runner, releases-run}

abbrev token : Token
token = record {
  work_id = "job";
  holder_id = "a";
  fencing_token = 1;
  expires_at = pos 11;
  deadline = pos 11;
}

abbrev fresh : Checkpoint
fresh = record { state = none; prev_exit = 0; prev_holder_id = "" }

-- Every call succeeds, except a Release where its error is given.
abbrev replies : Option GoError → Script
replies e = record {
  on_acquire = ok token;
  on_read = ok fresh;
  on_checkpoint = none;
  on_release = e;
}

-- The work function retires the work ID and hands over a final state.
releases-run_example :
    releases
      (run
        (runner (replies none) (returned (some (7 ∷ [])) (some (sentinel retire)) none) (pos 5))
        "job"
        []).1
    ≡ (cleanup (pos 5), exit_retired) ∷ []
unfolding is listed chain number
releases-run_example =
    releases-run (replies none) (pos 5) "job" token fresh refl refl (some (7 ∷ []))
      (some (sentinel retire)) none

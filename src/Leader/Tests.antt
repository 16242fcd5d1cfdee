-- ===== src/Leader/Tests.antt =====
-- The theorems on Elect, applied to terms of the work ID "job".
use worklease.Base.{◌≡◌, refl, false, none, [], ◌∷◌}
use worklease.Base.Int.{pos}
use worklease.Errors.{Result, ok}
use worklease.Backend.{Duration, exit_finished}
use worklease.Client.Types.{Token}
use worklease.Lease.{Script, releases, cleanup, cleanup_timeout}
use worklease.Leader.{fn_returned}
use worklease.Leader.Terms.{elected, elect_releases}

abbrev token : Token
token = record {
  work_id = "job";
  holder_id = "a";
  fencing_token = 1;
  expires_at = pos 11;
  deadline = pos 11;
}

abbrev replies : Result Token → Script
replies r = record {
  on_acquire = r;
  on_read = ok (record { state = none; prev_exit = 0; prev_holder_id = "" });
  on_checkpoint = none;
  on_release = none;
}

-- A draw of one nanosecond.
abbrev one : Duration → Duration
one d = pos 1

elect_releases_example :
    releases
      (elected one
        (replies (ok token))
        (pos 100)
        (pos 7)
        (pos 0)
        "job"
        (fn_returned none false false none)).1
    ≡ (cleanup (pos 5_000_000_000), exit_finished) ∷ []
unfolding cleanup_timeout
elect_releases_example =
    elect_releases one (replies (ok token)) (pos 100) (pos 7) (pos 0) "job" token refl none false
      false none

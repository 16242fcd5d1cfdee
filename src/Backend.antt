-- ===== src/Backend.antt =====
-- backend/backend.go: the types that the storage contract is stated with.
use Prim.Native.String.{◌++◌}
use worklease.Base.{ℕ, ◌/◌, ◌%◌, Bool, Option, String, List, ◌==◌, ◌||◌, ltb, if◌then◌else◌}
use worklease.Base.Int.{ℤ}

-- A time.Time and a time.Duration, in nanoseconds.
abbrev pub Time : Type 0
Time = ℤ

abbrev pub Duration : Type 0
Duration = ℤ

abbrev pub Bytes : Type 0
Bytes = List ℕ

-- ExitMode is a uint8, so a caller can pass any number below 256.
abbrev pub ExitMode : Type 0
ExitMode = ℕ

abbrev pub exit_none : ExitMode
exit_none = 0

abbrev pub exit_finished : ExitMode
exit_finished = 1

abbrev pub exit_abandoned : ExitMode
exit_abandoned = 2

abbrev pub exit_retired : ExitMode
exit_retired = 3

abbrev pub exit_expired : ExitMode
exit_expired = 4

abbrev digit : ℕ → String
digit n =
    if n == 0
    then "0"
    else if n == 1
    then "1"
    else if n == 2
    then "2"
    else if n == 3
    then "3"
    else if n == 4
    then "4"
    else if n == 5
    then "5"
    else if n == 6
    then "6"
    else if n == 7
    then "7"
    else if n == 8
    then "8"
    else "9"

-- strconv.Itoa on a uint8.
abbrev itoa : ℕ → String
itoa n =
    if ltb n 10
    then digit n
    else if ltb n 100
    then digit (n / 10) ++ digit (n % 10)
    else digit (n / 100) ++ (digit (n / 10 % 10) ++ digit (n % 10))

-- ExitMode.String.
unfoldable pub exit_text : ExitMode → String
exit_text m =
    if m == exit_none
    then "none"
    else if m == exit_finished
    then "finished"
    else if m == exit_abandoned
    then "abandoned"
    else if m == exit_retired
    then "retired"
    else if m == exit_expired
    then "expired"
    else "ExitMode(" ++ (itoa m ++ ")")

-- The modes that Release takes: the test that the client and both backends begin with, negated.
abbrev pub declarable : ExitMode → Bool
declarable mode = mode == exit_finished || (mode == exit_abandoned || mode == exit_retired)

-- A slice that may be nil is an option.
pub record Checkpoint : Type 0 where
  pub state : Option Bytes
  pub prev_exit : ExitMode
  pub prev_holder_id : String

pub record LeaseRecord : Type 0 where
  pub work_id : String
  pub holder_id : String
  pub fencing_token : ℕ
  pub expires_at : Time

pub record SweepOptions : Type 0 where
  pub retention : Duration
  pub include_expired : Bool

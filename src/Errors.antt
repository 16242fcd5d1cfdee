-- ===== src/Errors.antt =====
-- Go error values, and errors.Is and errors.As on them.
-- The sentinels are those of backend/errors.go, lease.go, vacuum.go, worker/runner.go,
-- leader/leader.go and pool/pool.go, the two of package context, and sql.ErrNoRows. An error that
-- may be nil is an `Option GoError`.
pub mod Laws
use worklease.Base.{ℕ, Bool, true, false, ◌||◌, Option, none, some, String, List, [], ◌∷◌, ◌==◌}

pub data Sentinel : Type 0 where
  fenced lease_held lease_expired invalid_exit_mode : Sentinel
  lease_window_exhausted config_invalid nil_backend retire retention_required : Sentinel
  canceled deadline_exceeded : Sentinel
  worker_lease_required worker_work_fn_required : Sentinel
  leader_lease_required leader_fn_required : Sentinel
  pool_config_invalid pool_lease_required pool_empty_work_ids pool_empty_work_id : Sentinel
  pool_duplicate_work_id pool_wait_prohibited pool_work_fn_required all_slots_dead : Sentinel
  no_rows : Sentinel

-- The identity of a sentinel: Go compares them as pointers.
unfoldable pub number : Sentinel → ℕ
number fenced = 0
number lease_held = 1
number lease_expired = 2
number invalid_exit_mode = 3
number lease_window_exhausted = 4
number config_invalid = 5
number nil_backend = 6
number retire = 7
number retention_required = 8
number canceled = 9
number deadline_exceeded = 10
number worker_lease_required = 11
number worker_work_fn_required = 12
number leader_lease_required = 13
number leader_fn_required = 14
number pool_config_invalid = 15
number pool_lease_required = 16
number pool_empty_work_ids = 17
number pool_empty_work_id = 18
number pool_duplicate_work_id = 19
number pool_wait_prohibited = 20
number pool_work_fn_required = 21
number all_slots_dead = 22
number no_rows = 23

-- The sentinel itself and those that its Unwrap reaches: the configError types unwrap to
-- worklease.ErrConfigInvalid, and the pool's sentinels wrap pool.ErrConfigInvalid.
unfoldable pub chain : Sentinel → List Sentinel
chain nil_backend = nil_backend ∷ config_invalid ∷ []
chain retention_required = retention_required ∷ config_invalid ∷ []
chain worker_lease_required = worker_lease_required ∷ config_invalid ∷ []
chain worker_work_fn_required = worker_work_fn_required ∷ config_invalid ∷ []
chain leader_lease_required = leader_lease_required ∷ config_invalid ∷ []
chain leader_fn_required = leader_fn_required ∷ config_invalid ∷ []
chain pool_config_invalid = pool_config_invalid ∷ config_invalid ∷ []
chain pool_lease_required = pool_lease_required ∷ pool_config_invalid ∷ config_invalid ∷ []
chain pool_empty_work_ids = pool_empty_work_ids ∷ pool_config_invalid ∷ config_invalid ∷ []
chain pool_empty_work_id = pool_empty_work_id ∷ pool_config_invalid ∷ config_invalid ∷ []
chain pool_duplicate_work_id = pool_duplicate_work_id ∷ pool_config_invalid ∷ config_invalid ∷ []
chain pool_wait_prohibited = pool_wait_prohibited ∷ pool_config_invalid ∷ config_invalid ∷ []
chain pool_work_fn_required = pool_work_fn_required ∷ pool_config_invalid ∷ config_invalid ∷ []
chain s = s ∷ []

pub data GoError : Type 0 where
  -- one of the values above
  sentinel : Sentinel → GoError
  -- any other error with nothing inside: errors.New, a driver's error
  plain : String → GoError
  -- fmt.Errorf with one %w, and a configError with the message given
  wrap : String → GoError → GoError
  -- errors.Join, and fmt.Errorf with two %w
  join : GoError → GoError → GoError
  -- a pool.PermanentError whose Permanent method returns the Boolean, without and with a cause
  permanent : Bool → GoError
  permanent_of : Bool → GoError → GoError

unfoldable pub listed : Sentinel → List Sentinel → Bool
listed t [] = false
listed t (s ∷ ss) = number s == number t || listed t ss

-- errors.Is(err, target) for a non-nil error and a sentinel.
unfoldable pub is : GoError → Sentinel → Bool
is (sentinel s) t = listed t (chain s)
is (plain m) t = false
is (wrap m e) t = is e t
is (join e f) t = is e t || is f t
is (permanent b) t = false
is (permanent_of b e) t = is e t

-- errors.Is(err, target), where nil matches no sentinel.
abbrev pub is_err : Option GoError → Sentinel → Bool
is_err none t = false
is_err (some e) t = is e t

-- The first hit, or what comes after it.
abbrev or_else : Option Bool → Option Bool → Option Bool
or_else none r = r
or_else (some b) r = some b

-- errors.As(err, &pe) for the interface PermanentError: what the Permanent method of the first
-- match, depth first, returns.
unfoldable pub as_permanent : GoError → Option Bool
as_permanent (sentinel s) = none
as_permanent (plain m) = none
as_permanent (wrap m e) = as_permanent e
as_permanent (join e f) = or_else (as_permanent e) (as_permanent f)
as_permanent (permanent b) = some b
as_permanent (permanent_of b e) = some b

abbrev found : Option Bool → Bool
found none = false
found (some b) = b

-- `errors.As(err, &pe) && pe.Permanent()`
unfoldable pub is_permanent : GoError → Bool
unfolding as_permanent
is_permanent e = found (as_permanent e)

-- A call that returns a value and an error.
pub data Result {ℓ} (A : Type ℓ) : Type ℓ where
  ok : A → Result A
  err : GoError → Result A

-- The error of a call's result.
abbrev pub error_of {ℓ} : {A : Type ℓ} → Result A → Option GoError
error_of (ok a) = none
error_of (err e) = some e

-- ===== src/Pool/Config.antt =====
-- pool.New: the checks of the configuration and the pacing defaults.
pub mod Checks
use worklease.Base.{ℕ, ◌+◌, Option, none, some, String, List, [], ◌∷◌, str_eq, if◌then◌else◌, Bool}
use worklease.Base.Int.{pos, leb_ℤ}
use worklease.Base.Dict.{Dict, lookup, insert}
use worklease.Errors.{
  GoError, Result, ok, err, sentinel, wrap, pool_lease_required, pool_empty_work_ids,
  pool_empty_work_id, pool_duplicate_work_id, pool_wait_prohibited, pool_work_fn_required,
}
use worklease.Backend.{Duration}
use worklease.Client.Options.{AcquireOption, has_wait_for_lease}

-- Config, without the options and the timeout that New does not look at.
pub record Config : Type 0 where
  pub work_ids : List String
  pub acquire_options : List AcquireOption
  pub idle_interval : Duration
  pub rerun_interval : Duration
  pub backoff_interval : Duration

-- 1s
abbrev pub default_interval : Duration
default_interval = pos 1_000_000_000

abbrev pub or_default : Duration → Duration
or_default d = if leb_ℤ d (pos 0) then default_interval else d

-- STEP 3, from index i on with the indices that are in the map.
unfoldable pub check_ids : ℕ → Dict ℕ → List String → Option GoError
check_ids i first_index [] = none
check_ids i first_index (id ∷ ids) =
    let rest = check_ids (i + 1) (insert id i first_index) ids in
    if str_eq id ""
    then some (wrap "pool: New: WorkIDs[%d]: " (sentinel pool_empty_work_id))
    else elim (lookup id first_index) [
      | some first ↦ some (
          wrap "pool: New: WorkIDs[%d] and WorkIDs[%d] are both %q: "
            (sentinel pool_duplicate_work_id))
      | none ↦ rest
    ]

-- The fields of the Pool that New builds from the configuration.
abbrev pub paced : Config → Config
paced cfg = record cfg {
  idle_interval = or_default cfg.idle_interval;
  rerun_interval = or_default cfg.rerun_interval;
  backoff_interval = or_default cfg.backoff_interval;
}

-- STEP 4 to 6.
abbrev pub check_rest : {F : Type 0} → Config → Option F → Result Config
check_rest cfg fn =
    if has_wait_for_lease cfg.acquire_options
    then err (sentinel pool_wait_prohibited)
    else elim fn [ none ↦ err (sentinel pool_work_fn_required) | some f ↦ ok (paced cfg) ]

abbrev pub check_work : {F : Type 0} → Config → Option F → Result Config
check_work cfg fn = elim (check_ids 0 [] cfg.work_ids) [ some e ↦ err e | none ↦ check_rest cfg fn ]

unfoldable pub new : {L F : Type 0} → Option L → Config → Option F → Result Config
new none cfg fn = err (sentinel pool_lease_required)
new (some lease) cfg fn = elim cfg.work_ids [
  | [] ↦ err (sentinel pool_empty_work_ids)
  | id ∷ ids ↦ check_work cfg fn
]

-- ===== src/Pool/Slots.antt =====
-- pool.Run: the slots, each a goroutine, as steps in any order, and ActiveSlots.
pub mod Causes
pub mod Death
pub mod Active
use worklease.Base.{
  ℕ, ◌+◌, Bool, true, false, ◌&&◌, ◌||◌, ◌==◌, Option, none, some, String, List, [], ◌∷◌, map,
  length, str_eq, if◌then◌else◌,
}
use worklease.Base.Dict.{Dict, lookup, insert, erase}
use worklease.Errors.{
  GoError, sentinel, is, is_err, is_permanent, fenced, lease_held, retire, all_slots_dead,
}
use worklease.Backend.{Duration}

-- Where the goroutine of a slot stands: in r.Run and not yet in the work function; in the work
-- function; after it, with the variable `retired`; in sleep; or returned, and why.
pub data Slot : Type 0 where
  acquiring working sleeping : Slot
  finishing : Bool → Slot
  exited_retired exited_dead exited_cancelled : Slot

-- A call of a method of the pool's Observer.
pub data PoolEvent : Type 0 where
  slot_acquired slot_lost slot_retired : String → PoolEvent
  slot_backoff slot_dead : String → GoError → PoolEvent

-- The slots by work ID, the set `active`, the counter `dead`, whether the caller's ctx is done,
-- whether cancel was called, and what the observer has got, newest first.
pub record PoolRun : Type 0 where
  pub slots : Dict Slot
  pub active : Dict (Unit {0})
  pub dead : ℕ
  pub ctx_done : Bool
  pub cancelled : Bool
  pub events : List PoolEvent

-- One action of a goroutine or of the caller: the work function of a slot begins; it returns an
-- error; r.Run of a slot returns; sleep of a slot ends, by the timer or, where the context is done,
-- by the context; the caller cancels.
pub data Action : Type 0 where
  enters : String → Action
  leaves : String → Option GoError → Action
  ends : String → Option GoError → Action
  wakes : String → Bool → Action
  cancels : Action

-- The goroutines of Run at their start.
unfoldable pub start : List String → PoolRun
start ids = record {
  slots = map (λ id. (id, acquiring)) ids;
  active = [];
  dead = 0;
  ctx_done = false;
  cancelled = false;
  events = [];
}

-- `runCtx.Err() != nil`
abbrev pub run_ctx_done : PoolRun → Bool
run_ctx_done p = p.ctx_done || p.cancelled

abbrev pub move : String → Slot → PoolRun → PoolRun
move id slot p = record p { slots = insert id slot p.slots }

abbrev pub observe : PoolEvent → PoolRun → PoolRun
observe e p = record p { events = e ∷ p.events }

-- `if dead.Add(1) == total { cancel() }`
abbrev pub count_death : PoolRun → PoolRun
count_death p = record p {
  dead = p.dead + 1;
  cancelled = p.cancelled || p.dead + 1 == length p.slots;
}

-- The cases of the switch for an error, once the context is found live.
unfoldable pub after_error : String → GoError → PoolRun → PoolRun
after_error id e p =
    if is e fenced
    then observe (slot_lost id) (move id acquiring p)
    else if is_permanent e
    then observe (slot_dead id e) (count_death (move id exited_dead p))
    else if is e lease_held
    then move id sleeping p
    else observe (slot_backoff id e) (move id sleeping p)

-- The switch after r.Run: first match wins.
unfoldable pub after_run : String → Bool → Option GoError → PoolRun → PoolRun
unfolding after_error
after_run id retired none p =
    if retired
    then observe (slot_retired id) (move id exited_retired p)
    else if run_ctx_done p
    then move id exited_cancelled p
    else move id sleeping p
after_run id retired (some e) p =
    if run_ctx_done p then move id exited_cancelled p else after_error id e p

-- An action of a slot that stands where the action cannot happen changes nothing.
unfoldable pub enter : String → Option Slot → PoolRun → PoolRun
enter id (some acquiring) p =
    let p' = observe (slot_acquired id) (move id working p) in
    record p' { active = insert id tt p'.active }
enter id _ p = p

unfoldable pub leave : String → Option GoError → Option Slot → PoolRun → PoolRun
leave id e (some working) p = record (move id (finishing (is_err e retire)) p) {
  active = erase id p.active;
}
leave id e _ p = p

unfoldable pub finish : String → Option GoError → Option Slot → PoolRun → PoolRun
unfolding after_run
finish id e (some acquiring) p = after_run id false e p
finish id e (some (finishing retired)) p = after_run id retired e p
finish id e _ p = p

unfoldable pub wake : String → Bool → Option Slot → PoolRun → PoolRun
wake id interrupted (some sleeping) p =
    if run_ctx_done p && interrupted then move id exited_cancelled p else move id acquiring p
wake id interrupted _ p = p

unfoldable pub step : PoolRun → Action → PoolRun
unfolding enter leave finish wake
step p (enters id) = enter id (lookup id p.slots) p
step p (leaves id e) = leave id e (lookup id p.slots) p
step p (ends id e) = finish id e (lookup id p.slots) p
step p (wakes id interrupted) = wake id interrupted (lookup id p.slots) p
step p cancels = record p { ctx_done = true }

unfoldable pub run : PoolRun → List Action → PoolRun
unfolding step
run p [] = p
run p (a ∷ as') = run (step p a) as'

abbrev pub is_exited : Slot → Bool
is_exited exited_retired = true
is_exited exited_dead = true
is_exited exited_cancelled = true
is_exited _ = false

-- wg.Wait() returns once every goroutine has.
abbrev pub all_exited : Dict Slot → Bool
all_exited [] = true
all_exited ((id, slot) ∷ d) = is_exited slot && all_exited d

-- What Run returns then.
unfoldable pub result : PoolRun → Option GoError
result p = if p.dead == length p.slots then some (sentinel all_slots_dead) else none

abbrev keys : Dict (Unit {0}) → List String
keys [] = []
keys ((id, u) ∷ d) = id ∷ keys d

unfoldable pub active_slots : PoolRun → List String
active_slots p = keys p.active

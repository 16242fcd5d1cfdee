-- ===== src/Pool/Slots/Active.antt =====
-- ActiveSlots: the work IDs whose work function runs, and no others.
use worklease.Base.{
  ◌≡◌, refl, true, false, Bool, Option, none, some, String, List, [], ◌∷◌, arith, eq_iff, is_some,
}
use worklease.Base.Dict.{lookup, lookup-insert, lookup-erase}
use worklease.Errors.{GoError, is_err, retire}
use worklease.Pool.Slots.{
  Slot, acquiring, working, sleeping, finishing, exited_retired, exited_dead, exited_cancelled,
  PoolRun, Action, enters, leaves, ends, wakes, cancels, start, move, after_error, after_run, enter,
  leave, finish, wake, step, run,
}

abbrev pub is_working : Option Slot → Bool
is_working (some working) = true
is_working _ = false

-- A work ID is in the set `active` exactly while its slot is in the work function.
abbrev IsTracked : PoolRun → Type 0
IsTracked p = (j : String) → is_some (lookup j p.active) ≡ is_working (lookup j p.slots)

module _ (p : PoolRun) (id : String) (v : IsTracked p) where
  idle-IsTracked :
      (old slot : Slot)
      → lookup id p.slots ≡ some old
      → is_working (some old) ≡ false
      → is_working (some slot) ≡ false
      → IsTracked (move id slot p)
  idle-IsTracked old slot h a b j =
      ground (arith, v j, lookup-insert id j slot p.slots, eq_iff id j, h)

  after_run-IsTracked :
      (old : Slot) (retired : Bool) (e : Option GoError)
      → lookup id p.slots ≡ some old
      → is_working (some old) ≡ false
      → IsTracked (after_run id retired e p)
  unfolding after_run after_error
  after_run-IsTracked old retired none h a j = ground (
    arith,
    idle-IsTracked old sleeping h a refl j,
    idle-IsTracked old exited_retired h a refl j,
    idle-IsTracked old exited_cancelled h a refl j,
  )
  after_run-IsTracked old retired (some e) h a j = ground (
    arith,
    idle-IsTracked old sleeping h a refl j,
    idle-IsTracked old acquiring h a refl j,
    idle-IsTracked old exited_dead h a refl j,
    idle-IsTracked old exited_cancelled h a refl j,
  )

  enter-IsTracked : (o : Option Slot) → lookup id p.slots ≡ o → IsTracked (enter id o p)
  unfolding enter
  enter-IsTracked (some acquiring) h j =
      ground (arith, v j, lookup-insert id j working p.slots, lookup-insert id j tt p.active)
  enter-IsTracked none h j = v j
  enter-IsTracked (some _) h j = v j

  leave-IsTracked :
      (e : Option GoError) (o : Option Slot) → lookup id p.slots ≡ o → IsTracked (leave id e o p)
  unfolding leave
  leave-IsTracked e (some working) h j = ground (
    arith,
    v j,
    lookup-insert id j (finishing (is_err e retire)) p.slots,
    lookup-erase id j p.active,
  )
  leave-IsTracked e none h j = v j
  leave-IsTracked e (some _) h j = v j

  finish-IsTracked :
      (e : Option GoError) (o : Option Slot) → lookup id p.slots ≡ o → IsTracked (finish id e o p)
  unfolding finish
  finish-IsTracked e (some acquiring) h = after_run-IsTracked acquiring false e h refl
  finish-IsTracked e (some (finishing retired)) h =
      after_run-IsTracked (finishing retired) retired e h refl
  finish-IsTracked e none h = v
  finish-IsTracked e (some _) h = v

  wake-IsTracked :
      (interrupted : Bool) (o : Option Slot)
      → lookup id p.slots ≡ o
      → IsTracked (wake id interrupted o p)
  unfolding wake
  wake-IsTracked interrupted (some sleeping) h j = ground (
    arith,
    idle-IsTracked sleeping acquiring h refl refl j,
    idle-IsTracked sleeping exited_cancelled h refl refl j,
  )
  wake-IsTracked interrupted none h j = v j
  wake-IsTracked interrupted (some _) h j = v j

step-IsTracked : (p : PoolRun) (a : Action) → IsTracked p → IsTracked (step p a)
unfolding step
step-IsTracked p (enters id) v = enter-IsTracked p id v (lookup id p.slots) refl
step-IsTracked p (leaves id e) v = leave-IsTracked p id v e (lookup id p.slots) refl
step-IsTracked p (ends id e) v = finish-IsTracked p id v e (lookup id p.slots) refl
step-IsTracked p (wakes id interrupted) v =
    wake-IsTracked p id v interrupted (lookup id p.slots) refl
step-IsTracked p cancels v = v

run-IsTracked : (as' : List Action) (p : PoolRun) → IsTracked p → IsTracked (run p as')
unfolding run
run-IsTracked [] p v = v
run-IsTracked (a ∷ as') p v = run-IsTracked as' (step p a) (step-IsTracked p a v)

-- In every interleaving of the slots and the caller, the set that ActiveSlots reads has a work ID
-- exactly while the work function of its slot runs.
pub active_while_working :
    (ids : List String) (as' : List Action) (id : String)
    → is_some (lookup id (run (start ids) as').active)
      ≡ is_working (lookup id (run (start ids) as').slots)
unfolding start lookup
active_while_working ids as' = run-IsTracked as' (start ids) (start-IsTracked ids)
  where
    start-IsTracked : (ids : List String) → IsTracked (start ids)
    start-IsTracked [] j = refl
    start-IsTracked (id ∷ ids) j = ground (arith, start-IsTracked ids j)

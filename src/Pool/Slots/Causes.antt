-- ===== src/Pool/Slots/Causes.antt =====
-- What a slot of the pool dies of.
use worklease.Base.{
  ◌≡◌, true, false, ◌⊎◌, inl, inr, Option, none, some, String, List, [], ◌∷◌, map, arith, eq_iff,
  str_eq, Bool-cases, Bool,
}
use worklease.Base.Dict.{lookup, lookup-insert}
use worklease.Errors.{GoError, is, fenced, is_permanent, is_err, retire}
use worklease.Pool.Slots.{
  Slot, acquiring, working, sleeping, finishing, exited_retired, exited_dead, exited_cancelled,
  PoolRun, Action, enters, leaves, ends, wakes, cancels, start, after_error, after_run, enter,
  leave, finish, wake, step, run, move,
}

-- r.Run of this slot returns an error whose chain has a PermanentError that says so, and that does
-- not match ErrFenced.
abbrev pub IsDeath : String → Action → Type 0
IsDeath id (ends j (some e)) = (j ≡ id) × (is e fenced ≡ false) × (is_permanent e ≡ true)
IsDeath id (ends j none) = ⊥
IsDeath id (enters j) = ⊥
IsDeath id (leaves j e) = ⊥
IsDeath id (wakes j interrupted) = ⊥
IsDeath id cancels = ⊥

abbrev pub DiesIn : String → List Action → Type 0
DiesIn id [] = ⊥
DiesIn id (a ∷ as') = IsDeath id a ⊎ DiesIn id as'

abbrev IsAlive : Slot → Type 0
IsAlive exited_dead = ⊥
IsAlive _ = Unit {0}

module _ (id : String) where
  abbrev IsDead : PoolRun → Type 0
  IsDead p = lookup id p.slots ≡ some exited_dead

  move-IsDead :
      (j : String) (slot : Slot) (p : PoolRun) → IsAlive slot → IsDead (move j slot p) → IsDead p
  move-IsDead j slot p live h = elim (Bool-cases (str_eq j id)) [
    | inl hit ↦ absurd (hits slot live (ground (arith, lookup-insert j id slot p.slots)))
    | inr miss ↦ ground (arith, lookup-insert j id slot p.slots)
  ]
    where
      hits : (s : Slot) → IsAlive s → some s ≡ some exited_dead → ⊥
      hits exited_dead l e = l
      hits acquiring l e = ground arith
      hits working l e = ground arith
      hits sleeping l e = ground arith
      hits (finishing b) l e = ground arith
      hits exited_retired l e = ground arith
      hits exited_cancelled l e = ground arith

  after_error-IsDead :
      (j : String) (e : GoError) (p : PoolRun)
      → IsDead (after_error j e p)
      → IsDead p ⊎ IsDeath id (ends j (some e))
  unfolding after_error
  after_error-IsDead j e p h = ground (
    arith,
    move-IsDead j acquiring p tt,
    move-IsDead j sleeping p tt,
    lookup-insert j id exited_dead p.slots,
    eq_iff j id,
  )

  after_run-IsDead :
      (j : String) (retired : Bool) (e : Option GoError) (p : PoolRun)
      → IsDead (after_run j retired e p)
      → IsDead p ⊎ IsDeath id (ends j e)
  unfolding after_run
  after_run-IsDead j retired none p h = inl (
      ground (
        arith,
        move-IsDead j exited_retired p tt,
        move-IsDead j exited_cancelled p tt,
        move-IsDead j sleeping p tt,
      ))
  after_run-IsDead j retired (some e) p h =
      ground (arith, move-IsDead j exited_cancelled p tt, after_error-IsDead j e p)

  finish-IsDead :
      (j : String) (e : Option GoError) (o : Option Slot) (p : PoolRun)
      → IsDead (finish j e o p)
      → IsDead p ⊎ IsDeath id (ends j e)
  unfolding finish
  finish-IsDead j e none p h = inl h
  finish-IsDead j e (some acquiring) p h = after_run-IsDead j false e p h
  finish-IsDead j e (some (finishing retired)) p h = after_run-IsDead j retired e p h
  finish-IsDead j e (some _) p h = inl h

  enter-IsDead : (j : String) (o : Option Slot) (p : PoolRun) → IsDead (enter j o p) → IsDead p
  unfolding enter
  enter-IsDead j none p h = h
  enter-IsDead j (some acquiring) p h = move-IsDead j working p tt h
  enter-IsDead j (some _) p h = h

  leave-IsDead :
      (j : String) (e : Option GoError) (o : Option Slot) (p : PoolRun)
      → IsDead (leave j e o p)
      → IsDead p
  unfolding leave
  leave-IsDead j e none p h = h
  leave-IsDead j e (some working) p h = move-IsDead j (finishing (is_err e retire)) p tt h
  leave-IsDead j e (some _) p h = h

  wake-IsDead :
      (j : String) (interrupted : Bool) (o : Option Slot) (p : PoolRun)
      → IsDead (wake j interrupted o p)
      → IsDead p
  unfolding wake
  wake-IsDead j interrupted none p h = h
  wake-IsDead j interrupted (some sleeping) p h =
      ground (arith, move-IsDead j exited_cancelled p tt, move-IsDead j acquiring p tt)
  wake-IsDead j interrupted (some _) p h = h

  step-IsDead : (p : PoolRun) (a : Action) → IsDead (step p a) → IsDead p ⊎ IsDeath id a
  unfolding step
  step-IsDead p (enters j) h = inl (enter-IsDead j (lookup j p.slots) p h)
  step-IsDead p (leaves j e) h = inl (leave-IsDead j e (lookup j p.slots) p h)
  step-IsDead p (ends j none) h = finish-IsDead j none (lookup j p.slots) p h
  step-IsDead p (ends j (some e)) h = finish-IsDead j (some e) (lookup j p.slots) p h
  step-IsDead p (wakes j interrupted) h = inl (wake-IsDead j interrupted (lookup j p.slots) p h)
  step-IsDead p cancels h = inl h

  run-IsDead : (as' : List Action) (p : PoolRun) → IsDead (run p as') → IsDead p ⊎ DiesIn id as'
  unfolding run
  run-IsDead [] p h = inl h
  run-IsDead (a ∷ as') p h = elim (run-IsDead as' (step p a) h) [
    | inl d ↦ elim (step-IsDead p a d) [ inl before ↦ inl before | inr now ↦ inr (inl now) ]
    | inr later ↦ inr (inr later)
  ]

  start-alive :
      (ids : List String) → lookup id (map (λ j. (j, acquiring)) ids) ≡ some exited_dead → ⊥
  unfolding lookup
  start-alive [] h = cc
  start-alive (j ∷ js) h = ground (arith, start-alive js)

  -- A slot that has died, in a run from the start, has died of a permanent error.
  pub dead-DiesIn :
      (ids : List String) (as' : List Action) → IsDead (run (start ids) as') → DiesIn id as'
  unfolding start
  dead-DiesIn ids as' h = elim (run-IsDead as' (start ids) h) [
    | inl at_start ↦ absurd (start-alive ids at_start)
    | inr died ↦ died
  ]

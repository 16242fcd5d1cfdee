-- ===== src/Pool/Slots/Death.antt =====
-- ErrAllSlotsDead: Run counts the slots that died, and no others.
use worklease.Base.{
  ℕ, ◌+◌, ◌≤◌, ◌≡◌, refl, true, false, Bool, inl, inr, ◌⊎◌, ◌≢◌, ◌↔◌, Bool-cases, Option, none,
  some, String, List, [], ◌∷◌, map, arith, str_eq, length,
}
use worklease.Base.Dict.{Dict, lookup, insert}
use worklease.Errors.{GoError, sentinel, all_slots_dead, is_err, retire}
use worklease.Pool.Slots.Causes.{DiesIn, dead-DiesIn}
use worklease.Pool.Slots.{
  Slot, acquiring, working, sleeping, finishing, exited_retired, exited_dead, exited_cancelled,
  PoolRun, Action, enters, leaves, ends, wakes, cancels, start, move, after_error, after_run, enter,
  leave, finish, wake, step, run, result, count_death,
}

abbrev pub is_dead : Slot → ℕ
is_dead exited_dead = 1
is_dead _ = 0

abbrev pub dead_slots : Dict Slot → ℕ
dead_slots [] = 0
dead_slots ((id, slot) ∷ d) = is_dead slot + dead_slots d

dead_slots-insert :
    (id : String) (old slot : Slot) (d : Dict Slot)
    → lookup id d ≡ some old
    → dead_slots (insert id slot d) + is_dead old ≡ dead_slots d + is_dead slot
unfolding lookup insert
dead_slots-insert id old slot [] h = cc
dead_slots-insert id old slot ((j, x) ∷ d) h = elim (Bool-cases (str_eq j id)) [
  | inl hit ↦ rw hit (ground arith)
  | inr miss ↦ rw miss (omega (arith, dead_slots-insert id old slot d (rw miss at h)))
]

length-insert :
    (id : String) (old slot : Slot) (d : Dict Slot)
    → lookup id d ≡ some old
    → length (insert id slot d) ≡ length d
unfolding lookup insert
length-insert id old slot [] h = cc
length-insert id old slot ((j, x) ∷ d) h = elim (Bool-cases (str_eq j id)) [
  | inl hit ↦ rw hit refl
  | inr miss ↦ rw miss (omega (arith, length-insert id old slot d (rw miss at h)))
]

dead_slots-le : (d : Dict Slot) → dead_slots d ≤ length d
dead_slots-le [] = omega arith
dead_slots-le ((id, acquiring) ∷ d) = omega (arith, dead_slots-le d)
dead_slots-le ((id, _) ∷ d) = omega (arith, dead_slots-le d)

death_cases : (o : Option Slot) → (o ≡ some exited_dead) ⊎ (o ≢ some exited_dead)
death_cases none = inr (λ e. cc e)
death_cases (some exited_dead) = inl refl
death_cases (some acquiring) = inr (λ e. ground arith)
death_cases (some working) = inr (λ e. ground arith)
death_cases (some sleeping) = inr (λ e. ground arith)
death_cases (some (finishing b)) = inr (λ e. ground arith)
death_cases (some exited_retired) = inr (λ e. ground arith)
death_cases (some exited_cancelled) = inr (λ e. ground arith)

-- The counter is right, and cancel was called only once every slot is dead.
pub record IsCounted (n : ℕ) (p : PoolRun) : Type 0 where
  pub total : length p.slots ≡ n
  pub counted : p.dead ≡ dead_slots p.slots
  pub cancelled_last : p.cancelled ≡ true → p.dead ≡ n

module _ (n : ℕ) (p : PoolRun) (id : String) (v : IsCounted n p) where
  -- A live slot that becomes another live slot.
  move-IsCounted :
      (old slot : Slot)
      → lookup id p.slots ≡ some old
      → is_dead old ≡ 0
      → is_dead slot ≡ 0
      → IsCounted n (move id slot p)
  move-IsCounted old slot h a b =
      ground (arith, dead_slots-insert id old slot p.slots h, length-insert id old slot p.slots h)

  move_dead-IsCounted :
      (old : Slot)
      → lookup id p.slots ≡ some old
      → is_dead old ≡ 0
      → IsCounted n (count_death (move id exited_dead p))
  move_dead-IsCounted old h a = record {
    total = ground (arith, length-insert id old exited_dead p.slots h, v.total);
    counted = ground (arith, dead_slots-insert id old exited_dead p.slots h, v.counted);
    cancelled_last = ground (
      arith,
      v.total,
      v.counted,
      v.cancelled_last,
      dead_slots-le (insert id exited_dead p.slots),
      length-insert id old exited_dead p.slots h,
      dead_slots-insert id old exited_dead p.slots h,
    );
  }

  after_error-IsCounted :
      (old : Slot) (e : GoError)
      → lookup id p.slots ≡ some old
      → is_dead old ≡ 0
      → IsCounted n (after_error id e p)
  unfolding after_error
  after_error-IsCounted old e h a = ground (
    arith,
    move-IsCounted old acquiring h a refl,
    move-IsCounted old sleeping h a refl,
    move_dead-IsCounted old h a,
  )

  after_run-IsCounted :
      (old : Slot) (retired : Bool) (e : Option GoError)
      → lookup id p.slots ≡ some old
      → is_dead old ≡ 0
      → IsCounted n (after_run id retired e p)
  unfolding after_run
  after_run-IsCounted old retired none h a = ground (
    arith,
    move-IsCounted old sleeping h a refl,
    move-IsCounted old exited_retired h a refl,
    move-IsCounted old exited_cancelled h a refl,
  )
  after_run-IsCounted old retired (some e) h a =
      ground (arith, after_error-IsCounted old e h a, move-IsCounted old exited_cancelled h a refl)

  enter-IsCounted : (o : Option Slot) → lookup id p.slots ≡ o → IsCounted n (enter id o p)
  unfolding enter
  enter-IsCounted (some acquiring) h = ground (arith, move-IsCounted acquiring working h refl refl)
  enter-IsCounted none h = v
  enter-IsCounted (some _) h = v

  leave-IsCounted :
      (e : Option GoError) (o : Option Slot) → lookup id p.slots ≡ o → IsCounted n (leave id e o p)
  unfolding leave
  leave-IsCounted e (some working) h =
      ground (arith, move-IsCounted working (finishing (is_err e retire)) h refl refl)
  leave-IsCounted e none h = v
  leave-IsCounted e (some _) h = v

  finish-IsCounted :
      (e : Option GoError) (o : Option Slot) → lookup id p.slots ≡ o → IsCounted n (finish id e o p)
  unfolding finish
  finish-IsCounted e (some acquiring) h = after_run-IsCounted acquiring false e h refl
  finish-IsCounted e (some (finishing retired)) h =
      after_run-IsCounted (finishing retired) retired e h refl
  finish-IsCounted e none h = v
  finish-IsCounted e (some _) h = v

  wake-IsCounted :
      (interrupted : Bool) (o : Option Slot)
      → lookup id p.slots ≡ o
      → IsCounted n (wake id interrupted o p)
  unfolding wake
  wake-IsCounted interrupted (some sleeping) h = ground (
    arith,
    move-IsCounted sleeping acquiring h refl refl,
    move-IsCounted sleeping exited_cancelled h refl refl,
  )
  wake-IsCounted interrupted none h = v
  wake-IsCounted interrupted (some _) h = v

step-IsCounted : (n : ℕ) (p : PoolRun) (a : Action) → IsCounted n p → IsCounted n (step p a)
unfolding step
step-IsCounted n p (enters id) v = enter-IsCounted n p id v (lookup id p.slots) refl
step-IsCounted n p (leaves id e) v = leave-IsCounted n p id v e (lookup id p.slots) refl
step-IsCounted n p (ends id e) v = finish-IsCounted n p id v e (lookup id p.slots) refl
step-IsCounted n p (wakes id interrupted) v =
    wake-IsCounted n p id v interrupted (lookup id p.slots) refl
step-IsCounted n p cancels v = record {
  total = v.total;
  counted = v.counted;
  cancelled_last = v.cancelled_last;
}

run-IsCounted : (n : ℕ) (as' : List Action) (p : PoolRun) → IsCounted n p → IsCounted n (run p as')
unfolding run
run-IsCounted n [] p v = v
run-IsCounted n (a ∷ as') p v = run-IsCounted n as' (step p a) (step-IsCounted n p a v)

start-IsCounted : (ids : List String) → IsCounted (length ids) (start ids)
unfolding start
start-IsCounted ids = record {
  total = at_start-length ids;
  counted = at_start-dead ids;
  cancelled_last = λ h. cc h;
}
  where
    slots_of : List String → Dict Slot
    slots_of ids = map (λ id. (id, acquiring)) ids

    at_start-length : (ids : List String) → length (slots_of ids) ≡ length ids
    at_start-length [] = refl
    at_start-length (id ∷ ids) = omega (arith, at_start-length ids)

    at_start-dead : (ids : List String) → 0 ≡ dead_slots (slots_of ids)
    at_start-dead [] = refl
    at_start-dead (id ∷ ids) = omega (arith, at_start-dead ids)

-- In every interleaving of the slots and the caller, Run's result is ErrAllSlotsDead exactly if
-- every slot has died; and a slot is not dead, or its r.Run has returned an error that is
-- permanent, by errors.As and Permanent(), and that does not match ErrFenced.
pub run_dies_with_slots :
    (ids : List String) (as' : List Action) (id : String)
    → let p = run (start ids) as' in
      ((result p ≡ some (sentinel all_slots_dead)) ↔ (dead_slots p.slots ≡ length ids))
      × ((lookup id p.slots ≢ some exited_dead) ⊎ DiesIn id as')
unfolding result
run_dies_with_slots ids as' id =
    let v = run-IsCounted (length ids) as' (start ids) (start-IsCounted ids) in
    (ground (arith, v.total, v.counted), dead_or_not (run (start ids) as') (dead-DiesIn id ids as'))
  where
    dead_or_not :
        (p : PoolRun)
        → (lookup id p.slots ≡ some exited_dead → DiesIn id as')
        → (lookup id p.slots ≢ some exited_dead) ⊎ DiesIn id as'
    dead_or_not p dies = elim (death_cases (lookup id p.slots)) [
      | inl dead ↦ inr (dies dead)
      | inr alive ↦ inl alive
    ]

-- In every interleaving, once the pool itself has cancelled its slots' context, every slot has died:
-- a slot that still lives is never cancelled because others died.
run_cancels_last :
    (ids : List String) (as' : List Action)
    → (run (start ids) as').cancelled ≡ true
    → dead_slots (run (start ids) as').slots ≡ length ids
run_cancels_last ids as' h =
    let v = run-IsCounted (length ids) as' (start ids) (start-IsCounted ids) in
    ground (arith, v.counted, v.cancelled_last h)

-- ===== src/Contract/Tests.antt =====
-- The contract of backend.Backend at work on the in-memory backend.
use worklease.Base.{◌≡◌, refl, none, some, [], ◌∷◌, arith}
use worklease.Base.Int.{pos, ◌+ℤ◌}
use worklease.Base.Dict.{lookup, insert}
use worklease.Contract.{Step, Unchanged, here, next, acquires, renews, checkpoints, granted, Term}
use worklease.Contract.Exclusion.{contract_excludes, IsHeld, no_call}
use worklease.Contract.Fencing.{contract_fences, IsRefusal}
use worklease.Contract.History.{KeepsOld, Reach-KeepsOld}
use worklease.Memory.{acquire}
use worklease.Memory.Calls.{Call, step}
use worklease.Memory.Invariant.{IsValid}
use worklease.Memory.History.{step-IsValid}
use worklease.Memory.View.{view, setting, term_of}
use worklease.Memory.Refinement.{answer, memory_refines}
use worklease.Memory.Samples.{at, lease_a, lease_b, row_a, row_b, only, held-IsValid}

-- "b" takes "job" over at 20.
takes_over :
    Step
      (setting none (at 20))
      (view (only row_a 1))
      (view (only row_b 2))
      (acquires "job" "b" (pos 10))
      (granted lease_b)
unfolding acquire lookup insert ◌+ℤ◌
takes_over =
    memory_refines (pos 1) none (at 20) (acquires "job" "b" (pos 10)) (only row_a 1) tt held-IsValid
      (omega arith)

memory_refines_example :
    Step
      (setting none (at 5))
      (view (only row_a 1))
      (view (answer none (at 5) (checkpoints lease_a (some (7 ∷ [])) (pos 10)) (only row_a 1)).1)
      (checkpoints lease_a (some (7 ∷ [])) (pos 10))
      (answer none (at 5) (checkpoints lease_a (some (7 ∷ [])) (pos 10)) (only row_a 1)).0
memory_refines_example =
    memory_refines (pos 1) none (at 5) (checkpoints lease_a (some (7 ∷ [])) (pos 10)) (only row_a 1)
      tt held-IsValid (omega arith)

Reach-KeepsOld_example : KeepsOld (view (only row_a 1)) (view (only row_b 2))
Reach-KeepsOld_example = Reach-KeepsOld (next _ _ _ here takes_over)

taken-IsValid : IsValid (pos 20) (only row_b 2)
unfolding step acquire lookup insert ◌+ℤ◌
taken-IsValid =
    step-IsValid (pos 1) (only row_a 1) (Call.acquires none (at 20) "job" "b" (pos 10))
      (omega arith) (ground arith) held-IsValid

-- "a" renews at 25.
contract_fences_example :
    IsRefusal (answer none (at 25) (renews lease_a (pos 10)) (only row_b 2)).0
    × Unchanged
        (view (only row_b 2))
        (view (answer none (at 25) (renews lease_a (pos 10)) (only row_b 2)).1)
contract_fences_example =
    contract_fences lease_a "b" (pos 10) lease_b (setting none (at 20)) (setting none (at 25))
      (view (only row_a 1)) (view (only row_b 2)) (view (only row_b 2))
      (view (answer none (at 25) (renews lease_a (pos 10)) (only row_b 2)).1)
      (renews lease_a (pos 10)) (answer none (at 25) (renews lease_a (pos 10)) (only row_b 2)).0
      (omega arith) takes_over here refl
      (memory_refines (pos 20) none (at 25) (renews lease_a (pos 10)) (only row_b 2) tt
        taken-IsValid (omega arith))

-- The row that "b" has stored, as the contract sees it.
abbrev term_b : Term
term_b = term_of row_b

contract_excludes_example :
    ((view (only row_b 2)).term "job" ≡ some term_b)
    × IsHeld (answer none (at 25) (acquires "job" "c" (pos 10)) (only row_b 2)).0
    × Unchanged
        (view (only row_b 2))
        (view (answer none (at 25) (acquires "job" "c" (pos 10)) (only row_b 2)).1)
unfolding lookup ◌+ℤ◌
contract_excludes_example =
    contract_excludes "job" "c" (pos 10) (pos 10) (setting none (at 20)) (setting none (at 25))
      (view (only row_a 1)) (view (only row_b 2)) (view (only row_b 2))
      (view (answer none (at 25) (acquires "job" "c" (pos 10)) (only row_b 2)).1) term_b
      (acquires "job" "b" (pos 10)) (granted lease_b)
      (answer none (at 25) (acquires "job" "c" (pos 10)) (only row_b 2)).0 takes_over (refl, refl)
      refl no_call (omega arith)
      (memory_refines (pos 20) none (at 25) (acquires "job" "c" (pos 10)) (only row_b 2) tt
        taken-IsValid (omega arith))

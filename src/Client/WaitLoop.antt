-- ===== src/Client/WaitLoop.antt =====
-- Acquire with WithWaitForLease: when the wait ends, and with what.
use worklease.Base.{
  ◌≡◌, refl, sym, ap, ◌∙◌, Option-cases, Bool, true, false, Option, none, some, String, List, [],
  ◌∷◌, arith, ◌⊎◌, inl, inr,
}
use worklease.Base.Int.{◌+ℤ◌}
use worklease.Errors.{Result, ok, err, error_of, is, is_err, lease_held}
use worklease.Backend.{LeaseRecord}
use worklease.Client.Types.{Token, LeaseClient}
use worklease.Client.Calls.{
  Round, Wait, fired, done, attempt, wait_loop, new_token, after_attempt, token_of,
}

-- Some round's context is done while the loop waits.
abbrev pub has_done : List Round → Bool
has_done [] = false
has_done (r ∷ rs) = elim r.wait [ fired ↦ has_done rs | done cause ↦ true ]

abbrev pub IsCause : Wait → Type 0
IsCause fired = Unit {0}
IsCause (done cause) = is cause lease_held ≡ false

-- The errors of the contexts that are done are not ErrLeaseHeld.
abbrev pub AreCauses : List Round → Type 0
AreCauses [] = Unit {0}
AreCauses (r ∷ rs) = IsCause r.wait × AreCauses rs

abbrev pub Among : Round → List Round → Type 0
Among r [] = ⊥
Among r (q ∷ qs) = (r ≡ q) ⊎ Among r qs

-- The loop goes round again only after ErrLeaseHeld and a timer that fired.
goes_round :
    (reply : Result LeaseRecord) (token : Token) (wait : Wait)
    → after_attempt reply token wait ≡ none
    → wait ≡ fired
goes_round (ok r) token wait e = cc
goes_round (err x) token fired e = refl
goes_round (err x) token (done cause) e = ground arith

-- A result of the loop is a token, another error than ErrLeaseHeld, or the end of the context.
ends_otherwise :
    (reply : Result LeaseRecord) (token : Token) (wait : Wait) (result : Result Token)
    → IsCause wait
    → after_attempt reply token wait ≡ some result
    → is_err (error_of result) lease_held ≡ false
unfolding is
ends_otherwise (ok r) token wait result h e = ground arith
ends_otherwise (err x) token fired result h e = ground arith
ends_otherwise (err x) token (done cause) result h e = ground arith

module _ {S O : Type 0} (c : LeaseClient S O) (work_id : String) where
  -- What the first round decides, and the state after it.
  abbrev decided : Round → S × O → Option (Result Token)
  decided r w =
      let (reply, token, w') = attempt c r.ctx r.timing work_id w in
      after_attempt reply token r.wait

  abbrev moved : Round → S × O → S × O
  moved r w = (attempt c r.ctx r.timing work_id w).2

  loop_cases :
      (r : Round) (rs : List Round) (w : S × O)
      → ((result : Result Token) × (decided r w ≡ some result)
          × (wait_loop c (r ∷ rs) work_id w ≡ (some result, moved r w)))
        ⊎ ((decided r w ≡ none)
            × (wait_loop c (r ∷ rs) work_id w ≡ wait_loop c rs work_id (moved r w)))
  unfolding wait_loop
  loop_cases r rs w = elim (Option-cases (decided r w)) [
    | inl again ↦ inr (again, rw (again, wait_loop))
    | inr (result, e) ↦ inl (result, e, rw (e, wait_loop))
  ]

  -- The wait ends at the latest in the first round whose context is done.
  pub wait_loop_ends :
      (rs : List Round) (w : S × O)
      → has_done rs ≡ true
      → (result : Result Token) × ((wait_loop c rs work_id w).0 ≡ some result)
  unfolding wait_loop
  wait_loop_ends [] w h = cc
  wait_loop_ends (r ∷ rs) w h = elim (loop_cases r rs w) [
    | inl (result, e, end) ↦ (result, rw end)
    | inr (again, on) ↦
        rw on (wait_loop_ends rs (moved r w) (later r.wait (goes_round _ _ r.wait again) h))
  ]
    where
      later :
          (wait : Wait)
          → wait ≡ fired
          → elim wait [ fired ↦ has_done rs | done cause ↦ true ] ≡ true
          → has_done rs ≡ true
      later fired e h = h
      later (done cause) e h = cc

  -- The wait never ends with ErrLeaseHeld: with the contexts' errors of other kinds, what Acquire
  -- returns matches ErrLeaseHeld in no case.
  pub wait_loop_not_held :
      (rs : List Round) (w : S × O) (result : Result Token)
      → AreCauses rs
      → (wait_loop c rs work_id w).0 ≡ some result
      → is_err (error_of result) lease_held ≡ false
  unfolding wait_loop
  wait_loop_not_held [] w result cs e = cc
  wait_loop_not_held (r ∷ rs) w result (cause, cs) e = elim (loop_cases r rs w) [
    | inl (found, q, end) ↦
        ends_otherwise (attempt c r.ctx r.timing work_id w).0 (attempt c r.ctx r.timing work_id w).1
          r.wait result cause (q ∙ ap (λ p. p.0) (sym end) ∙ e)
    | inr (again, on) ↦ wait_loop_not_held rs (moved r w) result cs (ap (λ p. p.0) (sym on) ∙ e)
  ]

  -- Where the token of a round comes from.
  Granted : Round → Token → Type 0
  Granted r token =
      (st st' : S) × (lease : LeaseRecord) × (c.backend.acquire r.ctx work_id c.holder_id c.ttl st
        ≡ (ok lease, st'))
      × (token ≡ new_token lease (r.timing.start +ℤ c.ttl))

  decided-Granted :
      (r : Round) (w : S × O) (token : Token) → decided r w ≡ some (ok token) → Granted r token
  unfolding attempt Granted
  decided-Granted r w token = at_reply (reply.0) refl
    where
      reply : Result LeaseRecord × S
      reply = c.backend.acquire r.ctx work_id c.holder_id c.ttl w.0

      at_reply :
          (x : Result LeaseRecord)
          → reply.0 ≡ x
          → after_attempt x (token_of c r.timing x) r.wait ≡ some (ok token)
          → Granted r token
      at_reply (ok lease) q e = (w.0, reply.1, lease, ap (λ y. (y, reply.1)) q, ground arith)
      at_reply (err x) q e = ground arith

  -- A token that the wait ends with comes from a backend call that succeeded in one of the rounds,
  -- and its local deadline is that call's local start plus the TTL.
  wait_loop_token :
      (rs : List Round) (w : S × O) (token : Token)
      → (wait_loop c rs work_id w).0 ≡ some (ok token)
      → (r : Round) × Among r rs
        × (st st' : S) × (lease : LeaseRecord) × (c.backend.acquire r.ctx work_id c.holder_id c.ttl
              st
            ≡ (ok lease, st'))
        × (token ≡ new_token lease (r.timing.start +ℤ c.ttl))
  unfolding wait_loop Granted
  wait_loop_token [] w token e = cc
  wait_loop_token (r ∷ rs) w token e = elim (loop_cases r rs w) [
    | inl (found, q, end) ↦
        let (st, st', lease, a, b) = decided-Granted r w token (q ∙ ap (λ p. p.0) (sym end) ∙ e) in
        (r, inl refl, st, st', lease, a, b)
    | inr (again, on) ↦
        let (q, among, st, st', lease, a, b) =
          wait_loop_token rs (moved r w) token (ap (λ p. p.0) (sym on) ∙ e) in
        (q, inr among, st, st', lease, a, b)
  ]

-- ===== src/Client/Exclusion.antt =====
-- The local deadline of a token, against the expiry that the in-memory backend has stored.
use worklease.Base.{ℕ, ◌≡◌, refl, ap, ◌∙◌, Option, none, some, String, arith, eq_iff}
use worklease.Base.Int.{◌+ℤ◌, ◌≤ℤ◌, +ℤ_parts}
use worklease.Base.Dict.{lookup, lookup-insert}
use worklease.Errors.{ok, err, sentinel, lease_held}
use worklease.Backend.{Time, Duration, LeaseRecord}
use worklease.Memory.{Row, MemoryBackend, Readings, acquire, new_row, next_token}
use worklease.Memory.Fencing.{acquire_granted}
use worklease.Memory.Exclusion.{acquire_excludes}
use worklease.Client.Types.{Context, Token, Observer, Timing}
use worklease.Client.Calls.{attempt, new_token}
use worklease.Client.Fencing.{on_memory}

new_row-expires_at :
    (existing : Option Row) (now : Readings) (holder_id : String) (ttl : Duration) (token : ℕ)
    → (new_row existing now holder_id ttl token).expires_at ≡ now.stamp +ℤ ttl
unfolding new_row
new_row-expires_at none now holder_id ttl token = refl
new_row-expires_at (some r) now holder_id ttl token = refl

le_trans : (a b c : Time) → a ≤ℤ b → b ≤ℤ c → a ≤ℤ c
le_trans a b c h k = omega arith

-- Adding the same TTL to both sides.
shift :
    (start offset ttl stamp : Time)
    → start +ℤ offset ≤ℤ stamp
    → (start +ℤ ttl) +ℤ offset ≤ℤ stamp +ℤ ttl
shift start offset ttl stamp h = omega (
  arith,
  +ℤ_parts start offset,
  +ℤ_parts start ttl,
  +ℤ_parts (start +ℤ ttl) offset,
  +ℤ_parts stamp ttl,
)

-- The lease that a successful Acquire stores.
acquire_stores :
    (now : Readings) (w holder_id : String) (ttl : Duration) (m z : MemoryBackend)
    (lease : LeaseRecord)
    → acquire none now w holder_id ttl m ≡ (ok lease, z)
    → (r : Row) × (lookup w z.records ≡ some r)
      × (r.expires_at ≡ now.stamp +ℤ ttl)
      × (lease.expires_at ≡ now.stamp +ℤ ttl)
acquire_stores now w holder_id ttl m z lease e =
    let r = new_row (lookup w m.records) now holder_id ttl (next_token m.seq) in
    let expiry = new_row-expires_at (lookup w m.records) now holder_id ttl (next_token m.seq) in
    let facts = acquire_granted now w holder_id ttl m z lease e in
    (
      r,
      ground (arith, facts, lookup-insert w w r m.records, eq_iff w w),
      expiry,
      ground (arith, facts, expiry),
    )

module _ {C O : Type 0} (tick : C → Readings × C) (ttl : Duration) (holder_id : String)
    (obs : Observer O) where
  -- What a successful attempt of the client got from the backend.
  attempt_acquired :
      (ctx : Context) (timing : Timing) (w : String) (m : MemoryBackend) (k : C) (o : O)
      (lease : LeaseRecord) (token : Token) (z : MemoryBackend) (k' : C) (o' : O)
      → attempt (on_memory tick ttl holder_id obs) ctx timing w ((m, k), o)
        ≡ (ok lease, token, ((z, k'), o'))
      → (acquire none (tick k).0 w holder_id ttl m ≡ (ok lease, z))
        × (token ≡ new_token lease (timing.start +ℤ ttl))
  unfolding attempt acquire
  attempt_acquired (some x) timing w m k o lease token z k' o' e = cc e
  attempt_acquired none timing w m k o lease token z k' o' e =
      (ground (arith, e), ground (arith, e))

  -- A token's local deadline is safe. Let the backend's clock be ahead of the local one by an offset,
  -- so that the reading for the new expiry, which follows the local start of the call, is not
  -- before that start plus the offset. Then the deadline plus the offset is not after the expiry in
  -- the token; and until then on the backend's clock, an Acquire of the work ID by any client
  -- returns ErrLeaseHeld and changes nothing.
  pub deadline_excludes :
      (ctx : Context) (timing : Timing) (w : String) (m : MemoryBackend) (k : C) (o : O)
      (lease : LeaseRecord) (token : Token) (z : MemoryBackend) (k' : C) (o' : O)
      (offset : Duration) (now : Readings) (other : String) (ttl' : Duration)
      → attempt (on_memory tick ttl holder_id obs) ctx timing w ((m, k), o)
        ≡ (ok lease, token, ((z, k'), o'))
      → timing.start +ℤ offset ≤ℤ (tick k).0.stamp
      → now.check ≤ℤ token.deadline +ℤ offset
      → (token.deadline +ℤ offset ≤ℤ token.expires_at)
        × (acquire none now w other ttl' z ≡ (err (sentinel lease_held), z))
  deadline_excludes ctx timing w m k o lease token z k' o' offset now other ttl' e late early =
      let (got, same) = attempt_acquired ctx timing w m k o lease token z k' o' e in
      let (r, found, expiry, lease_expiry) =
        acquire_stores (tick k).0 w holder_id ttl m z lease got in
      let deadline : token.deadline ≡ timing.start +ℤ ttl = ap (λ x. x.deadline) same in
      let expires : token.expires_at ≡ (tick k).0.stamp +ℤ ttl =
        ap (λ x. x.expires_at) same ∙ lease_expiry in
      let safe = shift timing.start offset ttl (tick k).0.stamp late in
      (
        rw (deadline, expires) safe,
        (acquire_excludes now w other ttl' z).1
            (rw found (rw expiry (le_trans now.check _ _ (rw deadline at early) safe))),
      )

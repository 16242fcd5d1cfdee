-- ===== src/Memory/Availability.antt =====
-- When a work ID can be acquired again.
use worklease.Base.{ℕ, ◌≡◌, refl, false, Option, none, some, String, arith}
use worklease.Base.Int.{◌≤ℤ◌, ◌<ℤ◌, +ℤ_parts}
use worklease.Base.Dict.{lookup}
use worklease.Errors.{ok}
use worklease.Backend.{Duration, ExitMode, LeaseRecord}
use worklease.Memory.{
  Row, MemoryBackend, Readings, acquire, release, is_live, new_row, next_token, grant, granted,
  release_grace_period,
}
use worklease.Memory.Handoff.{release_written, AreForeign, foreign_run_keeps}
use worklease.Memory.Fencing.{acquire_granted}
use worklease.Memory.Exclusion.{acquire_excludes}
use worklease.Memory.Calls.{Call, run}
use worklease.Memory.Invariant.{IsValid}
use worklease.Memory.History.{AreTimely}
use worklease.Base.{◌+◌, ◌<◌, ◌^◌, ◌⊎◌, List, length, Bool-cases, inl, inr, eq_iff}
use worklease.Base.Int.{◌+ℤ◌, leb_ℤ}
use worklease.Base.Dict.{lookup-insert}
use worklease.Errors.{err, sentinel, lease_held}
use worklease.Backend.{Time}

-- Acquire gives this holder a lease of the work ID, with the last token that the backend issued.
abbrev pub Obtains : Readings → String → String → Duration → MemoryBackend → Type 0
Obtains now w holder_id ttl m =
    (lease : LeaseRecord) × (z : MemoryBackend) × (acquire none now w holder_id ttl m
      ≡ (ok lease, z))
    × (lease.work_id ≡ w)
    × (lease.holder_id ≡ holder_id)
    × (lease.fencing_token ≡ z.seq)

new_row-holder_id :
    (existing : Option Row) (now : Readings) (holder_id : String) (ttl : Duration) (token : ℕ)
    → (new_row existing now holder_id ttl token).holder_id ≡ holder_id
unfolding new_row
new_row-holder_id none now holder_id ttl token = refl
new_row-holder_id (some r) now holder_id ttl token = refl

new_row-expires_at :
    (existing : Option Row) (now : Readings) (holder_id : String) (ttl : Duration) (token : ℕ)
    → (new_row existing now holder_id ttl token).expires_at ≡ now.stamp +ℤ ttl
unfolding new_row
new_row-expires_at none now holder_id ttl token = refl
new_row-expires_at (some r) now holder_id ttl token = refl

free-Obtains :
    (now : Readings) (w holder_id : String) (ttl : Duration) (m : MemoryBackend)
    → is_live (lookup w m.records) now.check ≡ false
    → Obtains now w holder_id ttl m
unfolding acquire grant
free-Obtains now w holder_id ttl m free =
    let r = new_row (lookup w m.records) now holder_id ttl (next_token m.seq) in
    let after = grant r w m in
    (granted w r, after.1, rw free refl, refl, new_row-holder_id _ now holder_id ttl _, refl)

-- A Release that returned nil frees the work ID at once: at every clock reading that is not before
-- the Release's, an Acquire of it by any client returns a lease.
pub release_frees :
    (now later : Readings) (rec : LeaseRecord) (mode : ExitMode) (holder_id : String)
    (ttl : Duration) (m z : MemoryBackend)
    → release none now rec mode m ≡ (none, z)
    → now.stamp ≤ℤ later.check
    → Obtains later rec.work_id holder_id ttl z
release_frees now later rec mode holder_id ttl m z e le =
    let (r, r', valid, before, found, same, held) = release_written now rec mode m z e in
    free-Obtains later rec.work_id holder_id ttl z
      (rw found (rw same (ground (arith, +ℤ_parts now.stamp release_grace_period))))

-- How long a grant keeps others out. After an Acquire at this reading of the clock, come any calls
-- that have no right to change its row (under a context that is done, with a record of another work
-- ID, holder or token, an Acquire of another work ID or before the expiry, a Sweep that the row is
-- not one to delete for), in a valid state, with clock readings that do not go back and with room
-- in the token counter. Then an Acquire by any client returns ErrLeaseHeld and changes nothing, up
-- to the grant's reading plus the TTL, that instant included; and it returns a lease after it.
pub grant_lasts_its_ttl :
    (t : Time) (now later : Readings) (w holder_id other : String) (ttl ttl' : Duration)
    (m z : MemoryBackend) (rec : LeaseRecord) (r : Row) (cs : List Call)
    → acquire none now w holder_id ttl m ≡ (ok rec, z)
    → lookup w z.records ≡ some r
    → IsValid t z
    → AreTimely t cs
    → z.seq + length cs < 2 ^ 64
    → AreForeign w r cs
    → ((later.check ≤ℤ now.stamp +ℤ ttl)
        × (acquire none later w other ttl' (run z cs) ≡ (err (sentinel lease_held), run z cs)))
      ⊎ ((now.stamp +ℤ ttl <ℤ later.check) × Obtains later w other ttl' (run z cs))
grant_lasts_its_ttl t now later w holder_id other ttl ttl' m z rec r cs e k v os room fs =
    elim (Bool-cases (leb_ℤ later.check r.expires_at)) [
      | inl early ↦ inl (
        ground (arith, expires),
        (acquire_excludes later w other ttl' (run z cs)).1 (rw kept (ground arith)),
      )
      | inr late ↦ inr (
        ground (arith, expires),
        free-Obtains later w other ttl' (run z cs) (rw kept (ground arith)),
      )
    ]
  where
    kept : lookup w (run z cs).records ≡ some r
    kept = foreign_run_keeps w r t z cs room os v fs k

    expires : r.expires_at ≡ now.stamp +ℤ ttl
    expires =
        let granted' = acquire_granted now w holder_id ttl m z rec e in
        let q = new_row (lookup w m.records) now holder_id ttl (next_token m.seq) in
        ground (
          arith,
          granted',
          k,
          new_row-expires_at (lookup w m.records) now holder_id ttl (next_token m.seq),
          lookup-insert w w q m.records,
          eq_iff w w,
        )

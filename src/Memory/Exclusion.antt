-- ===== src/Memory/Exclusion.antt =====
-- While a lease is live its row belongs to its holder.
use worklease.Base.{
  ◌≡◌, ◌≢◌, true, false, ◌⊎◌, ◌↔◌, if◌then◌else◌, Option, none, some, String, arith, eq_iff,
}
use worklease.Base.Int.{◌≤ℤ◌}
use worklease.Base.Dict.{lookup, insert, lookup-insert, lookup-erase}
use worklease.Errors.{err, sentinel, lease_held}
use worklease.Backend.{Time, Duration, LeaseRecord}
use worklease.Memory.{
  Row, MemoryBackend, Readings, acquire, checkpoint, renew, sweep, held_by, checkpoint_row,
  renew_row, new_row, next_token, is_live, grant, is_kept,
}
use worklease.Memory.Calls.{
  Call, acquires, checkpoints, renews, releases, forgets, sweeps, step, commit_cases, release_cases,
  acquire_cases, forget_cases,
}
use worklease.Memory.Invariant.{IsValid}
use worklease.Memory.Sweep.{lookup-swept, IsDeletable, gone-IsDeletable}
use worklease.Errors.{GoError}
use worklease.Base.{Bool-cases, inl, inr, refl}
use worklease.Memory.{release, release_valid, forget}

-- The record names another work ID than the row's, another holder or another token.
abbrev pub IsOther : String → Row → LeaseRecord → Type 0
IsOther w r rec =
    (rec.work_id ≢ w) ⊎ ((rec.holder_id ≢ r.holder_id) ⊎ (rec.fencing_token ≢ r.fencing_token))

-- A call that has no right to change the row: with a record that is not the row's; an Acquire of
-- another work ID, or while the row has not expired at its clock reading; a Sweep that the row is
-- not one to delete for.
abbrev pub HasNoRight : String → Row → Call → Type 0
HasNoRight w r (acquires ctx now work_id holder_id ttl) =
    (work_id ≢ w) ⊎ (now.check ≤ℤ r.expires_at)
HasNoRight w r (checkpoints ctx now rec state ttl) = IsOther w r rec
HasNoRight w r (renews ctx now rec ttl) = IsOther w r rec
HasNoRight w r (releases ctx now rec mode) = IsOther w r rec
HasNoRight w r (forgets ctx rec) = IsOther w r rec
HasNoRight w r (sweeps ctx now opts) = IsDeletable now opts r → ⊥

abbrev pub context_of : Call → Option GoError
context_of (acquires ctx now work_id holder_id ttl) = ctx
context_of (checkpoints ctx now rec state ttl) = ctx
context_of (renews ctx now rec ttl) = ctx
context_of (releases ctx now rec mode) = ctx
context_of (forgets ctx rec) = ctx
context_of (sweeps ctx now opts) = ctx

-- Or any call under a context that is done.
abbrev pub IsForeign : String → Row → Call → Type 0
IsForeign w r c = (context_of c ≢ none) ⊎ HasNoRight w r c

-- A call under a context that is done changes nothing.
refused_call_keeps : (m : MemoryBackend) (c : Call) → context_of c ≢ none → step m c ≡ m
unfolding step acquire checkpoint renew release release_valid forget sweep
refused_call_keeps m (acquires none now work_id holder_id ttl) f = absurd (f refl)
refused_call_keeps m (acquires (some e) now work_id holder_id ttl) f = refl
refused_call_keeps m (checkpoints none now rec state ttl) f = absurd (f refl)
refused_call_keeps m (checkpoints (some e) now rec state ttl) f = refl
refused_call_keeps m (renews none now rec ttl) f = absurd (f refl)
refused_call_keeps m (renews (some e) now rec ttl) f = refl
refused_call_keeps m (releases none now rec mode) f = absurd (f refl)
refused_call_keeps m (releases (some e) now rec mode) f = ground arith
refused_call_keeps m (forgets none rec) f = absurd (f refl)
refused_call_keeps m (forgets (some e) rec) f = refl
refused_call_keeps m (sweeps none now opts) f = absurd (f refl)
refused_call_keeps m (sweeps (some e) now opts) f = refl

module _ (w : String) (r : Row) where
  abbrev Keeps : MemoryBackend → Type 0
  Keeps m = lookup w m.records ≡ some r

  -- The test of the holder and the token.
  other-not_held : (rec : LeaseRecord) → IsOther w r rec → rec.work_id ≡ w → held_by r rec ≡ false
  unfolding held_by
  other-not_held rec other same = ground (arith, eq_iff r.holder_id rec.holder_id)

  -- A write to a row that the call's record matches.
  write-Keeps :
      (rec : LeaseRecord) (q q' : Row) (m : MemoryBackend)
      → Keeps m
      → IsOther w r rec
      → lookup rec.work_id m.records ≡ some q
      → held_by q rec ≡ true
      → Keeps (record m { records = insert rec.work_id q' m.records })
  write-Keeps rec q q' m k f e h =
      ground (
        arith,
        lookup-insert rec.work_id w q' m.records,
        eq_iff rec.work_id w,
        other-not_held rec f,
      )

  other_call_keeps :
      (t : Time) (m : MemoryBackend) (c : Call)
      → IsValid t m
      → lookup w m.records ≡ some r
      → HasNoRight w r c
      → lookup w (step m c).records ≡ some r
  unfolding step checkpoint renew
  other_call_keeps t m (acquires ctx now work_id holder_id ttl) v k f =
      acquire_cases Keeps ctx now work_id holder_id ttl m k λ free. ground (
        arith,
        lookup-insert work_id w
            (new_row (lookup work_id m.records) now holder_id ttl (next_token m.seq)) m.records,
        eq_iff work_id w,
      )
  other_call_keeps t m (checkpoints (some e) now rec state ttl) v k f = k
  other_call_keeps t m (checkpoints none now rec state ttl) v k f =
      commit_cases Keeps rec (checkpoint_row now state ttl) m k
        λ q q' e h _. write-Keeps rec q q' m k f e h
  other_call_keeps t m (renews (some e) now rec ttl) v k f = k
  other_call_keeps t m (renews none now rec ttl) v k f =
      commit_cases Keeps rec (renew_row now ttl) m k λ q q' e h _. write-Keeps rec q q' m k f e h
  other_call_keeps t m (releases ctx now rec mode) v k f =
      release_cases Keeps ctx now rec mode m k λ q q' d e h _. write-Keeps rec q q' m k f e h
  other_call_keeps t m (forgets ctx rec) v k f = forget_cases Keeps ctx rec m k λ q e h.
      ground
        (arith, lookup-erase rec.work_id w m.records, eq_iff rec.work_id w, other-not_held rec f)
  other_call_keeps t m (sweeps (some e) now opts) v k f = unfold sweep in k
  other_call_keeps t m (sweeps none now opts) v k f = elim (Bool-cases (is_kept now opts r)) [
    | inl kept ↦ ground (arith, lookup-swept t now opts m v w)
    | inr gone ↦ absurd (f (gone-IsDeletable now opts r gone))
  ]

  -- In every valid state, a row stays as it is at every call that has no right to change it: a call
  -- under a context that is done; Checkpoint, Renew, Release or Forget with a record of another
  -- work ID, holder or token; Acquire of another work ID, or at a clock reading that is not past
  -- the row's expiry; Sweep, unless the row is older than its retention, lapsed, and retired or,
  -- where those are included, without a declared exit.
  pub foreign_call_keeps :
      (t : Time) (m : MemoryBackend) (c : Call)
      → IsValid t m
      → lookup w m.records ≡ some r
      → IsForeign w r c
      → lookup w (step m c).records ≡ some r
  foreign_call_keeps t m c v k (inl refused) = rw (refused_call_keeps m c refused) k
  foreign_call_keeps t m c v k (inr f) = other_call_keeps t m c v k f

abbrev pub HoldsUntil : Option Row → Time → Type 0
HoldsUntil none now = ⊥
HoldsUntil (some r) now = now ≤ℤ r.expires_at

-- Acquire returns ErrLeaseHeld, and changes nothing, exactly while the stored lease has not run
-- out at the clock reading of its test.
pub acquire_excludes :
    (now : Readings) (work_id holder_id : String) (ttl : Duration) (m : MemoryBackend)
    → (acquire none now work_id holder_id ttl m ≡ (err (sentinel lease_held), m))
      ↔ HoldsUntil (lookup work_id m.records) now.check
unfolding acquire grant
acquire_excludes now work_id holder_id ttl m = at_row (lookup work_id m.records)
  where
    at_row :
        (o : Option Row)
        → ((if is_live o now.check
              then (err (sentinel lease_held), m)
              else grant (new_row o now holder_id ttl (next_token m.seq)) work_id m)
            ≡ (err (sentinel lease_held), m))
          ↔ HoldsUntil o now.check
    at_row none = (λ e. cc, λ h. absurd h)
    at_row (some r) = (λ e. ground arith, λ h. ground arith)

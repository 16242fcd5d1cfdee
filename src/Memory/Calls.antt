-- ===== src/Memory/Calls.antt =====
-- The calls of the in-memory backend as data, in any order and from any clients: a history of the
-- backend is a list of calls.
use worklease.Base.{
  arith, ◌≡◌, refl, true, false, inl, inr, Bool-cases, Option, none, some, String, List, [], ◌∷◌,
}
use worklease.Base.Dict.{lookup, insert, erase}
use worklease.Errors.{GoError}
use worklease.Backend.{Time, Duration, Bytes, ExitMode, declarable, LeaseRecord, SweepOptions}
use worklease.Memory.{
  Row, MemoryBackend, Readings, Outcome, refuse, write, commit, if_held, held_by, acquire,
  checkpoint, renew, release, release_valid, release_row, forget, forget_row, sweep, is_live,
  new_row, next_token, grant,
}

pub data Call : Type 0 where
  acquires : Option GoError → Readings → String → String → Duration → Call
  checkpoints : Option GoError → Readings → LeaseRecord → Option Bytes → Duration → Call
  renews : Option GoError → Readings → LeaseRecord → Duration → Call
  releases : Option GoError → Readings → LeaseRecord → ExitMode → Call
  forgets : Option GoError → LeaseRecord → Call
  sweeps : Option GoError → Time → SweepOptions → Call

-- The backend after a call. ReadCheckpoint changes nothing, so it is no call here.
unfoldable pub step : MemoryBackend → Call → MemoryBackend
step m (acquires ctx now work_id holder_id ttl) = (acquire ctx now work_id holder_id ttl m).1
step m (checkpoints ctx now rec state ttl) = (checkpoint ctx now rec state ttl m).1
step m (renews ctx now rec ttl) = (renew ctx now rec ttl m).1
step m (releases ctx now rec mode) = (release ctx now rec mode m).1
step m (forgets ctx rec) = (forget ctx rec m).1
step m (sweeps ctx now opts) = (sweep ctx now opts m).1

unfoldable pub run : MemoryBackend → List Call → MemoryBackend
run m [] = m
run m (c ∷ cs) = run (step m c) cs

-- A call that looks its row up, compares the holder and the token, and then writes that row: it
-- leaves the backend alone, or it writes what the held row asks for.
module _ {ℓ} (P : MemoryBackend → Type ℓ) (rec : LeaseRecord) (k : Row → Outcome)
    (m : MemoryBackend) (same : P m)
    (writes : (r r' : Row)
      → lookup rec.work_id m.records ≡ some r
      → held_by r rec ≡ true
      → k r ≡ write r'
      → P (record m { records = insert rec.work_id r' m.records })) where
  pub commit_cases : P (commit rec.work_id m (if_held (lookup rec.work_id m.records) rec k)).1
  commit_cases = at_row (lookup rec.work_id m.records) refl
    where
      at_outcome :
          (r : Row)
          → lookup rec.work_id m.records ≡ some r
          → held_by r rec ≡ true
          → (o : Outcome) → k r ≡ o
          → P (commit rec.work_id m o).1
      at_outcome r e h (refuse x) q = same
      at_outcome r e h (write r') q = writes r r' e h q

      at_row :
          (o : Option Row)
          → lookup rec.work_id m.records ≡ o
          → P (commit rec.work_id m (if_held o rec k)).1
      at_row none e = same
      at_row (some r) e = elim (Bool-cases (held_by r rec)) [
        | inl h ↦ rw h (at_outcome r e h (k r) refl)
        | inr h ↦ rw h same
      ]

-- The same of Release, which first tests the mode and the context.
pub release_cases {ℓ} :
    (P : MemoryBackend → Type ℓ) (ctx : Option GoError) (now : Readings) (rec : LeaseRecord)
    (mode : ExitMode) (m : MemoryBackend)
    → P m
    → ((r r' : Row)
        → declarable mode ≡ true
        → lookup rec.work_id m.records ≡ some r
        → held_by r rec ≡ true
        → release_row now mode r ≡ write r'
        → P (record m { records = insert rec.work_id r' m.records }))
    → P (release ctx now rec mode m).1
unfolding release
release_cases P ctx now rec mode m same writes = elim (Bool-cases (declarable mode)) [
  | inl d ↦ rw d (at_ctx ctx d)
  | inr d ↦ rw d same
]
  where
    at_ctx : (o : Option GoError) → declarable mode ≡ true → P (release_valid o now rec mode m).1
    at_ctx (some e) d = same
    at_ctx none d =
        commit_cases P rec (release_row now mode) m same (λ r r' e h q. writes r r' d e h q)

-- Acquire leaves the backend alone, or grants the row of a new lease.
pub acquire_cases {ℓ} :
    (P : MemoryBackend → Type ℓ) (ctx : Option GoError) (now : Readings)
    (work_id holder_id : String) (ttl : Duration) (m : MemoryBackend)
    → P m
    → (is_live (lookup work_id m.records) now.check ≡ false
        → let r = new_row (lookup work_id m.records) now holder_id ttl (next_token m.seq) in
          P (record { records = insert work_id r m.records; seq = r.fencing_token }))
    → P (acquire ctx now work_id holder_id ttl m).1
unfolding acquire grant
acquire_cases P (some e) now work_id holder_id ttl m same grants = same
acquire_cases P none now work_id holder_id ttl m same grants =
    elim (Bool-cases (is_live (lookup work_id m.records) now.check)) [
      | inl live ↦ rw live same
      | inr free ↦ rw free (grants free)
    ]

-- Forget leaves the backend alone, or erases the row that the caller holds.
pub forget_cases {ℓ} :
    (P : MemoryBackend → Type ℓ) (ctx : Option GoError) (rec : LeaseRecord) (m : MemoryBackend)
    → P m
    → ((r : Row)
        → lookup rec.work_id m.records ≡ some r
        → held_by r rec ≡ true
        → P (record m { records = erase rec.work_id m.records }))
    → P (forget ctx rec m).1
unfolding forget
forget_cases P (some e) rec m same erases = same
forget_cases P none rec m same erases = at_row (lookup rec.work_id m.records) refl
  where
    at_row : (o : Option Row) → lookup rec.work_id m.records ≡ o → P (forget_row o rec m).1
    at_row none e = same
    at_row (some r) e = elim (Bool-cases (held_by r rec)) [
      | inl h ↦ rw h (erases r e h)
      | inr h ↦ rw h same
    ]

-- A write that went through, read off its result.
pub commit_done :
    (rec : LeaseRecord) (k : Row → Outcome) (m z : MemoryBackend)
    → commit rec.work_id m (if_held (lookup rec.work_id m.records) rec k) ≡ (none, z)
    → (r : Row) × (r' : Row) × (lookup rec.work_id m.records ≡ some r)
      × (held_by r rec ≡ true)
      × (k r ≡ write r')
      × (z ≡ record m { records = insert rec.work_id r' m.records })
commit_done rec k m z = at_row (lookup rec.work_id m.records) refl
  where
    Done : Row → Type 0
    Done r =
        (r' : Row) × (k r ≡ write r') × (z ≡ record m { records = insert rec.work_id r' m.records })

    at_outcome : (r : Row) (o : Outcome) → k r ≡ o → commit rec.work_id m o ≡ (none, z) → Done r
    at_outcome r (refuse x) q e = cc
    at_outcome r (write r') q e = (r', q, ground arith)

    at_row :
        (o : Option Row)
        → lookup rec.work_id m.records ≡ o
        → commit rec.work_id m (if_held o rec k) ≡ (none, z)
        → (r : Row) × (r' : Row) × (lookup rec.work_id m.records ≡ some r)
          × (held_by r rec ≡ true)
          × (k r ≡ write r')
          × (z ≡ record m { records = insert rec.work_id r' m.records })
    at_row none found e = cc
    at_row (some r) found e = elim (Bool-cases (held_by r rec)) [
      | inl h ↦ let (r', q, end) = at_outcome r (k r) refl (rw h at e) in (r, r', found, h, q, end)
      | inr h ↦ cc (rw h at e)
    ]

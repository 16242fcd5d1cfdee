-- ===== src/Memory/Invariant.antt =====
-- What holds of the in-memory backend between two calls.
use worklease.Base.{
  ℕ, ◌+◌, ◌≤◌, ◌<◌, ◌^◌, ◌≡◌, ◌≢◌, refl, Option, none, some, String, [], ◌∷◌, arith, eq_iff,
}
use worklease.Base.Int.{◌<ℤ◌, ◌≤ℤ◌, +ℤ_parts}
use worklease.Base.Dict.{lookup, insert, lookup-insert, IsUnique, insert-IsUnique}
use worklease.Errors.{GoError}
use worklease.Backend.{Time, Duration, Bytes, ExitMode, LeaseRecord}
use worklease.Memory.{
  Row, MemoryBackend, Readings, acquire, checkpoint_row, renew_row, release_grace_period,
  checkpoint, renew, release, new, new_row, next_token, normalize,
}
use worklease.Memory.Calls.{commit_cases, release_cases, acquire_cases}

-- One row, at a time that no clock reading so far exceeds: its token has been issued, its exits
-- are values that the backend writes, a lease with no previous exit has no previous holder, an
-- empty state is not stored, and a lease with a declared exit ended before its last update.
pub record IsRow (seq : ℕ) (t : Time) (r : Row) : Type 0 where
  pub issued : r.fencing_token ≤ seq
  pub exit_known : r.exit_mode ≤ 3
  pub prev_known : r.prev_exit ≤ 4
  pub first_holder : r.prev_exit ≡ 0 → r.prev_holder_id ≡ ""
  pub state_kept : r.checkpoint ≢ some []
  pub exit_ends : 0 < r.exit_mode → r.expires_at <ℤ r.updated_at
  pub past : r.updated_at ≤ℤ t

-- Every row is one of these, no two work IDs have the same fencing token, and no work ID has two
-- rows.
pub record IsValid (t : Time) (m : MemoryBackend) : Type 0 where
  pub rows : (k : String) (r : Row) → lookup k m.records ≡ some r → IsRow m.seq t r
  pub distinct :
      (j k : String) (q r : Row)
      → lookup j m.records ≡ some q
      → lookup k m.records ≡ some r
      → q.fencing_token ≡ r.fencing_token
      → j ≡ k
  pub unique : IsUnique m.records

-- The clock does not go back, neither between two calls nor within one.
abbrev pub IsOrdered : Time → Readings → Type 0
IsOrdered t now = (t ≤ℤ now.check) × (now.check ≤ℤ now.stamp) × (now.stamp ≤ℤ now.update)

pub new-IsValid : (t : Time) → IsValid t new
unfolding new lookup
new-IsValid t = record { rows = λ k r h. cc; distinct = λ j k q r h. cc; unique = tt }

pub IsValid-later : (t u : Time) (m : MemoryBackend) → t ≤ℤ u → IsValid t m → IsValid u m
IsValid-later t u m le v = record {
  rows = λ k r h. ground (arith, v.rows k r h);
  distinct = v.distinct;
  unique = v.unique;
}

-- Putting a row with a known token back.
write-IsValid :
    (t u : Time) (m : MemoryBackend) (w : String) (r r' : Row)
    → t ≤ℤ u
    → IsValid t m
    → lookup w m.records ≡ some r
    → r'.fencing_token ≡ r.fencing_token
    → IsRow m.seq u r'
    → IsValid u (record m { records = insert w r' m.records })
write-IsValid t u m w r r' le v e same valid = record {
  rows = λ k q h.
      ground
        (arith, lookup-insert w k r' m.records, eq_iff w k, (IsValid-later t u m le v).rows k q);
  distinct = λ j k p q hj hk. ground (
    arith,
    lookup-insert w k r' m.records,
    lookup-insert w j r' m.records,
    eq_iff w k,
    eq_iff w j,
    v.distinct j k p q,
    v.distinct w k r q,
    v.distinct j w p r,
  );
  unique = insert-IsUnique w r' m.records v.unique;
}

-- Putting a row with a token that was never issued.
grant-IsValid :
    (t u : Time) (m : MemoryBackend) (w : String) (r : Row)
    → t ≤ℤ u
    → IsValid t m
    → m.seq < r.fencing_token
    → IsRow r.fencing_token u r
    → IsValid u (record { records = insert w r m.records; seq = r.fencing_token })
grant-IsValid t u m w r le v lt valid = record {
  rows = λ k q h.
      ground
        (arith, lookup-insert w k r m.records, eq_iff w k, (IsValid-later t u m le v).rows k q);
  distinct = λ j k p q hj hk. ground (
    arith,
    lookup-insert w k r m.records,
    lookup-insert w j r m.records,
    eq_iff w k,
    eq_iff w j,
    v.distinct j k p q,
    v.rows k q,
    v.rows j p,
  );
  unique = insert-IsUnique w r m.records v.unique;
}

normalize-full : (s : Option Bytes) → normalize s ≢ some []
normalize-full none = λ e. cc e
normalize-full (some []) = λ e. cc e
normalize-full (some (b ∷ bs)) = λ e. cc e

pub new_row-fencing_token :
    (existing : Option Row) (now : Readings) (holder_id : String) (ttl : Duration) (token : ℕ)
    → (new_row existing now holder_id ttl token).fencing_token ≡ token
unfolding new_row
new_row-fencing_token none now holder_id ttl token = refl
new_row-fencing_token (some r) now holder_id ttl token = refl

module _ (t : Time) (now : Readings) (m : MemoryBackend) (o : IsOrdered t now)
    (v : IsValid t m) where
  later : t ≤ℤ now.update
  later = omega arith

  unchanged : IsValid now.update m
  unchanged = IsValid-later t now.update m later v

  pub checkpoint-IsValid :
      (ctx : Option GoError) (rec : LeaseRecord) (state : Option Bytes) (ttl : Duration)
      → IsValid now.update (checkpoint ctx now rec state ttl m).1
  unfolding checkpoint
  checkpoint-IsValid (some e) rec state ttl = unchanged
  checkpoint-IsValid none rec state ttl =
      commit_cases (IsValid now.update) rec (checkpoint_row now state ttl) m unchanged λ r r' e h q.
        write-IsValid t now.update m rec.work_id r r' later v e (ground arith)
          (ground (arith, v.rows rec.work_id r e, normalize-full state))

  pub renew-IsValid :
      (ctx : Option GoError) (rec : LeaseRecord) (ttl : Duration)
      → IsValid now.update (renew ctx now rec ttl m).1
  unfolding renew
  renew-IsValid (some e) rec ttl = unchanged
  renew-IsValid none rec ttl =
      commit_cases (IsValid now.update) rec (renew_row now ttl) m unchanged λ r r' e h q.
        write-IsValid t now.update m rec.work_id r r' later v e (ground arith)
          (ground (arith, v.rows rec.work_id r e))

  pub release-IsValid :
      (ctx : Option GoError) (rec : LeaseRecord) (mode : ExitMode)
      → IsValid now.update (release ctx now rec mode m).1
  release-IsValid ctx rec mode =
      release_cases (IsValid now.update) ctx now rec mode m unchanged λ r r' d e h q.
        write-IsValid t now.update m rec.work_id r r' later v e (ground arith)
          (ground (arith, v.rows rec.work_id r e, +ℤ_parts now.stamp release_grace_period))

  new_row-IsRow :
      (existing : Option Row) (work_id holder_id : String) (ttl : Duration) (token : ℕ)
      → lookup work_id m.records ≡ existing
      → m.seq < token
      → IsRow token now.update (new_row existing now holder_id ttl token)
  unfolding new_row
  new_row-IsRow none work_id holder_id ttl token e lt = ground arith
  new_row-IsRow (some r) work_id holder_id ttl token e lt = ground (arith, v.rows work_id r e)

  pub acquire-IsValid :
      (ctx : Option GoError) (work_id holder_id : String) (ttl : Duration)
      → m.seq + 1 < 2 ^ 64
      → IsValid now.update (acquire ctx now work_id holder_id ttl m).1
  unfolding new_row
  acquire-IsValid ctx work_id holder_id ttl room =
      let existing = lookup work_id m.records in
      let token = next_token m.seq in
      acquire_cases (IsValid now.update) ctx now work_id holder_id ttl m unchanged λ free.
        grant-IsValid t now.update m work_id (new_row existing now holder_id ttl token) later v
          (rw new_row-fencing_token (omega arith))
          (rw new_row-fencing_token
            (new_row-IsRow existing work_id holder_id ttl token refl (omega arith)))

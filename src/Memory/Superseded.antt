-- ===== src/Memory/Superseded.antt =====
-- A lease that has a successor, or whose row is gone, stays so in every history.
use worklease.Base.{
  ◌+◌, ◌≤◌, ◌<◌, ◌^◌, ◌≡◌, ◌≢◌, none, some, String, List, [], ◌∷◌, arith, length, eq_iff,
}
use worklease.Base.Dict.{lookup, insert, lookup-insert, lookup-erase}
use worklease.Backend.{Time, LeaseRecord}
use worklease.Memory.{
  Row, MemoryBackend, checkpoint, renew, sweep, checkpoint_row, renew_row, new_row, next_token,
}
use worklease.Memory.Calls.{
  Call, acquires, checkpoints, renews, releases, forgets, sweeps, step, run, commit_cases,
  release_cases, acquire_cases, forget_cases,
}
use worklease.Memory.Invariant.{IsValid, new_row-fencing_token}
use worklease.Memory.Sweep.{swept-row}
use worklease.Memory.History.{seq-step, step-IsValid, AreTimely, end_time}

-- The record's token has been issued, and the stored lease of its work ID, if there is one, has
-- another token.
pub record IsSuperseded (rec : LeaseRecord) (m : MemoryBackend) : Type 0 where
  pub issued : rec.fencing_token ≤ m.seq
  pub replaced :
      (r : Row) → lookup rec.work_id m.records ≡ some r → r.fencing_token ≢ rec.fencing_token

module _ (rec : LeaseRecord) where
  -- A write that keeps the token of the row.
  write-IsSuperseded :
      (m : MemoryBackend) (w : String) (r r' : Row)
      → IsSuperseded rec m
      → lookup w m.records ≡ some r
      → r'.fencing_token ≡ r.fencing_token
      → IsSuperseded rec (record m { records = insert w r' m.records })
  write-IsSuperseded m w r r' s e same = record {
    issued = s.issued;
    replaced = λ q h. ground (
      arith,
      lookup-insert w rec.work_id r' m.records,
      eq_iff w rec.work_id,
      s.replaced q,
      s.replaced r,
    );
  }

  step-IsSuperseded :
      (t : Time) (m : MemoryBackend) (c : Call)
      → m.seq + 1 < 2 ^ 64
      → IsValid t m
      → IsSuperseded rec m
      → IsSuperseded rec (step m c)
  unfolding step checkpoint renew
  step-IsSuperseded t m (acquires ctx now work_id holder_id ttl) room v s =
      acquire_cases (IsSuperseded rec) ctx now work_id holder_id ttl m s λ free.
        let r = new_row (lookup work_id m.records) now holder_id ttl (next_token m.seq) in
        let token =
          new_row-fencing_token (lookup work_id m.records) now holder_id ttl (next_token m.seq) in
        record {
          issued = omega (arith, token, s.issued);
          replaced = λ q h.
              ground (
                arith,
                token,
                s.issued,
                lookup-insert work_id rec.work_id r m.records,
                s.replaced q,
              );
        }
  step-IsSuperseded t m (checkpoints (some e) now other state ttl) room v s = s
  step-IsSuperseded t m (checkpoints none now other state ttl) room v s =
      commit_cases (IsSuperseded rec) other (checkpoint_row now state ttl) m s
        λ r r' e h q. write-IsSuperseded m other.work_id r r' s e (ground arith)
  step-IsSuperseded t m (renews (some e) now other ttl) room v s = s
  step-IsSuperseded t m (renews none now other ttl) room v s =
      commit_cases (IsSuperseded rec) other (renew_row now ttl) m s
        λ r r' e h q. write-IsSuperseded m other.work_id r r' s e (ground arith)
  step-IsSuperseded t m (releases ctx now other mode) room v s =
      release_cases (IsSuperseded rec) ctx now other mode m s
        λ r r' d e h q. write-IsSuperseded m other.work_id r r' s e (ground arith)
  step-IsSuperseded t m (forgets ctx other) room v s =
      forget_cases (IsSuperseded rec) ctx other m s λ r e h. record {
        issued = s.issued;
        replaced =
            λ q h'. ground (arith, lookup-erase other.work_id rec.work_id m.records, s.replaced q);
      }
  step-IsSuperseded t m (sweeps (some e) now opts) room v s = unfold sweep in s
  step-IsSuperseded t m (sweeps none now opts) room v s = record {
    issued = unfold sweep in s.issued;
    replaced = λ q h. s.replaced q (swept-row t now opts m v rec.work_id q h);
  }

  pub run-IsSuperseded :
      (t : Time) (m : MemoryBackend) (cs : List Call)
      → m.seq + length cs < 2 ^ 64
      → AreTimely t cs
      → IsValid t m
      → IsSuperseded rec m
      → IsSuperseded rec (run m cs)
  unfolding run
  run-IsSuperseded t m [] room o v s = s
  run-IsSuperseded t m (c ∷ cs) room (o, os) v s =
      run-IsSuperseded (end_time t c) (step m c) cs (omega (arith, seq-step m c)) os
        (step-IsValid t m c (omega arith) o v) (step-IsSuperseded t m c (omega arith) v s)

-- ===== src/Memory/Service.antt =====
-- memory.Backend as an implementation of the interface backend.Backend. The clock is a parameter: a
-- state that gives the readings of the next operation.
use worklease.Client.Types.{Backend}
use worklease.Memory.{
  MemoryBackend, Readings, acquire, checkpoint, renew, release, read_checkpoint, forget, sweep,
}

-- The result of a call, and the state with the clock's beside it.
abbrev beside : {C R : Type 0} → C → R × MemoryBackend → R × (MemoryBackend × C)
beside k (r, m) = (r, (m, k))

abbrev pub service : {C : Type 0} → (C → Readings × C) → Backend (MemoryBackend × C)
service tick = record {
  acquire = λ ctx work_id holder_id ttl s.
      let (now, k) = tick s.1 in beside k (acquire ctx now work_id holder_id ttl s.0);
  checkpoint = λ ctx rec state ttl s.
      let (now, k) = tick s.1 in beside k (checkpoint ctx now rec state ttl s.0);
  renew = λ ctx rec ttl s. let (now, k) = tick s.1 in beside k (renew ctx now rec ttl s.0);
  release = λ ctx rec mode s. let (now, k) = tick s.1 in beside k (release ctx now rec mode s.0);
  read_checkpoint = λ ctx rec s. (read_checkpoint ctx rec s.0, s);
  forget = λ ctx rec s. beside s.1 (forget ctx rec s.0);
  sweep = λ ctx opts s. let (now, k) = tick s.1 in beside k (sweep ctx now.check opts s.0);
}

-- ===== src/Memory/Refinement.antt =====
-- The in-memory backend keeps the contract of backend.Backend.
use worklease.Base.{◌+◌, ◌<◌, ◌^◌, Option}
use worklease.Errors.{GoError}
use worklease.Backend.{Time}
use worklease.Memory.{
  MemoryBackend, Readings, acquire, checkpoint, renew, release, read_checkpoint, forget, sweep,
}
use worklease.Memory.Invariant.{IsValid}
use worklease.Contract.{
  Request, acquires, checkpoints, renews, releases, reads, forgets, sweeps, Reply, Step,
}
use worklease.Memory.View.{view, setting, reply_of, lease_reply, read_reply, swept_reply, IsContext}
use worklease.Memory.Steps.{
  acquire-Step, checkpoint-Step, renew-Step, release-Step, read-Step, forget-Step, sweep-Step,
}

-- The method of the backend that a request names.
abbrev pub answer : Option GoError → Readings → Request → MemoryBackend → Reply × MemoryBackend
answer ctx now (acquires w h ttl) m = let z = acquire ctx now w h ttl m in (lease_reply z.0, z.1)
answer ctx now (checkpoints rec state ttl) m =
    let z = checkpoint ctx now rec state ttl m in (reply_of z.0, z.1)
answer ctx now (renews rec ttl) m = let z = renew ctx now rec ttl m in (reply_of z.0, z.1)
answer ctx now (releases rec mode) m = let z = release ctx now rec mode m in (reply_of z.0, z.1)
answer ctx now (reads rec) m = (read_reply (read_checkpoint ctx rec m), m)
answer ctx now (forgets rec) m = let z = forget ctx rec m in (reply_of z.0, z.1)
answer ctx now (sweeps opts) m = let z = sweep ctx now.check opts m in (swept_reply z.0, z.1)

-- The in-memory backend keeps the contract of backend.Backend: every call, in every valid state,
-- at any readings of the clock and under any context, answers and changes the leases as a step of
-- the contract allows, as long as the token counter has room in 64 bits.
pub memory_refines :
    (t : Time) (ctx : Option GoError) (now : Readings) (q : Request) (m : MemoryBackend)
    → IsContext ctx
    → IsValid t m
    → m.seq + 1 < 2 ^ 64
    → Step (setting ctx now) (view m) (view (answer ctx now q m).1) q (answer ctx now q m).0
memory_refines t ctx now (acquires w h ttl) m c v room = acquire-Step m now ctx w h ttl c room
memory_refines t ctx now (checkpoints rec state ttl) m c v room =
    checkpoint-Step m now ctx rec state ttl c
memory_refines t ctx now (renews rec ttl) m c v room = renew-Step m now ctx rec ttl c
memory_refines t ctx now (releases rec mode) m c v room = release-Step m now ctx rec mode c
memory_refines t ctx now (reads rec) m c v room = read-Step m now ctx rec c
memory_refines t ctx now (forgets rec) m c v room = forget-Step m now ctx rec c
memory_refines t ctx now (sweeps opts) m c v room = sweep-Step m now t ctx opts c v

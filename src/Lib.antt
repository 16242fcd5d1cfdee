-- ===== src/Lib.antt =====
-- worklease: lease-based work coordination.
--
-- Workers share work IDs. A worker acquires a lease of a work ID, which has a time to live and a
-- fencing token, saves checkpoints under it, renews it while it works, and releases it with an exit
-- mode; its successor reads the last checkpoint and how its predecessor left. This library models
-- the parts of that program as functions, and proves what they promise.
--
-- The parts, and the files that model them:
--   backend/backend.go: the types of the storage contract, in Backend.antt; the interface
--     Backend itself is a record in Client/Types.antt, and what its comments promise of every
--     backend is the step relation of Contract.antt, on the leases of Contract/Terms. Contract/History, Fencing and
--     Exclusion prove what follows from that alone.
--   backend/errors.go and the error values of the other packages: Errors.antt, with errors.Is and
--     errors.As as functions.
--   backend/memory/memory.go: Memory.antt has an operation for each method, Memory/Rows.antt
--     the rows, Memory/Calls.antt the histories of calls. Memory/Invariant, History,
--     Superseded, Fencing, Exclusion, Handoff, Availability and Sweep have the proofs.
--     Memory/Service.antt is the backend as an implementation of the interface; Memory/View is
--     what the contract sees of it, and Memory/Counts, Steps and Refinement prove that it keeps the
--     contract.
--   backend/postgres: Postgres/Table.antt has the table of schema.sql, Postgres/Queries.antt each
--     SQL statement of postgres.go as a function on it, Postgres/Interval and Postgres/ExitText
--     the conversions to SQL, Postgres/Session how a call sends its statements, and Postgres.antt
--     the methods. Postgres/View, Updates, Invariant, Steps, Sweep, History, Refinement,
--     Methods, Answers and Fencing prove that the methods keep the contract, and what follows; Postgres/Context is
--     about the errors under a context that is done.
--   backend/conformance/conformance.go: Conformance.antt and its children have the specs as Boolean
--     tests of any backend; Conformance/Memory runs them on the in-memory backend.
--   worklease.go, acquire.go, lease.go: the lease client, in Client/Types, Client/Options and
--     Client/Calls; the proofs are in Client/Errors, WaitLoop, Fencing and Exclusion.
--   renewal.go: Renewal/Backoff (the options and the backoff), Renewal/Cycle (one Renew call and
--     its retries), Renewal/Loop (the goroutine and LeaseWindow).
--   worker/runner.go: Worker.antt; leader/leader.go: Leader.antt. Both use the interface Lease, in
--     Lease.antt, and their proofs run them over a lease that gives the replies of a script.
--     Worker/Handoff runs the worker over the lease client and the in-memory backend.
--   pool/pool.go: Pool/Config (New) and Pool/Slots (Run as steps of its goroutines, ActiveSlots).
--   vacuum.go: Vacuum.antt. checkpoint/codec.go: Checkpoint.antt.
--   Base.antt and its children: the shared names, the Boolean tests, signed integers, Go maps, and
--     the keys that a loop over a map drops.
--
-- How the code is read:
--   A time.Time and a time.Duration are integers, in nanoseconds; their arithmetic does not
--     overflow, but for the doubling of the backoff, where the wrap-around is written out. The
--     fencing sequence wraps around at 2^64, and theorems on histories say how much room is left.
--   A call gets what ctx.Err() returns during the call. What a clock, a timer or a select gives is
--     an argument: the readings of one operation, the rounds of a wait loop, the attempts of a
--     renewal cycle, the wakes of the goroutine. So a theorem holds for every order of events.
--   The mutex of the in-memory backend makes each call one step, and a history is a list of calls.
--     A context that ends in the middle of a call is not seen by the in-memory backend.
--   A slice that may be nil is an option, and a byte slice is a value: no aliases.
--   Error texts are the format strings, with the arguments left out.
--   A loop over a list of events has no result where the list ends before the loop does; the
--     theorem on the wait loop says which lists are long enough.
--   In the pool a step is one action of a slot's goroutine with all that it does up to its next
--     wait, and what r.Run returns is any error.
--   The float64 draws of the jitters, and the codec of a checkpoint, are parameters.
--
--   An SQL statement is one step, at the isolation level READ COMMITTED that the package asks for;
--     NOW() is the time of that step, and no order of these times is assumed. Any statements of
--     other sessions come between the UPDATE of a call and its SELECT. The environment chooses
--     whether a statement is refused, or run with its result lost, and the error; the sequence
--     ends at 2^63 - 1 with an error. The row that a SELECT sends is the columns that it names.
--   A step of the contract says which answer a call may get, the count of a Sweep and the error of a
--     call whose context is done included. Not in it: that a returned State is a fresh slice.
--   The contract lets a backend round a TTL up by less than a microsecond, and a retention by at
--     most two microseconds: the latter covers the float64 of Duration.Seconds and its %.6f.
--
-- Not modelled: internal/testutil (tests), examples, the two specs of backend/conformance on the
-- aliasing of slices, Token.String and Operation.String, the poll interval's timer, and the context values that carry the lease window.
pub mod Base
pub mod Errors
pub mod Backend
pub mod Memory
pub mod Client
pub mod Lease
pub mod Worker
pub mod Leader
pub mod Renewal
pub mod Pool
pub mod Vacuum
pub mod Checkpoint
pub mod Contract
pub mod Postgres
pub mod Conformance

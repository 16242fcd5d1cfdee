-- ===== src/Client.antt =====
-- worklease.go and acquire.go: the lease client over a storage backend.
-- A backend is an interface over a state S, an observer a function on a state O, and a call goes
-- from S × O to its result and the S × O after it. A Go format string with verbs stands for the
-- text that it yields; only the wrapping of errors matters here.
pub mod Options
pub mod Types
pub mod Calls
pub mod Errors
pub mod Fencing
pub mod Exclusion
pub mod WaitLoop
mod Tests

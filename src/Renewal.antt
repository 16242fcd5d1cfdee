-- ===== src/Renewal.antt =====
-- renewal.go and the renewal options of lease.go: the renewal goroutine.
-- The goroutine is a function over what it meets: which case of each select is ready, what
-- time.Now() returns, and how each Renew call ends. Floats are a type of their own with the
-- comparisons that the code makes.
pub mod Backoff
pub mod Cycle
pub mod Loop
mod Tests

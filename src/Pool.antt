-- ===== src/Pool.antt =====
-- pool/pool.go: New, and Run with its slots as interleaved steps.
pub mod Config
pub mod Slots
mod Tests

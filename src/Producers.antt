-- ===== src/Producers.antt =====
-- Producers: what the broker remembers of them, so that a retry is not written twice.
pub mod Idempotent
mod Tests

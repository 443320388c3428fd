-- ===== src/Clocks.antt =====
-- Counts and clocks that nodes keep apart and merge.
pub mod Vector
pub mod GCounter
pub mod VectorClock
pub mod LwwRegister
mod Tests

-- ===== src/Structures.antt =====
-- The bounded structures that the broker keeps recent things in.
pub mod RingBuffer
pub mod LruCache
mod Tests

-- ===== src/Groups.antt =====
-- Consumer groups: committed positions, and who owns which partition.
pub mod ConsumerGroup
mod Tests

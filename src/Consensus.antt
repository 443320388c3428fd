-- ===== src/Consensus.antt =====
-- What a quorum of nodes has to agree on before an entry counts as committed.
pub mod CommitIndex
pub mod Membership
pub mod Vote
pub mod LogMatching
pub mod Tests

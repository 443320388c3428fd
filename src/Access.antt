-- ===== src/Access.antt =====
-- Who may do what, and what a topic's records may look like.
pub mod Authorizer
pub mod Schemas
mod Tests

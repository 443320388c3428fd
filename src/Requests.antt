-- ===== src/Requests.antt =====
-- Requests that are answered now, later, or in part.
pub mod Fetching
pub mod Purgatory
mod Tests

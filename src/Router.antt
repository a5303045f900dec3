-- ===== src/Router.antt =====
-- The routing of documents to shards, pkg/coordination/router: the router (Documents), and where writes and reads of a
-- document go (Consistency).
pub mod Documents
pub mod Consistency
pub mod Tests

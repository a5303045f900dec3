-- ===== src/Bulk.antt =====
-- Bulk requests, pkg/coordination/bulk/bulk.go: their parsing and their responses (Request), and what is parsed (Commands, RoundTrip).
pub mod Request
pub mod Commands
pub mod RoundTrip
pub mod Tests

-- ===== src/Cache.antt =====
-- The caches of the coordination nodes, pkg/coordination/cache.
pub mod Lru
pub mod Limits
pub mod Calls
pub mod Cleanup
pub mod Reads
pub mod History
pub mod Plans
pub mod Collisions
mod Tests
mod PlanTests
pub mod Evict
pub mod Entries

-- ===== src/Allocation.antt =====
-- The shard allocator of the master, pkg/master/allocation/allocator.go: new indexes (Allocator,
-- Placement, Spread) and rebalancing (Rebalance, Balance, Rounds, Moves).
pub mod Allocator
pub mod Placement
pub mod Rebalance
pub mod Balance
pub mod Rounds
pub mod Moves
pub mod Spread
pub mod Tests
pub mod MoveTests

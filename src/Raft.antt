-- ===== src/Raft.antt =====
-- The replicated cluster state of the master nodes, pkg/master/raft/fsm.go.
pub mod State
pub mod Fsm
pub mod View
pub mod Invariant
pub mod Reads
pub mod Sharing
pub mod Spec
pub mod Refinement
pub mod Snapshot
pub mod Recovery
mod Tests

-- ===== src/Pipeline.antt =====
-- The pipelines of the coordination node, pkg/coordination/pipeline: definitions and their validation
-- (Definition, Validate), the registry (Registry), its invariant (Invariant, Associations, Tallies,
-- History), its statistics (Stats) and the executor (Execute, Outcomes, Counts, Unstaged).
pub mod Definition
pub mod Validate
pub mod Stats
pub mod Registry
pub mod Invariant
pub mod Associations
pub mod Tallies
pub mod History
pub mod Execute
pub mod Outcomes
pub mod Unstaged
pub mod Counts
pub mod Tests

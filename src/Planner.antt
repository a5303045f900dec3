-- ===== src/Planner.antt =====
-- The query planner of the coordination node, pkg/coordination/planner: logical plans (Plan), the
-- rewriting rules (Rules), the optimizer (Optimizer), its termination (Weight,
-- Termination), plans before and after it (Preserve, Plain, Meaning, Schemas), the conversion of queries (Values,
-- Convert), what is sent and evaluated of them (Execution, Conversion, Sent), and operations on rows (Rows).
pub mod Plan
pub mod Rules
pub mod Optimizer
pub mod Weight
pub mod Termination
pub mod Preserve
pub mod Plain
pub mod Meaning
pub mod Schemas
pub mod Values
pub mod Convert
pub mod Request
pub mod Execution
pub mod Conversion
pub mod Sent
pub mod Rows
pub mod ResultCache
pub mod CacheTests
pub mod QueryTests
pub mod Tests

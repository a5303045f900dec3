-- ===== src/Executor.antt =====
-- The distributed execution of searches, pkg/coordination/executor: what shards answer (Answers), the merge of
-- aggregations (Metrics, Merge), whole searches and counts (Search), and what is merged (Buckets, Failures).
pub mod Answers
pub mod Metrics
pub mod Merge
pub mod Search
pub mod Buckets
pub mod Failures
pub mod Tests

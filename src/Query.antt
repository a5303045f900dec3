-- ===== src/Query.antt =====
-- The query DSL, pkg/coordination/parser: the queries (Ast), their parser (Leaf, Parser), a printer and the round
-- trip (Printer, RoundTrip), expression queries (Expressions), the checks and measures of queries (Checks), and
-- their simplification (Simplify, Meaning).
pub mod Ast
pub mod Leaf
pub mod Parser
pub mod Printer
pub mod RoundTrip
pub mod Expressions
pub mod Checks
pub mod Simplify
pub mod Meaning
pub mod Tests

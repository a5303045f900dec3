-- ===== src/Expression.antt =====
-- The expressions of queries, pkg/coordination/expressions: the tree (Ast), the parser (Parser) and what it
-- parses (Operators, Inferred, Typing), the validator (Validator), the serializer (Serializer), the two
-- together (Validated), and a decoder of what the serializer writes, for proofs (Decoding, Reader, RoundTrip, Transport).
pub mod Ast
pub mod Parser
pub mod Validator
pub mod Serializer
pub mod Validated
pub mod Decoding
pub mod Reader
pub mod RoundTrip
pub mod Transport
pub mod Operators
pub mod Inferred
pub mod Typing
pub mod Tests

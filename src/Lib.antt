-- ===== src/Lib.antt =====
-- Quidditch is a distributed search engine in Go. A master keeps the state of the cluster in a
-- replicated state machine and allocates the shards of indexes to data nodes; a coordination node
-- plans queries, caches results, and runs pipelines of user functions on queries, documents and
-- results. This library models the parts of it that decide, as functions, and proves what makes
-- them correct.
--
-- The files, and the Go code that each models:
--
--   Common      integers as bit patterns, maps as association lists, lists, tests, case splits.
--               Time is a number that the caller gives, where the code reads a clock.
--   Raft        pkg/master/raft/fsm.go. State: the records, with the node objects on a heap, since
--               the maps hold pointers and heartbeats write through them. Fsm: Apply and the apply*
--               methods. Invariant: records stand under the keys that they name. Spec and Refinement:
--               the abstract registry that the machine implements. Sharing: GetState, whose copies
--               share the node objects. Snapshot and Recovery: Snapshot, Persist and Restore.
--   Allocation  pkg/master/allocation/allocator.go. Allocator: AllocateShards and its helpers.
--               Placement and Spread: where shards go. Rebalance: RebalanceShards and its helpers.
--               Balance, Rounds and Moves: its rounds and decisions, in any orders of the ranges over
--               maps. The decisions are made from the state of Raft; their commands come back through it.
--   Cache       pkg/coordination/cache/lru_cache.go. Lru: the methods of LRUCache. Entries, Evict,
--               Limits: what they do to the entries. Calls, Cleanup, Reads, History: the calls.
--               Plans: query_cache.go. Collisions: requests that share a key.
--   Planner     pkg/coordination/planner/logical.go and optimizer.go. Plan: LogicalPlan. Rules: the
--               rewriting rules. Optimizer: optimizeNode and Optimize. Weight and Termination: the weight
--               that rules lower. Preserve, Plain, Meaning, Schemas: what an optimized plan
--               keeps; Plain has the plans that ConvertSearchRequest makes.
--               Values, Convert, Request: converter.go. Execution and Rows: execution.go. ResultCache:
--               cache.go. Conversion and Sent: what becomes of a query.
--   Pipeline    pkg/coordination/pipeline/registry.go, executor.go and types.go. Definition,
--               Validate, Stats, Registry: definitions, their validation, statistics and the registry.
--               Execute: runs. Invariant, Associations, Tallies, History: the registry over any calls.
--               Outcomes, Counts, Unstaged: what runs give.
--   Json        decoded JSON, which both parsers read.
--   Query       pkg/coordination/parser/parser.go and types.go. Ast: the queries. Leaf and Parser:
--               QueryParser. Printer and RoundTrip: parsing what is printed. Checks: Validate and the
--               measures of queries. Simplify and Meaning: SimplifyBoolQuery. Expressions: expr queries.
--   Executor    pkg/coordination/executor. Answers: what shards answer. Metrics, Merge: aggregator.go. Search:
--               the calls of executor.go, on clients that are functions. Buckets and Failures: merged
--               counts, and shards without an allocation.
--   Router      pkg/coordination/router/router.go. Documents: DocumentRouter. Consistency: where the
--               calls for one document go.
--   Bulk        pkg/coordination/bulk/bulk.go. Request: ParseBulkRequest and responses. Commands and
--               RoundTrip: what is parsed.
--   Expression  pkg/coordination/expressions: ast.go, parser.go, validator.go, serializer.go. Ast: the
--               nodes. Parser: Parse. Operators: operators that it does not know. Inferred and Typing:
--               the types of what it parses. Validator and Serializer: the types of the same names.
--               Validated: both together.
--               Decoding and Reader: a decoder of the bytes that Serializer writes, used in proofs only.
--               RoundTrip: decoding what was written. Transport: what the bytes of an accepted expression tell.
--
-- Each folder has a file Tests with the theorems at concrete inputs.
--
-- Methods that hold a lock for their whole body are single steps. A failing call returns its error
-- as a value; a Go panic is `none`. The loop of evictIfNeeded runs on fuel, one more than the number
-- of entries, which is enough unless the capacity is negative. optimizeNode runs on fuel; more than
-- the weight of the plan is enough. The loop of RebalanceShards runs on fuel, one more than the number
-- of counted shards, which is enough.
--
-- Not under the repository's source, and so parameters: the JSON codec of the state machine (it
-- decodes what it encodes), the order that sort.Slice gives to equal elements, the
-- orders in which the ranges over maps of a rebalancing visit them (every entry once), the products of
-- durations by 1.5 and 2.0 in float64, the arithmetic of float64 in merged statistics, the
-- encoding and the digest of keys of plans, the data nodes
-- and the order in which they answer, what strconv parses of a text, the conversions between float64
-- and int, the comparison of interface values, the stages of a pipeline, and the engine that computes plans.
--
-- Not modelled: HTTP and gRPC services and clients, the cgo bridge to the C++ engine, the WASM
-- runtime, generated code, configuration, metrics and log lines, and for now the
-- costs of plans. The evaluator that gets the
-- bytes of an expression is not modelled: pkg/data/diagon/README_CPP.md documents its format with other
-- tags, field order and lengths than serializer.go writes, and no theorem says that it reads them.
pub mod Allocation
pub mod Bulk
pub mod Cache
pub mod Common
pub mod Executor
pub mod Expression
pub mod Json
pub mod Pipeline
pub mod Planner
pub mod Query
pub mod Raft
pub mod Router

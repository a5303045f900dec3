-- ===== src/Query/Ast.antt =====
-- The implementations of `Query` in pkg/coordination/parser/types.go, with the fields in the order of the structs.
use quidditch.Common.{ℕ, String, Option, List}
use quidditch.Json.{Json, Items, Fields}
use quidditch.Expression.Ast as ExprAst

mutual
  pub data Query : Type 0 where
    match : String → String → String → ℕ → String → Query
    match_phrase : String → String → ℕ → Query
    multi_match : String → List String → String → Query
    query_string : String → String → List String → Query
    term : String → Json → ℕ → Query
    terms : String → Items → Query
    range : String → Json → Json → Json → Json → ℕ → Query
    exists : String → Query
    prefix : String → String → Query
    wildcard : String → String → Query
    fuzzy : String → String → String → Query
    bool_query : Queries → Queries → Queries → Queries → ℕ → String → Query
    match_all : ℕ → Query
    expression : ExprAst.Expr → ExprAst.Bytes → Query
    wasm_udf : String → String → Fields → Query

  pub data Queries : Type 0 where
    nil : Queries
    cons : Query → Queries → Queries

-- The fields of `SearchRequest` that plans are made from.
pub record SearchRequest : Type 0 where
  pub parsed_query : Option Query
  pub size : ℕ
  pub from : ℕ
  pub sort : List Fields
  pub source : Option Json
  pub aggregations : Option Fields
  pub aggs : Option Fields

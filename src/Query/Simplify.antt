-- ===== src/Query/Simplify.antt =====
-- `SimplifyBoolQuery` of pkg/coordination/parser/types.go, and what it makes of the meaning of a bool query.
use quidditch.Common.{ℕ, String}
use quidditch.Query.Ast.{Query, bool_query, Queries, nil, cons}

infixr 65 ◌+++◌
abbrev pub ◌+++◌ : Queries → Queries → Queries
nil +++ qs = qs
cons p ps +++ qs = cons p (ps +++ qs)

-- The slices of `simplified` that the loop appends to.
pub record Simplified : Type 0 where
  pub must : Queries
  pub must_not : Queries
  pub filter : Queries

-- One round of the loop over the must clauses, before the rounds that follow.
abbrev pub flatten_one : Query → Simplified → Simplified
flatten_one (bool_query m nil mn f n s) rest = record {
  must = m +++ rest.must;
  must_not = mn +++ rest.must_not;
  filter = f +++ rest.filter;
}
flatten_one q rest = record rest { must = cons q rest.must }

unfoldable pub flatten : Queries → Simplified
flatten nil = record { must = nil; must_not = nil; filter = nil }
flatten (cons q qs) = flatten_one q (flatten qs)

-- The assignments after the loop replace what it has appended to `MustNot` and `Filter`.
unfoldable pub simplify : Queries → Queries → Queries → Queries → ℕ → String → Query
simplify m sh mn f n s = bool_query (flatten m).must sh mn f n s

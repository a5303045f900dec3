-- ===== src/Planner/Conversion.antt =====
-- What becomes of a query in pkg/coordination/planner: converter.go makes an expression of it, execution.go a query
-- for the data nodes, or a filter of rows.
use quidditch.Common.{
  ℕ, suc, ◌≤◌, ◌≡◌, refl, sym, ap, ◌∙◌, String, Bool, true, false, Option, none, some,
  some-injective, >>=-eq-some, arith, Option-cases, inl, inr,
}
use quidditch.Json.{Json, Fields}
use quidditch.Query.Ast as Dsl
use quidditch.Query.Ast.{
  Query, match, match_phrase, multi_match, query_string, term, terms, range, exists, prefix,
  wildcard, fuzzy, bool_query, match_all, expression, wasm_udf, Queries,
}
use quidditch.Query.Meaning.{count}
use quidditch.Planner.Plan.{nil, cons}
use quidditch.Planner.Rules.{combine_filters}
use quidditch.Planner.Values.{Value, Condition, Conditions}
use quidditch.Planner.Convert.{
  ◌+++◌, any_of, should_part, combined, bool_condition, convert, convert_all,
}
use quidditch.Planner.Execution.{evaluate, evaluate_any, or_else}

append-nil : (es : Conditions) → es +++ nil ≡ es
append-nil nil = refl
append-nil (cons e es) = ap (cons e) (append-nil es)

abbrev size : Conditions → ℕ
size nil = 0
size (cons e es) = suc (size es)

convert_all-size : (m : Queries) (es : Conditions) → convert_all m ≡ some es → size es ≡ count m
unfolding convert
convert_all-size Dsl.nil es is = ap size (sym (some-injective nil es is))
convert_all-size (Dsl.cons q qs) es is =
    let (e, ie, more) = >>=-eq-some (convert q) _ es is in
    let (rest, ir, whole) = >>=-eq-some (convert_all qs) _ es more in
    ap size (sym (some-injective (cons e rest) es whole)) ∙ ap suc (convert_all-size qs rest ir)

combined-any_of : (es : Conditions) → 2 ≤ size es → combined es ≡ any_of es
combined-any_of nil h = absurd (omega arith)
combined-any_of (cons e nil) h = absurd (omega arith)
combined-any_of (cons e (cons e' es)) h = refl

should_only : (es : Conditions) → 2 ≤ size es → combined (should_part es +++ nil) ≡ any_of es
should_only nil h = absurd (omega arith)
should_only (cons e es) h = refl

-- The must clauses of a bool query, if they are two or more and its only clauses, become the same expression as the
-- same queries in its should clauses, errors included: what must hold together is planned as alternatives.
pub convert-must_should :
    (m : Queries) (n k : ℕ) (s t : String)
    → 2 ≤ count m
    → convert (bool_query m Dsl.nil Dsl.nil Dsl.nil n s)
      ≡ convert (bool_query Dsl.nil m Dsl.nil Dsl.nil k t)
unfolding convert bool_condition
convert-must_should m n k s t many = elim (Option-cases (convert_all m)) [
  | inl bad ↦ rw bad refl
  | inr (es, is) ↦
      let long : 2 ≤ size es = omega (arith, convert_all-size m es is) in
      rw (is, append-nil es, combined-any_of es long, should_only es long) refl
]

module _ (same : Json → Option Value → Option Bool) (doc : Fields) where
  evaluate-any_of : (es : Conditions) → evaluate same doc (any_of es) ≡ evaluate_any same doc es
  unfolding evaluate
  evaluate-any_of nil = refl
  evaluate-any_of (cons e es) = refl

  -- On the coordination node a bool query of two or more must clauses, and no others, accepts a row as soon as one
  -- of its clauses does, the earlier ones having been found false: the clauses are evaluated in turn up to the first true one.
  pub evaluate-must :
      (m : Queries) (es : Conditions) (e : Condition) (n : ℕ) (s : String)
      → 2 ≤ count m
      → convert_all m ≡ some es
      → convert (bool_query m Dsl.nil Dsl.nil Dsl.nil n s) ≡ some e
      → evaluate same doc e ≡ evaluate_any same doc es
  unfolding convert bool_condition
  evaluate-must m es e n s many is made =
      let long : 2 ≤ size es = omega (arith, convert_all-size m es is) in
      let computed : convert (bool_query m Dsl.nil Dsl.nil Dsl.nil n s) ≡ some (any_of es) =
        rw (is, append-nil es, combined-any_of es long) refl in
      rw (← some-injective (any_of es) e (sym computed ∙ made)) (evaluate-any_of es)

  or_else-false : (b : Option Bool) → or_else b (some false) ≡ b
  or_else-false none = refl
  or_else-false (some true) = refl
  or_else-false (some false) = refl

  -- The condition that the optimizer makes of two filters accepts a row that either of them accepts.
  pub combine_filters-evaluate :
      (f c e : Condition)
      → combine_filters (some f) (some c) ≡ some e
      → evaluate same doc e ≡ or_else (evaluate same doc f) (evaluate same doc c)
  unfolding combine_filters evaluate
  combine_filters-evaluate f c e made =
      rw (← some-injective (any_of (cons f (cons c nil))) e made)
        (ap (or_else (evaluate same doc f)) (or_else-false (evaluate same doc c)))

-- ===== src/Planner/Sent.antt =====
-- The query that reaches the data nodes: converted by pkg/coordination/planner/converter.go, written by
-- execution.go, and read with pkg/coordination/parser/parser.go.
use quidditch.Common.{ℕ, ◌≤◌, ◌≡◌, refl, ◌∙◌, String, none, some, arith}
use quidditch.Common.Results.{ok}
use quidditch.Json.{Json, null, bool, num, str, arr, obj, get}
use quidditch.Expression.Parser.{Numbers}
use quidditch.Query.Ast as Dsl
use quidditch.Query.Ast.{
  Query, match, match_phrase, multi_match, query_string, term, terms, range, exists, prefix,
  wildcard, fuzzy, bool_query, match_all, expression, wasm_udf, Queries,
}
use quidditch.Query.Leaf.{
  match_value, term_value, prefix_value, wildcard_value, exists_body, match_all_body, parse_leaf,
}
use quidditch.Query.Parser.{clause_list, bool_of, parse_query_value, query_items}
use quidditch.Query.Meaning.{count}
use quidditch.Planner.Plan as Logical
use quidditch.Planner.Plan.{nil, cons}
use quidditch.Planner.Values.{value_of, text, Condition, Conditions}
use quidditch.Planner.Convert.{leaf, any_of, negated, bool_condition, convert, convert_all}
use quidditch.Planner.Conversion.{convert-must_should}
use quidditch.Planner.Execution.{to_map, to_maps}

-- A scalar, which a term query may give in short.
abbrev IsScalar : Json → Type 0
IsScalar (obj fs) = ⊥
IsScalar _ = Unit

-- Queries without the options that expressions have no place for, with should clauses only in bool queries, or one
-- must_not clause.
abbrev mutual
  pub IsPlain : Query → Type 0
  IsPlain (match f q op b a) = (op ≡ "") × (b ≡ 0) × (a ≡ "")
  IsPlain (term f v b) = IsScalar v × (b ≡ 0)
  IsPlain (exists f) = Unit
  IsPlain (prefix f v) = Unit
  IsPlain (wildcard f v) = Unit
  IsPlain (match_all b) = b ≡ 0
  IsPlain (bool_query Dsl.nil (Dsl.cons q qs) Dsl.nil Dsl.nil n s) =
      IsPlain q × ArePlain qs × (n ≡ 0) × (s ≡ "")
  IsPlain (bool_query Dsl.nil Dsl.nil (Dsl.cons q Dsl.nil) Dsl.nil n s) =
      IsPlain q × (n ≡ 0) × (s ≡ "")
  IsPlain _ = ⊥

  pub ArePlain : Queries → Type 0
  ArePlain Dsl.nil = Unit
  ArePlain (Dsl.cons q qs) = IsPlain q × ArePlain qs

module _ (nb : Numbers) (of_int : ℕ → Json) where
  -- The query that is read is the one that was converted.
  abbrev Arrives : Query → Type 0
  Arrives q =
      (e : Condition) × (convert q ≡ some e) × (parse_query_value nb (to_map of_int e) ≡ ok q)

  abbrev AllArrive : Queries → Type 0
  AllArrive qs =
      (es : Conditions) × (convert_all qs ≡ some es) × (query_items nb (to_maps of_int es) ≡ ok qs)

  term-Arrives : (f : String) (v : Json) → IsScalar v → Arrives (term f v 0)
  unfolding convert to_map parse_query_value parse_leaf term_value
  term-Arrives f null h = (leaf Logical.term f (value_of null), refl, refl)
  term-Arrives f (bool b) h = (leaf Logical.term f (value_of (bool b)), refl, refl)
  term-Arrives f (num n) h = (leaf Logical.term f (value_of (num n)), refl, refl)
  term-Arrives f (str s) h = (leaf Logical.term f (value_of (str s)), refl, refl)
  term-Arrives f (arr xs) h = (leaf Logical.term f (value_of (arr xs)), refl, refl)
  term-Arrives f (obj fs) h = absurd h

  match-Arrives : (f q : String) → Arrives (match f q "" 0 "")
  unfolding convert to_map parse_query_value parse_leaf match_value
  match-Arrives f q = (leaf Logical.match f (text q), refl, refl)

  -- A bool query of should clauses, whose conditions are at least one.
  alternatives_sent :
      (qs : Queries) (e : Condition) (es : Conditions)
      → query_items nb (to_maps of_int (cons e es)) ≡ ok qs
      → parse_query_value nb (to_map of_int (any_of (cons e es)))
        ≡ ok (bool_query Dsl.nil qs Dsl.nil Dsl.nil 0 "")
  unfolding to_map parse_query_value get clause_list bool_of
  alternatives_sent qs e nil back = rw back refl
  alternatives_sent qs e (cons e' es) back = rw back refl

  mutual
    unfolding convert bool_condition to_map parse_query_value parse_leaf prefix_value wildcard_value
        exists_body match_all_body get clause_list bool_of

    arrives : (q : Query) → IsPlain q → Arrives q
    arrives (match f q op b a) (ho, hb, ha) = rw (ho, hb, ha) (match-Arrives f q)
    arrives (term f v b) (hv, hb) = rw hb (term-Arrives f v hv)
    arrives (exists f) h = (leaf Logical.exists f none, refl, refl)
    arrives (prefix f v) h = (leaf Logical.prefix f (text v), refl, refl)
    arrives (wildcard f v) h = (leaf Logical.wildcard f (text v), refl, refl)
    arrives (match_all b) hb = rw hb (leaf Logical.match_all "" none, refl, refl)
    arrives (bool_query Dsl.nil (Dsl.cons q qs) Dsl.nil Dsl.nil n s) (hq, hqs, hn, hs) =
        let (e, ie, be) = arrives q hq in
        let (es, ies, bes) = all_arrive qs hqs in
        rw (hn, hs)
          (
            any_of (cons e es),
            rw (ie, ies) refl,
            alternatives_sent (Dsl.cons q qs) e es (rw (be, bes) refl),
          )
    arrives (bool_query Dsl.nil Dsl.nil (Dsl.cons q Dsl.nil) Dsl.nil n s) (hq, hn, hs) =
        let (e, ie, be) = arrives q hq in rw (hn, hs) (negated e, rw ie refl, rw be refl)
    arrives _ h = absurd h

    all_arrive : (qs : Queries) → ArePlain qs → AllArrive qs
    all_arrive Dsl.nil h = (nil, refl, refl)
    all_arrive (Dsl.cons q qs) (hq, hqs) =
        let (e, ie, be) = arrives q hq in
        let (es, ies, bes) = all_arrive qs hqs in (cons e es, rw (ie, ies) refl, rw (be, bes) refl)

  -- A query of terms, matches, prefixes, wildcards and exists without options, and of bool queries, nested to any depth,
  -- that have should clauses only or one must_not clause, is converted, and what is sent of it is parsed as the query that
  -- was asked.
  pub convert-sent :
      (q : Query)
      → IsPlain q
      → (e : Condition) × (convert q ≡ some e) × (parse_query_value nb (to_map of_int e) ≡ ok q)
  convert-sent q h = arrives q h

  -- The same queries as must clauses, two or more of them and no others, are sent as should clauses: a conjunction
  -- becomes a disjunction.
  pub convert-sent_must :
      (m : Queries) (n : ℕ) (s : String)
      → ArePlain m
      → 2 ≤ count m
      → (e : Condition) × (convert (bool_query m Dsl.nil Dsl.nil Dsl.nil n s) ≡ some e)
        × (parse_query_value nb (to_map of_int e) ≡ ok (bool_query Dsl.nil m Dsl.nil Dsl.nil 0 ""))
  convert-sent_must Dsl.nil n s h many = absurd (omega arith)
  convert-sent_must (Dsl.cons q qs) n s (hq, hqs) many =
      let (e, is, back) =
        arrives (bool_query Dsl.nil (Dsl.cons q qs) Dsl.nil Dsl.nil 0 "") (hq, hqs, refl, refl) in
      (e, convert-must_should (Dsl.cons q qs) n 0 s "" many ∙ is, back)

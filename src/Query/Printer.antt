-- ===== src/Query/Printer.antt =====
-- A printer of the queries of pkg/coordination/parser/types.go in the query DSL, each option written out.
use quidditch.Common.{ℕ, ◌<◌, ◌≡◌, ◌⊎◌, String, List, [], ◌∷◌, str_eq, if◌then◌else◌}
use quidditch.Json.{Json, null, num, str, arr, obj, Items, stop, item, Fields, end, entry, single}
use quidditch.Query.Ast.{
  Query, match, match_phrase, multi_match, query_string, term, terms, range, exists, prefix,
  wildcard, fuzzy, bool_query, match_all, expression, wasm_udf, Queries, nil, cons,
}

abbrev pub names : List String → Items
names [] = stop
names (f ∷ fs) = item (str f) (names fs)

-- `{kind: {f: {...}}}` and `{kind: {...}}`
abbrev pub field_query : String → String → Fields → Json
field_query kind f fs = obj (single kind (obj (single f (obj fs))))

abbrev pub body_query : String → Fields → Json
body_query kind fs = obj (single kind (obj fs))

module _ (of_int : ℕ → ℕ) where
  abbrev pub print_min : ℕ → String → Json
  print_min n s = if str_eq s "" then num (of_int n) else str s

  unfoldable mutual
    pub print : Query → Json
    print (match f q op b a) = field_query "match" f (
        entry "query" (str q)
          (entry "operator" (str op) (entry "boost" (num b) (entry "analyzer" (str a) end))))
    print (match_phrase f q n) =
        field_query "match_phrase" f (entry "query" (str q) (entry "slop" (num (of_int n)) end))
    print (multi_match q fs t) =
        body_query "multi_match"
          (entry "query" (str q) (entry "fields" (arr (names fs)) (entry "type" (str t) end)))
    print (query_string q d fs) = body_query "query_string" (
        entry "query" (str q) (entry "default_field" (str d) (entry "fields" (arr (names fs)) end)))
    print (term f v b) = field_query "term" f (entry "value" v (entry "boost" (num b) end))
    print (terms f xs) = obj (single "terms" (obj (single f (arr xs))))
    print (range f gt gte lt lte b) = field_query "range" f (
        entry "gt" gt
          (entry "gte" gte (entry "lt" lt (entry "lte" lte (entry "boost" (num b) end)))))
    print (exists f) = body_query "exists" (entry "field" (str f) end)
    print (prefix f v) = field_query "prefix" f (entry "value" (str v) end)
    print (wildcard f v) = field_query "wildcard" f (entry "value" (str v) end)
    print (fuzzy f v z) =
        field_query "fuzzy" f (entry "value" (str v) (entry "fuzziness" (str z) end))
    print (bool_query m sh mn f n s) = body_query "bool" (
        entry "must" (arr (print_all m)) (
          entry "should" (arr (print_all sh)) (
            entry "must_not" (arr (print_all mn)) (
              entry "filter" (arr (print_all f))
                (entry "minimum_should_match" (print_min n s) end)))))
    print (match_all b) = body_query "match_all" (entry "boost" (num b) end)
    print (expression e b) = null
    print (wasm_udf n v ps) =
        body_query "wasm_udf"
          (entry "name" (str n) (entry "version" (str v) (entry "parameters" (obj ps) end)))

    pub print_all : Queries → Items
    print_all nil = stop
    print_all (cons q qs) = item (print q) (print_all qs)

-- Without expressions, with integers that a float64 has exactly, and with one form of the minimum at most.
abbrev mutual
  pub IsPrintable : Query → Type 0
  IsPrintable (match f q op b a) = Unit
  IsPrintable (match_phrase f q n) = n < 9007199254740992
  IsPrintable (multi_match q fs t) = Unit
  IsPrintable (query_string q d fs) = Unit
  IsPrintable (term f v b) = Unit
  IsPrintable (terms f xs) = Unit
  IsPrintable (range f gt gte lt lte b) = Unit
  IsPrintable (exists f) = Unit
  IsPrintable (prefix f v) = Unit
  IsPrintable (wildcard f v) = Unit
  IsPrintable (fuzzy f v z) = Unit
  IsPrintable (bool_query m sh mn f n s) =
      (n < 9007199254740992)
      × ((s ≡ "") ⊎ (n ≡ 0))
      × ArePrintable m
      × ArePrintable sh
      × ArePrintable mn
      × ArePrintable f
  IsPrintable (match_all b) = Unit
  IsPrintable (expression e b) = ⊥
  IsPrintable (wasm_udf n v ps) = Unit

  pub ArePrintable : Queries → Type 0
  ArePrintable nil = Unit
  ArePrintable (cons q qs) = IsPrintable q × ArePrintable qs

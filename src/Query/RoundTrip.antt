-- ===== src/Query/RoundTrip.antt =====
-- Parsing what is printed of a query, with pkg/coordination/parser/parser.go.
use quidditch.Common.{
  ℕ, ◌<◌, ◌≡◌, refl, sym, ap, ◌⊎◌, inl, inr, String, some, List, [], ◌∷◌, str_eq, Bool-cases,
  eq_iff, arith,
}
use quidditch.Common.Results.{ok}
use quidditch.Json.{get}
use quidditch.Expression.Parser.{Numbers}
use quidditch.Query.Ast.{
  Query, match, match_phrase, multi_match, query_string, term, terms, range, exists, prefix,
  wildcard, fuzzy, bool_query, match_all, expression, wasm_udf, Queries, nil, cons,
}
use quidditch.Query.Leaf.{
  match_value, phrase_value, term_value, terms_value, range_value, prefix_value, wildcard_value,
  fuzzy_value, field_names, multi_match_body, query_string_body, exists_body, match_all_body,
  wasm_parameters, wasm_udf_body, parse_leaf,
}
use quidditch.Query.Parser.{
  min_number, min_text, clause_list, bool_of, parse_query_value, query_items,
}
use quidditch.Query.Printer.{names, print_min, print, print_all, IsPrintable, ArePrintable}

field_names-names : (fs : List String) → field_names (names fs) ≡ fs
unfolding field_names
field_names-names [] = refl
field_names-names (f ∷ fs) = ap (λ t. f ∷ t) (field_names-names fs)

module _ (nb : Numbers) (of_int : ℕ → ℕ)
    (exact : (n : ℕ) → n < 9007199254740992 → nb.to_int (of_int n) ≡ n) where
  min_number-print :
      (n : ℕ) (s : String)
      → n < 9007199254740992
      → (s ≡ "") ⊎ (n ≡ 0)
      → min_number nb (some (print_min of_int n s)) ≡ n
  min_number-print n s small one = elim (Bool-cases (str_eq s "")) [
    | inl no_text ↦ rw no_text (exact n small)
    | inr text ↦ elim one [ inl e ↦ absurd (ground (arith, eq_iff s "")) | inr e ↦ rw text (sym e) ]
  ]

  min_text-print : (n : ℕ) (s : String) → min_text (some (print_min of_int n s)) ≡ s
  min_text-print n s = elim (Bool-cases (str_eq s "")) [
    | inl no_text ↦ rw no_text (sym ((eq_iff s "").0 no_text))
    | inr text ↦ rw text refl
  ]

  mutual
    unfolding parse_query_value parse_leaf print get match_value phrase_value term_value terms_value
        range_value prefix_value wildcard_value fuzzy_value multi_match_body query_string_body
        exists_body match_all_body wasm_parameters wasm_udf_body bool_of clause_list

    print_back : (q : Query) → IsPrintable q → parse_query_value nb (print of_int q) ≡ ok q
    print_back (match f q op b a) h = refl
    print_back (match_phrase f q n) h = rw (exact n h) refl
    print_back (multi_match q fs t) h = rw (field_names-names fs) refl
    print_back (query_string q d fs) h = rw (field_names-names fs) refl
    print_back (term f v b) h = refl
    print_back (terms f xs) h = refl
    print_back (range f gt gte lt lte b) h = refl
    print_back (exists f) h = refl
    print_back (prefix f v) h = refl
    print_back (wildcard f v) h = refl
    print_back (fuzzy f v z) h = refl
    print_back (bool_query m sh mn f n s) (small, one, hm, hsh, hmn, hf) =
        rw
          (
            all_back m hm,
            all_back sh hsh,
            all_back mn hmn,
            all_back f hf,
            min_number-print n s small one,
            min_text-print n s,
          )
          refl
    print_back (match_all b) h = refl
    print_back (expression e b) h = absurd h
    print_back (wasm_udf n v ps) h = refl

    all_back : (qs : Queries) → ArePrintable qs → query_items nb (print_all of_int qs) ≡ ok qs
    all_back nil h = refl
    all_back (cons q qs) (hq, hqs) = rw (print_back q hq, all_back qs hqs) refl

  -- Parsing what is printed of a query, bool queries of any depth included, gives the query: every query without an
  -- expression can be written, if its integers are below 2 ^ 53, which the conversions from and to float64 keep, and
  -- it has not both a number and a text as its minimum_should_match.
  pub parse_query-print : (q : Query) → IsPrintable q → parse_query_value nb (print of_int q) ≡ ok q
  parse_query-print q h = print_back q h

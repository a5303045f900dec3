-- ===== src/Query/Meaning.antt =====
-- What bool queries match, as OpenSearch documents it, before and after `SimplifyBoolQuery` of
-- pkg/coordination/parser/types.go.
use quidditch.Common.{
  ℕ, suc, ◌≡◌, refl, ap, ◌∙◌, String, Bool, true, false, str_eq, ltb, leb, ◌&&◌, not, if◌then◌else◌,
  arith,
}
use quidditch.Query.Ast.{
  Query, match, match_phrase, multi_match, query_string, term, terms, range, exists, prefix,
  wildcard, fuzzy, bool_query, match_all, expression, wasm_udf, Queries, nil, cons,
}
use quidditch.Query.Checks.{is_nil}
use quidditch.Query.Simplify.{Simplified, ◌+++◌, flatten_one, flatten, simplify}

abbrev pub count : Queries → ℕ
count nil = 0
count (cons q qs) = suc (count qs)

-- On one document: which queries other than bool queries match it, and what a minimum given as a text demands of
-- so many should clauses.
module _ (leaf : Query → Bool) (text_min : String → ℕ → ℕ) where
  -- The number of should clauses that must match: one by default, if nothing else has to match.
  abbrev pub needed : Queries → Queries → Queries → ℕ → String → ℕ
  needed m f sh n s =
      if str_eq s ""
      then (if ltb 0 n then n else if is_nil m && is_nil f && not (is_nil sh) then 1 else 0)
      else text_min s (count sh)

  unfoldable mutual
    pub holds : Query → Bool
    holds (bool_query m sh mn f n s) =
        all_hold m && (all_hold f && (none_hold mn && leb (needed m f sh n s) (count_true sh)))
    holds (match f q op b a) = leaf (match f q op b a)
    holds (match_phrase f q n) = leaf (match_phrase f q n)
    holds (multi_match q fs t) = leaf (multi_match q fs t)
    holds (query_string q d fs) = leaf (query_string q d fs)
    holds (term f v b) = leaf (term f v b)
    holds (terms f xs) = leaf (terms f xs)
    holds (range f gt gte lt lte b) = leaf (range f gt gte lt lte b)
    holds (exists f) = leaf (exists f)
    holds (prefix f v) = leaf (prefix f v)
    holds (wildcard f v) = leaf (wildcard f v)
    holds (fuzzy f v z) = leaf (fuzzy f v z)
    holds (match_all b) = leaf (match_all b)
    holds (expression e b) = leaf (expression e b)
    holds (wasm_udf n v ps) = leaf (wasm_udf n v ps)

    pub all_hold : Queries → Bool
    all_hold nil = true
    all_hold (cons q qs) = holds q && all_hold qs

    pub none_hold : Queries → Bool
    none_hold nil = true
    none_hold (cons q qs) = not (holds q) && none_hold qs

    pub count_true : Queries → ℕ
    count_true nil = 0
    count_true (cons q qs) = let rest = count_true qs in if holds q then suc rest else rest

  all_hold-append : (ps qs : Queries) → all_hold (ps +++ qs) ≡ (all_hold ps && all_hold qs)
  unfolding holds
  all_hold-append nil qs = refl
  all_hold-append (cons p ps) qs = ground (arith, all_hold-append ps qs)

-- A bool query without should clauses has must clauses only.
abbrev HasMustOnly : Query → Type 0
HasMustOnly (bool_query m nil mn f n s) =
    (is_nil m ≡ false) × (is_nil mn ≡ true) × (is_nil f ≡ true) × (n ≡ 0) × (s ≡ "")
HasMustOnly _ = Unit

abbrev pub AllHaveMustOnly : Queries → Type 0
AllHaveMustOnly nil = Unit
AllHaveMustOnly (cons q qs) = HasMustOnly q × AllHaveMustOnly qs

module _ (leaf : Query → Bool) (text_min : String → ℕ → ℕ) where
  -- Without should clauses and with no minimum, none has to match.
  needed-zero : (m f : Queries) → needed leaf text_min m f nil 0 "" ≡ 0
  needed-zero m f = ground arith

  must_only :
      (m mn f rest : Queries) (n : ℕ) (s : String)
      → is_nil mn ≡ true
      → is_nil f ≡ true
      → n ≡ 0
      → s ≡ ""
      → all_hold leaf text_min (m +++ rest)
        ≡ (holds leaf text_min (bool_query m nil mn f n s) && all_hold leaf text_min rest)
  unfolding holds
  must_only m nil nil rest n s hm hf hn hs =
      let free : needed leaf text_min m nil nil n s ≡ 0 = rw (hn, hs) (needed-zero m nil) in
      rw free (all_hold-append leaf text_min m rest ∙ ground arith)
  must_only m nil (cons q qs) rest n s hm hf hn hs = absurd (cc)
  must_only m (cons q qs) f rest n s hm hf hn hs = absurd (cc)

  flatten_one-holds :
      (q : Query) (rest : Simplified)
      → HasMustOnly q
      → all_hold leaf text_min (flatten_one q rest).must
        ≡ (holds leaf text_min q && all_hold leaf text_min rest.must)
  unfolding holds
  flatten_one-holds (bool_query m nil mn f n s) rest (_, hm, hf, hn, hs) =
      must_only m mn f rest.must n s hm hf hn hs
  flatten_one-holds (bool_query m (cons q qs) mn f n s) rest h = refl
  flatten_one-holds (match f q op b a) rest h = refl
  flatten_one-holds (match_phrase f q n) rest h = refl
  flatten_one-holds (multi_match q fs t) rest h = refl
  flatten_one-holds (query_string q d fs) rest h = refl
  flatten_one-holds (term f v b) rest h = refl
  flatten_one-holds (terms f xs) rest h = refl
  flatten_one-holds (range f gt gte lt lte b) rest h = refl
  flatten_one-holds (exists f) rest h = refl
  flatten_one-holds (prefix f v) rest h = refl
  flatten_one-holds (wildcard f v) rest h = refl
  flatten_one-holds (fuzzy f v z) rest h = refl
  flatten_one-holds (match_all b) rest h = refl
  flatten_one-holds (expression e b) rest h = refl
  flatten_one-holds (wasm_udf n v ps) rest h = refl

  flatten-holds :
      (m : Queries)
      → AllHaveMustOnly m
      → all_hold leaf text_min (flatten m).must ≡ all_hold leaf text_min m
  unfolding holds flatten
  flatten-holds nil h = refl
  flatten-holds (cons q qs) (hq, hqs) =
      flatten_one-holds q (flatten qs) hq
      ∙ ap (λ b. holds leaf text_min q && b) (flatten-holds qs hqs)

is_nil-append : (ps qs : Queries) → is_nil ps ≡ false → is_nil (ps +++ qs) ≡ false
is_nil-append nil qs h = absurd (cc)
is_nil-append (cons p ps) qs h = refl

is_nil-flatten_one :
    (q : Query) (rest : Simplified) → HasMustOnly q → is_nil (flatten_one q rest).must ≡ false
is_nil-flatten_one (bool_query m nil mn f n s) rest (hm, _, _, _, _) = is_nil-append m rest.must hm
is_nil-flatten_one (bool_query m (cons q qs) mn f n s) rest h = refl
is_nil-flatten_one _ rest h = refl

is_nil-flatten : (m : Queries) → AllHaveMustOnly m → is_nil (flatten m).must ≡ is_nil m
unfolding flatten
is_nil-flatten nil h = refl
is_nil-flatten (cons q qs) (hq, _) = is_nil-flatten_one q (flatten qs) hq

-- Where every must clause that is a bool query without should clauses has must clauses only, the simplified query
-- matches the same documents.
pub simplify-holds :
    (leaf : Query → Bool) (text_min : String → ℕ → ℕ) (m sh mn f : Queries) (n : ℕ) (s : String)
    → AllHaveMustOnly m
    → holds leaf text_min (simplify m sh mn f n s) ≡ holds leaf text_min (bool_query m sh mn f n s)
unfolding holds simplify
simplify-holds leaf text_min m sh mn f n s h =
    rw (flatten-holds leaf text_min m h, is_nil-flatten m h) refl

-- A bool query in the must clauses loses its must_not and filter clauses: the simplified query matches every document
-- that its must clauses match, while the query itself also asks for its filters and against its must_nots.
pub simplify-drops :
    (leaf : Query → Bool) (text_min : String → ℕ → ℕ) (m mn f : Queries)
    → (holds leaf text_min (simplify (cons (bool_query m nil mn f 0 "") nil) nil nil nil 0 "")
        ≡ all_hold leaf text_min m)
      × (holds leaf text_min (bool_query (cons (bool_query m nil mn f 0 "") nil) nil nil nil 0 "")
          ≡ (all_hold leaf text_min m && (all_hold leaf text_min f && none_hold leaf text_min mn)))
unfolding holds simplify flatten
simplify-drops leaf text_min m mn f =
    (ground (arith, all_hold-append leaf text_min m nil), ground arith)

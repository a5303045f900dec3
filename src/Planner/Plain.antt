-- ===== src/Planner/Plain.antt =====
-- Plans with few nodes that the rules of pkg/coordination/planner/optimizer.go combine, as
-- `ConvertSearchRequest` of converter.go makes them.
use quidditch.Common.{
  ℕ, ◌+◌, ◌≤◌, ◌≡◌, ◌⊎◌, inl, inr, refl, String, Option, none, some, List, [], ◌∷◌, arith,
  Option-cases, Bool-cases, ◌||◌, lt64,
}
use quidditch.Common.Results.{Gives, >>=-Gives, Result-cases}
use quidditch.Json.{Json, Fields, end, entry}
use quidditch.Query.Ast.{Query, SearchRequest}
use quidditch.Planner.Plan.{
  Expr, Plan, scan, filter, project, aggregate, sort, limit, top_n, SortField,
}
use quidditch.Planner.Values.{Value}
use quidditch.Planner.Convert.{convert}
use quidditch.Planner.Request.{
  scan_of, requested, add_aggregations, add_source, add_sort, add_limit, convert_aggregations,
  convert_entries, source_fields, sort_fields, convert_search_request,
}

module _ {V : Type 0} where
  abbrev count_some : Option (Expr V) → ℕ
  count_some none = 0
  count_some (some c) = 1

  -- The nodes of a plan that are filters.
  abbrev pub filters : Plan V → ℕ
  filters (scan i s f r) = 0
  filters (filter c p r) = filters p + 1
  filters (project fs p s) = filters p
  filters (aggregate g a p s) = filters p
  filters (sort fs p) = filters p
  filters (limit o n p) = filters p
  filters (top_n n o fs p) = filters p

  -- Its conditions, in filters and in the scan.
  abbrev pub conditions : Plan V → ℕ
  conditions (scan i s f r) = count_some f
  conditions (filter c p r) = conditions p + count_some c
  conditions (project fs p s) = conditions p
  conditions (aggregate g a p s) = conditions p
  conditions (sort fs p) = conditions p
  conditions (limit o n p) = conditions p
  conditions (top_n n o fs p) = conditions p

  abbrev pub projections : Plan V → ℕ
  projections (scan i s f r) = 0
  projections (filter c p r) = projections p
  projections (project fs p s) = projections p + 1
  projections (aggregate g a p s) = projections p
  projections (sort fs p) = projections p
  projections (limit o n p) = projections p
  projections (top_n n o fs p) = projections p

  abbrev pub aggregates : Plan V → ℕ
  aggregates (scan i s f r) = 0
  aggregates (filter c p r) = aggregates p
  aggregates (project fs p s) = aggregates p
  aggregates (aggregate g a p s) = aggregates p + 1
  aggregates (sort fs p) = aggregates p
  aggregates (limit o n p) = aggregates p
  aggregates (top_n n o fs p) = aggregates p

  -- One condition and one projection at most, and not both filters and aggregates.
  abbrev pub IsPlain : Plan V → Type 0
  IsPlain p = (conditions p ≤ 1) × (projections p ≤ 1) × ((filters p ≡ 0) ⊎ (aggregates p ≡ 0))

  -- No part of the second plan is in more nodes than in the first.
  abbrev pub IsNoLarger : Plan V → Plan V → Type 0
  IsNoLarger p q =
      (filters q ≤ filters p)
      × (conditions q ≤ conditions p)
      × (projections q ≤ projections p)
      × (aggregates q ≤ aggregates p)

  pub later-IsPlain : (p q : Plan V) → IsNoLarger p q → IsPlain p → IsPlain q
  later-IsPlain p q (f, c, j, a) (few, once, inl e) =
      (omega (arith, c, few), omega (arith, j, once), inl (omega (arith, f, e)))
  later-IsPlain p q (f, c, j, a) (few, once, inr e) =
      (omega (arith, c, few), omega (arith, j, once), inr (omega (arith, a, e)))

-- No filter, one condition at most, and no more projections than given.
abbrev IsStacked : ℕ → Plan Value → Type 0
IsStacked n p = (filters p ≡ 0) × (conditions p ≤ 1) × (projections p ≤ n)

scan_of-IsStacked :
    (estimate : Query → ℕ) (rows : ℕ) (q : Option Query) (index : String) (shards : List ℕ)
    → Gives (IsStacked 0) (scan_of estimate rows q index shards)
scan_of-IsStacked estimate rows none index shards = (refl, omega arith, omega arith)
scan_of-IsStacked estimate rows (some q) index shards = elim (Option-cases (convert q)) [
  | inl failed ↦ rw (failed, Gives) tt
  | inr (c, is) ↦ rw (is, Gives) (refl, omega arith, omega arith)
]

convert_aggregations-IsStacked :
    (to_int : ℕ → ℕ) (fs : Fields) (p : Plan Value)
    → IsStacked 0 p
    → Gives (IsStacked 0) (convert_aggregations to_int fs p)
convert_aggregations-IsStacked to_int fs p h = elim (Result-cases (convert_entries to_int fs)) [
  | inr (e, is) ↦ rw is tt
  | inl ([], is) ↦ rw is tt
  | inl (a ∷ more, is) ↦ rw is h
]

add_aggregations-IsStacked :
    (to_int : ℕ → ℕ) (fs : Option Fields) (p : Plan Value)
    → IsStacked 0 p
    → Gives (IsStacked 0) (add_aggregations to_int fs p)
add_aggregations-IsStacked to_int none p h = h
add_aggregations-IsStacked to_int (some end) p h = h
add_aggregations-IsStacked to_int (some (entry n d rest)) p h =
    convert_aggregations-IsStacked to_int (entry n d rest) p h

add_source-IsStacked :
    (s : Option Json) (p : Plan Value) → IsStacked 0 p → Gives (IsStacked 1) (add_source s p)
add_source-IsStacked none p (f, c, j) = (f, c, omega (arith, j))
add_source-IsStacked (some s) p (f, c, j) = elim (Result-cases (source_fields s)) [
  | inr (e, is) ↦ rw is tt
  | inl ([], is) ↦ rw is (f, c, omega (arith, j))
  | inl (n ∷ more, is) ↦ rw is (f, c, omega (arith, j))
]

add_sort-IsStacked :
    (lower : String → String) (ss : List Fields) (p : Plan Value)
    → IsStacked 1 p
    → Gives (IsStacked 1) (add_sort lower ss p)
add_sort-IsStacked lower [] p h = h
add_sort-IsStacked lower (s ∷ ss) p h = elim (List-cases (sort_fields lower (s ∷ ss))) [
  | inl is ↦ rw (is, Gives) tt
  | inr (f, fs, is) ↦ rw (is, Gives) h
]
  where
    List-cases :
        (l : List SortField) → (l ≡ []) ⊎ ((f : SortField) × (fs : List SortField) × (l ≡ f ∷ fs))
    List-cases [] = inl refl
    List-cases (f ∷ fs) = inr (f, fs, refl)

add_limit-IsPlain :
    (size from : ℕ) (p : Plan Value) → IsStacked 1 p → IsPlain (add_limit size from p)
add_limit-IsPlain size from p (f, c, j) = elim (Bool-cases (lt64 0 size || lt64 0 from)) [
  | inl paged ↦ rw paged (c, j, inl f)
  | inr whole ↦ rw whole (c, j, inl f)
]

-- `ConvertSearchRequest` makes plans with one condition and one projection at most, and no filters.
pub convert_search_request-IsPlain :
    (estimate : Query → ℕ) (lower : String → String) (to_int : ℕ → ℕ) (default_cardinality : ℕ)
    (r : SearchRequest) (index : String) (shards : List ℕ)
    → Gives IsPlain
        (convert_search_request estimate lower to_int default_cardinality r index shards)
unfolding convert_search_request
convert_search_request-IsPlain estimate lower to_int cardinality r index shards =
    >>=-Gives (IsStacked 0) IsPlain _ _
      (scan_of-IsStacked estimate cardinality r.parsed_query index shards)
      (λ p h.
        >>=-Gives (IsStacked 0) IsPlain _ _ (add_aggregations-IsStacked to_int (requested r) p h)
          (λ q k. >>=-Gives (IsStacked 1) IsPlain _ _ (add_source-IsStacked r.source q k) (λ s l.
            >>=-Gives (IsStacked 1) IsPlain _ _ (add_sort-IsStacked lower r.sort s l)
              (λ t m. add_limit-IsPlain r.size r.from t m))))

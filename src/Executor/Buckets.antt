-- ===== src/Executor/Buckets.antt =====
-- The counts of the buckets that pkg/coordination/executor/aggregator.go merges.
use mathlib.Core.List.{foldr, Perm}
use mathlib.Core.List.Perm
use mathlib.Core.Path.{subst}
use native.Mathlib.Nat.{ℕ_set}
use quidditch.Common.{
  ℕ, ◌+◌, ◌%◌, ◌^◌, ◌<◌, ◌≡◌, refl, ap, ◌∙◌, String, false, none, List, [], ◌∷◌, map, str_eq,
  str_dec, ◌||◌, if◌then◌else◌, arith, Map, lookup, insert, lookup-insert, add64, eq_iff,
}
use quidditch.Executor.Answers.{Floats, Bucket, Aggregation}
use quidditch.Executor.Merge.{count_of, count_buckets, count_all, bucket_of, merge_buckets}
use quidditch.Allocation.Balance.{HasDistinctKeys, insert-HasDistinctKeys}

-- The documents that a bucket counts under a key, and that a list of buckets and the shards count.
abbrev counted : String → Bucket → ℕ
counted k b = if str_eq b.key k then b.doc_count else 0

abbrev pub docs_under : String → List Bucket → ℕ
docs_under k = foldr (λ b n. counted k b + n) 0

abbrev pub docs_of_shards : String → List Aggregation → ℕ
docs_of_shards k [] = 0
docs_of_shards k (a ∷ as_) = docs_under k a.buckets + docs_of_shards k as_

docs_under-perm :
    (k : String) (xs ys : List Bucket) → Perm xs ys → docs_under k xs ≡ docs_under k ys
docs_under-perm k xs ys p = Perm.foldr-eq ℕ_set (λ b n. counted k b + n) (λ a b n. omega arith) p 0

count_one :
    (k : String) (b : Bucket) (m : Map ℕ)
    → count_of (lookup k m) < 2 ^ 64
    → count_of (lookup k (insert b.key (add64 (count_of (lookup b.key m)) b.doc_count) m))
      ≡ (count_of (lookup k m) + counted k b) % 2 ^ 64
count_one k b m small = elim (str_dec b.key k) [
  | yes same ↦ ground (
    arith,
    lookup-insert b.key k (add64 (count_of (lookup b.key m)) b.doc_count) m,
    eq_iff b.key k,
  )
  | no other ↦ ground (
    arith,
    lookup-insert b.key k (add64 (count_of (lookup b.key m)) b.doc_count) m,
    eq_iff b.key k,
  )
]

-- A count that is kept modulo 2 ^ 64.
count_buckets-lookup :
    (k : String) (bs : List Bucket) (m : Map ℕ)
    → count_of (lookup k m) < 2 ^ 64
    → count_of (lookup k (count_buckets bs m)) ≡ (count_of (lookup k m) + docs_under k bs) % 2 ^ 64
unfolding count_buckets
count_buckets-lookup k [] m small = omega arith
count_buckets-lookup k (b ∷ bs) m small =
    let m' = insert b.key (add64 (count_of (lookup b.key m)) b.doc_count) m in
    let one = count_one k b m small in
    omega (arith, one, count_buckets-lookup k bs m' (omega (arith, one)))

count_all-lookup :
    (k : String) (as_ : List Aggregation) (m : Map ℕ)
    → count_of (lookup k m) < 2 ^ 64
    → count_of (lookup k (count_all as_ m))
      ≡ (count_of (lookup k m) + docs_of_shards k as_) % 2 ^ 64
unfolding count_all
count_all-lookup k [] m small = omega arith
count_all-lookup k (a ∷ as_) m small =
    let one = count_buckets-lookup k a.buckets m small in
    omega (arith, one, count_all-lookup k as_ (count_buckets a.buckets m) (omega (arith, one)))

count_buckets-HasDistinctKeys :
    (bs : List Bucket) (m : Map ℕ) → HasDistinctKeys m → HasDistinctKeys (count_buckets bs m)
unfolding count_buckets
count_buckets-HasDistinctKeys [] m d = d
count_buckets-HasDistinctKeys (b ∷ bs) m d =
    count_buckets-HasDistinctKeys bs _
      (insert-HasDistinctKeys b.key (add64 (count_of (lookup b.key m)) b.doc_count) m d)

count_all-HasDistinctKeys :
    (as_ : List Aggregation) (m : Map ℕ) → HasDistinctKeys m → HasDistinctKeys (count_all as_ m)
unfolding count_all
count_all-HasDistinctKeys [] m d = d
count_all-HasDistinctKeys (a ∷ as_) m d =
    count_all-HasDistinctKeys as_ _ (count_buckets-HasDistinctKeys a.buckets m d)

-- A map with distinct keys, as buckets.
docs_under-map :
    (k : String) (m : Map ℕ)
    → HasDistinctKeys m
    → docs_under k (map bucket_of m) ≡ count_of (lookup k m)
unfolding lookup
docs_under-map k [] d = refl
docs_under-map k ((j, n) ∷ m) (new, d) = elim (str_dec j k) [
  | yes same ↦
      let absent : lookup k m ≡ none = subst (λ x. lookup x m ≡ none) same new in
      ground (arith, docs_under-map k m d, ap count_of absent, eq_iff j k)
  | no other ↦ ground (arith, docs_under-map k m d, eq_iff j k)
]

-- The merge of buckets with text keys, of terms and date histograms, counts under every key as many documents as the shards
-- together, modulo 2 ^ 64, if the sorting only rearranges the buckets.
pub merge_buckets-docs :
    (fl : Floats) (by_count by_key : List Bucket → List Bucket)
    → ((bs : List Bucket) → Perm (by_count bs) bs)
    → (k : String) (a : Aggregation) (as_ : List Aggregation)
    → (str_eq a.kind "range" || (str_eq a.kind "filters" || str_eq a.kind "histogram")) ≡ false
    → docs_under k (merge_buckets fl by_count by_key a as_).buckets
      ≡ docs_of_shards k (a ∷ as_) % 2 ^ 64
unfolding merge_buckets lookup
merge_buckets-docs fl by_count by_key rearranges k a as_ textual =
    let counts = count_all (a ∷ as_) [] in
    let plain : (merge_buckets fl by_count by_key a as_).buckets ≡ by_count (map bucket_of counts) =
      ground (arith, textual) in
    ap (docs_under k) plain
    ∙ docs_under-perm k (by_count (map bucket_of counts)) (map bucket_of counts)
        (rearranges (map bucket_of counts))
    ∙ docs_under-map k counts (count_all-HasDistinctKeys (a ∷ as_) [] tt)
    ∙ omega (arith, count_all-lookup k (a ∷ as_) [] (omega arith))

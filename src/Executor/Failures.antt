-- ===== src/Executor/Failures.antt =====
-- Shards without an allocation, and the sum of the counts, in pkg/coordination/executor/executor.go.
use mathlib.Core.List.{foldr, Perm}
use mathlib.Core.List.Perm
use native.Mathlib.Nat.{ℕ_set}
use quidditch.Common.{
  ℕ, ◌+◌, ◌%◌, ◌^◌, ◌<◌, ◌≡◌, refl, ap, Bool, true, false, Option, none, some, List, [], ◌∷◌,
  if◌then◌else◌, arith, ◌>>=◌, Map, lookup, add64,
}
use quidditch.Common.Results.{ok}
use quidditch.Executor.Answers.{Floats, Bucket, Hit, Response}
use quidditch.Executor.Merge.{count_of}
use quidditch.Executor.Search.{
  Client, Allocation, Routing, searches, counts, search_on, count_on, answered, sum64, usable,
  execute_count, execute_search, conclude,
}

-- Whether some shard of a routing has no allocation.
abbrev pub lacks_allocation : Routing → Bool
lacks_allocation [] = false
lacks_allocation ((sid, none) ∷ rs) = true
lacks_allocation ((sid, some a) ∷ rs) = lacks_allocation rs

-- The documents that the shards which are asked count; one that fails counts none.
abbrev docs_on : Map Client → ℕ → Option Allocation → ℕ
docs_on clients sid none = 0
docs_on clients sid (some a) =
    if usable a then count_of (count_on (lookup a.node_id clients) sid) else 0

abbrev pub docs_of_routing : Map Client → Routing → ℕ
docs_of_routing clients [] = 0
docs_of_routing clients ((sid, o) ∷ rs) = docs_on clients sid o + docs_of_routing clients rs

abbrev total : List (Option ℕ) → ℕ
total = foldr (λ o n. count_of o + n) 0

sum64-total :
    (xs : List (Option ℕ)) (n : ℕ) → n < 2 ^ 64 → sum64 (answered xs) n ≡ (n + total xs) % 2 ^ 64
unfolding sum64 answered
sum64-total [] n small = omega arith
sum64-total (none ∷ xs) n small = omega (arith, sum64-total xs n small)
sum64-total (some x ∷ xs) n small = omega (arith, sum64-total xs (add64 n x) (omega arith))

total-perm : (xs ys : List (Option ℕ)) → Perm xs ys → total xs ≡ total ys
total-perm xs ys p = Perm.foldr-eq ℕ_set (λ o n. count_of o + n) (λ a b n. omega arith) p 0

total-counts :
    (clients : Map Client) (rs : Routing) → total (counts clients rs) ≡ docs_of_routing clients rs
unfolding counts
total-counts clients [] = refl
total-counts clients ((sid, none) ∷ rs) = omega (arith, total-counts clients rs)
total-counts clients ((sid, some a) ∷ rs) = ground (arith, total-counts clients rs)

searches-none :
    (clients : Map Client) (rs : Routing) → lacks_allocation rs ≡ true → searches clients rs ≡ none
unfolding searches
searches-none clients [] h = ground (arith, h)
searches-none clients ((sid, none) ∷ rs) h = refl
searches-none clients ((sid, some a) ∷ rs) h =
    ap
      (λ o. o >>= λ rest.
        some (if usable a then search_on (lookup a.node_id clients) sid ∷ rest else rest))
      (searches-none clients rs h)

sum_of_counts :
    (clients : Map Client) (arrive : List (Option ℕ) → List (Option ℕ))
    → ((xs : List (Option ℕ)) → Perm (arrive xs) xs)
    → (rs : Routing)
    → sum64 (answered (arrive (counts clients rs))) 0 ≡ docs_of_routing clients rs % 2 ^ 64
sum_of_counts clients arrive order rs =
    let xs = counts clients rs in
    omega (
      arith,
      sum64-total (arrive xs) 0 (omega arith),
      total-perm (arrive xs) xs (order xs),
      total-counts clients rs,
    )

-- Where some shard of the routing has no allocation, a search panics, and a count of the same routing answers the sum, modulo
-- 2 ^ 64, of what the started shards count, whatever the order in which their answers arrive.
pub execute_search-panics :
    (fl : Floats) (by_score : List Hit → List Hit) (by_count by_key : List Bucket → List Bucket)
    (clients : Map Client) (arrive : List (Option Response) → List (Option Response))
    (arrive_count : List (Option ℕ) → List (Option ℕ))
    → ((xs : List (Option ℕ)) → Perm (arrive_count xs) xs)
    → (routing : Routing) (from size : ℕ) → lacks_allocation routing ≡ true
    → (execute_search fl by_score by_count by_key clients arrive (some routing) from size ≡ none)
      × (execute_count clients arrive_count (some routing)
          ≡ ok (docs_of_routing clients routing % 2 ^ 64))
unfolding execute_search execute_count
execute_search-panics fl by_score by_count by_key clients arrive arrive_count order [] from size
      lacks =
    ground (arith, lacks)
execute_search-panics fl by_score by_count by_key clients arrive arrive_count order (s ∷ routing)
      from size lacks =
    let rs = s ∷ routing in
    (
      ap
          (λ o. o >>= λ results.
            conclude fl by_score by_count by_key clients arrive (arrive results) from size)
          (searches-none clients rs lacks),
      ap ok (sum_of_counts clients arrive_count order rs),
    )

-- ===== src/Planner/Rows.antt =====
-- The operations on rows of pkg/coordination/planner/execution.go: limits and the order of rows.
use quidditch.Common.{
  ℕ, ◌+◌, ◌-◌, ◌≤◌, ◌<◌, ◌≡◌, ◌^◌, refl, sym, ap, ◌∙◌, inl, inr, Bool-cases, true, false, Option,
  none, some, List, [], length, ltb, leb, lt64, add64, ◌&&◌, not, if◌then◌else◌, arith,
}
use quidditch.Common.Slices.{
  take, drop, slice, drop_all, take_nil, take_more, length-drop, slice_in, slice_panics,
}

-- `if end > len(rows) { end = len(rows) }`
abbrev pub clamped : ℕ → ℕ → ℕ
clamped n end_at = if lt64 n end_at then n else end_at

module _ {A : Type 0} where
  -- `applyLimitToRows`
  unfoldable pub apply_limit : List A → ℕ → ℕ → Option (List A)
  apply_limit rows offset limit =
      if not (lt64 offset (length rows))
      then some []
      else (let past = add64 offset limit in slice rows offset (clamped (length rows) past))

  limit_past :
      (rows : List A) (offset limit : ℕ)
      → lt64 offset (length rows) ≡ false
      → apply_limit rows offset limit ≡ some []
  unfolding apply_limit
  limit_past rows offset limit h = rw h refl

  limit_slice :
      (rows : List A) (offset limit to : ℕ)
      → lt64 offset (length rows) ≡ true
      → clamped (length rows) (add64 offset limit) ≡ to
      → apply_limit rows offset limit ≡ slice rows offset to
  unfolding apply_limit
  limit_slice rows offset limit to h e = rw (h, e) refl

  limit_within :
      (rows : List A) (offset limit : ℕ)
      → offset < length rows
      → length rows < 2 ^ 63
      → offset + limit < 2 ^ 63
      → apply_limit rows offset limit ≡ some (take limit (drop offset rows))
  limit_within rows offset limit inside few sum =
      elim (Bool-cases (ltb (length rows) (offset + limit))) [
        | inl long ↦
            limit_slice rows offset limit (length rows) (ground arith) (ground arith)
            ∙ slice_in rows offset (length rows) (omega arith) (omega arith)
            ∙ ap some (
                take_more (length rows - offset) limit (drop offset rows)
                  (omega (arith, length-drop offset rows))
                  (ground (arith, length-drop offset rows)))
        | inr short ↦
            limit_slice rows offset limit (offset + limit) (ground arith) (ground arith)
            ∙ slice_in rows offset (offset + limit) (omega arith) (ground arith)
            ∙ ap (λ n. some (take n (drop offset rows))) (omega arith)
      ]

  limit_over :
      (rows : List A) (offset limit : ℕ)
      → offset < length rows
      → length rows < 2 ^ 63
      → limit < 2 ^ 63
      → 2 ^ 63 ≤ offset + limit
      → apply_limit rows offset limit ≡ none
  limit_over rows offset limit inside few b over =
      limit_slice rows offset limit (offset + limit) (ground arith) (ground arith)
      ∙ slice_panics rows offset (offset + limit) (omega arith)

  -- For an offset, a limit and a number of rows below 2 ^ 63: the rows after the offset, up to the limit of them, but for an
  -- offset within the rows that adds up with the limit to 2 ^ 63 or more, where the end overflows and the slice panics.
  pub apply_limit-take :
      (rows : List A) (offset limit : ℕ)
      → length rows < 2 ^ 63
      → offset < 2 ^ 63
      → limit < 2 ^ 63
      → apply_limit rows offset limit ≡ (
          if ltb offset (length rows) && leb (2 ^ 63) (offset + limit)
          then none
          else some (take limit (drop offset rows)))
  apply_limit-take rows offset limit few a b = elim (Bool-cases (ltb offset (length rows))) [
    | inl inside ↦ elim (Bool-cases (leb (2 ^ 63) (offset + limit))) [
      | inl over ↦
          rw (inside, over) (limit_over rows offset limit (ground arith) few b (ground arith))
      | inr sum ↦
          rw (inside, sum) (limit_within rows offset limit (ground arith) few (ground arith))
    ]
    | inr past ↦ rw past (
        limit_past rows offset limit (ground arith)
        ∙ rw (drop_all offset rows (ground arith)) (ap some (sym (take_nil limit))))
  ]

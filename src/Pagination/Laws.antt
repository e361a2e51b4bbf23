-- ===== src/Pagination/Laws.antt =====
-- The page size that a request carries.
use mcp_pipedrive.Query.{set, Query, values, values-set}
use mcp_pipedrive.Pagination.{
  add_v1_pagination, add_v2_pagination, effective_limit, limit_error, max_limit, normalize_limit,
  normalize_start,
}
use mcp_pipedrive.Prelude.{
  String, [], arith, if◌then◌else◌, refl, some, suc, true, zero, ℕ, ◌&&◌, ◌∷◌, ◌≡◌, ◌≤◌, Bool-cases,
  inl, inr, ltb, ◌⊎◌,
}
use mcp_pipedrive.Prelude.Int.{exceeds, format_int, is_positive, negsuc, pos, ℤ}
use mcp_pipedrive.Prelude.Text.{is_set, str_eq}
use mcp_pipedrive.Result.{err, ok}

-- A limit above 500 is refused with an error. Any other becomes a number from 1 to 500: the limit
-- itself if it is positive, and else 50.
pub normalize_limit_bounds :
    (limit : ℤ)
    → ((exceeds limit max_limit ≡ true) × (normalize_limit limit ≡ err limit_error))
      ⊎ ((n : ℕ) × ((normalize_limit limit ≡ ok (pos n))
            × (1 ≤ n)
            × (n ≤ 500)
            × (pos n ≡ (if is_positive limit then limit else pos 50))))
unfolding normalize_limit
normalize_limit_bounds (pos zero) = inr (50, (refl, omega arith, omega arith, refl))
normalize_limit_bounds (pos (suc n)) = elim (Bool-cases (ltb 500 (suc n))) [
  | inl h ↦ inl (ground arith)
  | inr h ↦ inr (suc n, (ground arith, omega arith, ground arith, ground arith))
]
normalize_limit_bounds (negsuc n) = inr (50, (refl, omega arith, omega arith, refl))

-- The v2 query after pagination: `limit` is the normalized limit, `cursor` is the cursor if there
-- is one and else what it was, and no other parameter changes.
values-add_v2_pagination :
    (q q' : Query) (limit n : ℤ) (cursor k : String)
    → normalize_limit limit ≡ ok n
    → add_v2_pagination q limit cursor ≡ ok q'
    → values k q' ≡ (
        if is_set cursor && str_eq "cursor" k
        then some (cursor ∷ [])
        else if str_eq "limit" k
        then some (format_int n ∷ [])
        else values k q)
unfolding add_v2_pagination
values-add_v2_pagination q q' limit n cursor k hn h = ground (
  arith,
  hn,
  values-set "limit" k (format_int n) q,
  values-set "cursor" k cursor (set "limit" (format_int n) q),
)

-- The v1 query after pagination: `start` is the offset, 0 if it was negative, `limit` is the
-- normalized limit, and no other parameter changes.
values-add_v1_pagination :
    (q q' : Query) (start limit n : ℤ) (k : String)
    → normalize_limit limit ≡ ok n
    → add_v1_pagination q start limit ≡ ok q'
    → values k q' ≡ (
        if str_eq "limit" k
        then some (format_int n ∷ [])
        else if str_eq "start" k
        then some (format_int (normalize_start start) ∷ [])
        else values k q)
unfolding add_v1_pagination
values-add_v1_pagination q q' start limit n k hn h = ground (
  arith,
  hn,
  values-set "start" k (format_int (normalize_start start)) q,
  values-set "limit" k (format_int n) (set "start" (format_int (normalize_start start)) q),
)

normalize_limit-effective_limit :
    (limit n : ℤ) → normalize_limit limit ≡ ok n → effective_limit limit ≡ n
unfolding normalize_limit effective_limit
normalize_limit-effective_limit (pos zero) n h = ground arith
normalize_limit-effective_limit (pos (suc k)) n h = ground arith
normalize_limit-effective_limit (negsuc k) n h = ground arith

-- the `limit` of a v2 query is the one that effectiveLimit gives
pub limit-add_v2_pagination :
    (q q' : Query) (limit : ℤ) (cursor : String)
    → add_v2_pagination q limit cursor ≡ ok q'
    → values "limit" q' ≡ some (format_int (effective_limit limit) ∷ [])
limit-add_v2_pagination q q' limit cursor h = elim (normalize_limit_bounds limit) [
  | inl (above, e) ↦ absurd (unfold add_v2_pagination in ground (arith, e, h))
  | inr (n, (e, low, high, same)) ↦ ground (
    arith,
    values-add_v2_pagination q q' limit (pos n) cursor "limit" e h,
    normalize_limit-effective_limit limit (pos n) e,
  )
]

-- ===== src/Pagination.antt =====
-- internal/pagination.go, with effectiveLimit of tools/deals.go.
pub mod Laws
mod Examples
use mcp_pipedrive.Query.{set, Query}
use mcp_pipedrive.Prelude.{Bool, String, if◌then◌else◌, ltb, not, true, ℕ}
use mcp_pipedrive.Prelude.Int.{exceeds, format_int, is_negative, is_positive, negsuc, pos, ℤ}
use mcp_pipedrive.Prelude.Text.{is_set}
use mcp_pipedrive.Result.{Error, Result, err, message, ok, ◌>>=◌}
use mcp_pipedrive.Value.{Fields, end, insert, int, str}

abbrev pub min_limit : ℕ
min_limit = 1

abbrev pub max_limit : ℕ
max_limit = 500

abbrev pub default_limit : ℕ
default_limit = 50

abbrev pub limit_error : Error
limit_error = message "limit must be between 1 and 500"

-- limit < MinLimit
abbrev below_min : ℤ → Bool
below_min (pos n) = ltb n min_limit
below_min (negsuc n) = true

unfoldable pub normalize_limit : ℤ → Result ℤ
normalize_limit limit =
    if not (is_positive limit)
    then ok (pos default_limit)
    else if exceeds limit max_limit
    then err limit_error
    else if below_min limit
    then ok (pos min_limit)
    else ok limit

unfoldable pub normalize_start : ℤ → ℤ
normalize_start start = if is_negative start then pos 0 else start

-- `limit` and an optional `cursor` for v2
unfoldable pub add_v2_pagination : Query → ℤ → String → Result Query
add_v2_pagination q limit cursor = do
  n ← normalize_limit limit
  let q' = set "limit" (format_int n) q
  ok (if is_set cursor then set "cursor" cursor q' else q')

-- `start` and `limit` for v1
unfoldable pub add_v1_pagination : Query → ℤ → ℤ → Result Query
add_v1_pagination q start limit = do
  n ← normalize_limit limit
  ok (set "limit" (format_int n) (set "start" (format_int (normalize_start start)) q))

unfoldable pub pagination_meta : ℤ → String → ℤ → Result Fields
pagination_meta limit cursor start = do
  n ← normalize_limit limit
  let meta = insert "limit" (int n) end
  ok (
      if is_set cursor
      then insert "cursor" (str cursor) meta
      else insert "start" (int (normalize_start start)) meta)

unfoldable pub effective_limit : ℤ → ℤ
effective_limit v =
    if not (is_positive v)
    then pos default_limit
    else if exceeds v max_limit
    then pos max_limit
    else v

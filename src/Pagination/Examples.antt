-- ===== src/Pagination/Examples.antt =====
-- The bounds of a limit at a small input.
use mcp_pipedrive.Pagination.{limit_error, max_limit, normalize_limit}
use mcp_pipedrive.Pagination.Laws.{normalize_limit_bounds}
use mcp_pipedrive.Prelude.{if◌then◌else◌, true, ℕ, ◌≡◌, ◌≤◌, ◌⊎◌}
use mcp_pipedrive.Prelude.Int.{exceeds, is_positive, pos}
use mcp_pipedrive.Result.{err, ok}

normalize_limit_bounds_example :
    ((exceeds (pos 500) max_limit ≡ true) × (normalize_limit (pos 500) ≡ err limit_error))
    ⊎ ((n : ℕ) × ((normalize_limit (pos 500) ≡ ok (pos n))
          × (1 ≤ n)
          × (n ≤ 500)
          × (pos n ≡ (if is_positive (pos 500) then pos 500 else pos 50))))
normalize_limit_bounds_example = normalize_limit_bounds (pos 500)

-- ===== src/Tools/Admin/Laws.antt =====
-- What the cache tools leave alone.
use mcp_pipedrive.Tools.Common.{Context, gated, on_verdict}
use mathlib.Core.Bool.{false≢true}
use mcp_pipedrive.Cache.{cache_stats}
use mcp_pipedrive.Client.Exchange.{Services, World}
use mcp_pipedrive.Guard.{DisabledResult, ensure_tool_allowed, guard_admin, guard_read}
use mcp_pipedrive.Guard.Laws.{ensure_tool_allowed_iff}
use mcp_pipedrive.Prelude.{Bool, Option, String, false, none, refl, some, sym, ℕ, ◌∙◌, ◌≡◌, ◌≢◌}
use mcp_pipedrive.Result.{Result, err, ok}
use mcp_pipedrive.Tools.Admin.{cache_clear_tool, cache_invalidate_tool, cache_stats_tool}
use mcp_pipedrive.Tools.Steps.{on_verdict-refused}

module _ {Db : Type 0} (services : Services Db) where
  not_admin :
      (ctx : Context) (name : String)
      → ctx.config.admin_tools_enabled ≡ false
      → ensure_tool_allowed ctx.config name guard_admin ≢ ok none
  not_admin ctx name off e =
      false≢true (sym off ∙ ((ensure_tool_allowed_iff ctx.config name guard_admin).0 e).1)

  -- Without PIPEDRIVE_ENABLE_ADMIN_TOOLS neither of the tools that empty the cache changes the
  -- world, and the tool that reports on it never does.
  pub cache_tools-refused :
      (ctx : Context) (w : World Db) (confirm : Bool) (prefix path : String) (file_size : Option ℕ)
      → ctx.config.admin_tools_enabled ≡ false
      → ((cache_clear_tool services ctx confirm w).0 ≡ w)
        × ((cache_invalidate_tool services ctx prefix w).0 ≡ w)
        × ((cache_stats_tool services ctx path file_size w).0 ≡ w)
  unfolding cache_clear_tool cache_invalidate_tool cache_stats_tool gated
  cache_tools-refused ctx w confirm prefix path file_size off = (
    on_verdict-refused _ _ w (not_admin ctx "pipedrive.cache.clear" off),
    on_verdict-refused _ _ w (not_admin ctx "pipedrive.cache.invalidate" off),
    reads (ensure_tool_allowed ctx.config "pipedrive.cache.stats" guard_read),
  )
    where
      reads :
          (verdict : Result (Option DisabledResult))
          → (on_verdict verdict
              (λ w. (w, ok (cache_stats services.bolt path file_size w.cache)))
              w).0
            ≡ w
      reads (err e) = unfold on_verdict in refl
      reads (ok (some flag)) = unfold on_verdict in refl
      reads (ok none) = unfold on_verdict in refl

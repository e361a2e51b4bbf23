-- ===== src/Tools/Resource/Requests.antt =====
-- What a read of a resource sends.
use mathlib.Core.List.{List, [], ◌∷◌}
use mcp_pipedrive.Client.{Client, ApiVersion, Request, new_request}
use mcp_pipedrive.Tools.Common.{
  Tool, Context, continue_with, request, get_cached, send_json, lift, gated, on_verdict,
  client_or_error, ◌>>=◌, ◌>>◌,
}
use mcp_pipedrive.Cache.{CacheMode}
use mcp_pipedrive.Client.Exchange.{Services, World}
use mcp_pipedrive.Client.Key.{cache_key}
use mcp_pipedrive.Client.Requests.{cached_get-sent, do_json_lem}
use mcp_pipedrive.Prelude.{Option, String, arith, length, none, suc, ◌≤◌, refl, some, true, ℕ, ◌≡◌}
use mcp_pipedrive.Prelude.Int.{ℤ}
use mcp_pipedrive.Query.{Query, empty}
use mcp_pipedrive.Result.{Result, err, ok}
use mcp_pipedrive.Tools.Resource.{
  cached_read, key_query, or_empty, Write, Written, invalidate_each, run_write, write_through,
}
use mcp_pipedrive.Client.Fetch.{invalidate_path, invalidate_prefix}
use mcp_pipedrive.Guard.{DisabledResult, ensure_tool_allowed}
use mcp_pipedrive.Value.{Value}

module _ {Db : Type 0} (services : Services Db) where
  get_cached-sent :
      (c : Client) (req : Request) (key : String) (ttl : ℤ) (mode : CacheMode) (w : World Db)
      → length (get_cached services c req key ttl mode w).0.sent ≤ suc (length w.sent)
  unfolding get_cached
  get_cached-sent c req key ttl mode w = cached_get-sent services c req key ttl mode w

  -- NewRequest and CachedGet send one request at most
  pub cached_read-sent :
      (c : Client) (v : ApiVersion) (path : String) (q : Option Query) (ttl : ℤ) (mode : CacheMode)
      (w : World Db)
      → length (cached_read services c v path q ttl mode w).0.sent ≤ suc (length w.sent)
  unfolding cached_read request
  cached_read-sent c v path q ttl mode w =
      by_request (new_request services.url_error c v "GET" path (or_empty q) none)
    where
      by_request :
          (made : Result (Request × Query))
          → length
              (continue_with
                (w, made)
                (λ req.
                  get_cached services c req.0
                    (cache_key services.sha256_hex services.marshal c v "GET" path
                      (key_query q req.1)
                      none)
                    ttl
                    mode)).0.sent
            ≤ suc (length w.sent)
      by_request (err e) = omega arith
      by_request (ok req) = get_cached-sent c req.0 _ ttl mode w

  abbrev Within : ℕ → World Db → Type 0
  Within n w = length w.sent ≤ n

  -- the steps of a handler, each within the same bound
  continue_with-Within :
      {A B : Type 0} (n : ℕ) (r : World Db × Result A) (f : A → Tool Db B)
      → Within n r.0
      → ((a : A) → Within n (f a r.0).0)
      → Within n (continue_with r f).0
  continue_with-Within n (w, err e) f start step = start
  continue_with-Within n (w, ok a) f start step = step a

  invalidate_each-sent :
      (c : Client) (paths : List (ApiVersion × String)) (w : World Db)
      → (invalidate_each services c paths w).sent ≡ w.sent
  unfolding invalidate_each invalidate_path invalidate_prefix
  invalidate_each-sent c [] w = refl
  invalidate_each-sent c ((v, path) ∷ rest) w =
      invalidate_each-sent c rest (invalidate_path services c v "GET" path w).0

  write_through-sent :
      (c : Client) (paths : List (ApiVersion × String)) (v : ApiVersion) (method path : String)
      (body : Option Value) (w : World Db)
      → Within (suc (length w.sent)) (write_through services c paths v method path body w).0
  unfolding write_through request send_json
  write_through-sent c paths v method path body w =
      continue_with-Within (suc (length w.sent))
        (w, new_request services.url_error c v method path empty body) _ (omega arith)
        (λ req.
          continue_with-Within (suc (length w.sent)) (send_json services c req.0 w) _
            (do_json_lem services c req.0 true w).1
            (λ payload.
              rw (invalidate_each-sent c paths (send_json services c req.0 w).0)
                (do_json_lem services c req.0 true w).1))

  -- a write sends one request at most
  pub run_write-sent :
      (ctx : Context) (wr : Write) (g : Value → Written) (w : World Db)
      → Within (suc (length w.sent)) (run_write services ctx wr g w).0
  unfolding run_write gated on_verdict
  run_write-sent ctx wr g w = by_verdict (ensure_tool_allowed ctx.config wr.tool_name wr.kind)
    where
      n : ℕ
      n = suc (length w.sent)

      send : Client → Tool Db Written
      send c =
          lift wr.body_checked
          >> (write_through services c wr.outdated wr.version wr.method wr.path wr.body >>= λ p.
              lift (ok (g p)))

      run : Tool Db Written
      run = lift wr.checked >> (lift (client_or_error ctx.client) >>= send)

      ran : Within n (run w).0
      ran =
          continue_with-Within n (w, wr.checked) _ (omega arith)
            (λ u.
              continue_with-Within n (w, client_or_error ctx.client) send (omega arith)
                (λ c.
                  continue_with-Within n (w, wr.body_checked) _ (omega arith)
                    (λ u'.
                      continue_with-Within n
                        (write_through services c wr.outdated wr.version wr.method wr.path wr.body
                          w)
                        _ (write_through-sent c wr.outdated wr.version wr.method wr.path wr.body w)
                        (λ p.
                          write_through-sent c wr.outdated wr.version wr.method wr.path wr.body
                            w))))

      by_verdict : (v : Result (Option DisabledResult)) → Within n (on_verdict v run w).0
      by_verdict (err e) = omega arith
      by_verdict (ok (some verdict)) = omega arith
      by_verdict (ok none) = continue_with-Within n (run w) _ ran (λ a. ran)

-- ===== src/Tools/Resource.antt =====
-- What most handlers of tools/ have in
-- common: a GET through the cache, the replies to it, a write that then drops cached answers, and
-- the pieces of a request body. The source repeats these lines in each handler.
mod Params
mod Replies
pub mod Forgetting
pub mod Requests
unfoldable pub use Params.*
pub use Replies.*
use mathlib.Core.List.{List, [], ◌∷◌}
use Prim.Native.String.{◌++◌}
use mcp_pipedrive.Client.{Client, ApiVersion}
use mcp_pipedrive.Tools.Common.{
  Tool, Context, Reply, lift, continue_with, ◌>>=◌, ◌>>◌, extract_item_data, extract_list_data,
  extract_next_cursor, get_cached, client_or_error, gated, raw_if, request, send_json,
}
use mcp_pipedrive.Cache.{CacheMeta, CacheMode}
use mcp_pipedrive.Client.Exchange.{Services, World}
use mcp_pipedrive.Client.Fetch.{invalidate_path}
use mcp_pipedrive.Client.Key.{cache_key}
use mcp_pipedrive.Mask.{mask_sensitive}
use mcp_pipedrive.Pagination.{effective_limit}
use mcp_pipedrive.Prelude.{Bool, Option, String, if◌then◌else◌, leb, ltb, none, some, suc, ℕ}
use mcp_pipedrive.Prelude.Int.{format_int, is_positive, ℤ}
use mcp_pipedrive.Query.{Query, empty, set}
use mcp_pipedrive.Result.{Error, Result, guard, message, ok, err}
use mcp_pipedrive.Value.{Fields, Value, arr, bool, end, field, insert, obj, of_list, size}
use mcp_pipedrive.Guard.{GuardKind}
use mcp_pipedrive.Normalize.Deal.{NormalizedDeal}
use mcp_pipedrive.Normalize.Lead.{NormalizedLead}
use mcp_pipedrive.Normalize.Person.{NormalizedOrganization, NormalizedPerson}
use mcp_pipedrive.Normalize.Product.{NormalizedProduct, NormalizedDealProduct}
use mcp_pipedrive.Normalize.Activity.{
  NormalizedActivity, NormalizedFilter, NormalizedNote, NormalizedWebhook,
}

-- a write: the checks before and behind the look for the client, what it makes out of date, and
-- its request
pub record Write : Type 0 where
  pub tool_name : String
  pub kind : GuardKind
  pub checked : Result (Unit {0})
  pub body_checked : Result (Unit {0})
  pub outdated : List (ApiVersion × String)
  pub version : ApiVersion
  pub method : String
  pub path : String
  pub body : Option Value

-- a write with no check of its body
abbrev pub write_of :
    List (ApiVersion × String)
    → ApiVersion
    → String
    → GuardKind
    → Result (Unit {0})
    → String
    → String
    → Option Value
    → Write
write_of outdated version tool_name kind checked method path body = record {
  tool_name = tool_name;
  kind = kind;
  checked = checked;
  body_checked = ok tt;
  outdated = outdated;
  version = version;
  method = method;
  path = path;
  body = body;
}

-- a nil query, and one that NewRequest has written to
abbrev pub or_empty : Option Query → Query
or_empty none = empty
or_empty (some q) = q

abbrev pub key_query : Option Query → Query → Query
key_query none written_query = empty
key_query (some q) written_query = written_query

-- the lists and searches of a resource with both API versions
abbrev pub resource_lists : String → List (ApiVersion × String)
resource_lists root =
    (ApiVersion.v2, root)
    ∷ (ApiVersion.v1, root)
    ∷ (ApiVersion.v2, root ++ "/search")
    ∷ (ApiVersion.v1, root ++ "/search")
    ∷ []

abbrev pub resource_path : String → ℤ → String
resource_path root id = root ++ ("/" ++ format_int id)

-- what is out of date behind a write: the item, if it has an id, and the lists
abbrev pub stale_paths : String → ℤ → List (ApiVersion × String)
stale_paths root id =
    if is_positive id
    then (ApiVersion.v2, resource_path root id)
      ∷ (ApiVersion.v1, resource_path root id)
      ∷ resource_lists root
    else resource_lists root

module _ {Db : Type 0} (services : Services Db) where
  -- NewRequest, Key and CachedGet
  unfoldable pub cached_read :
      Client
      → ApiVersion
      → String
      → Option Query
      → ℤ
      → CacheMode
      → Tool Db (Option CacheMeta × Value)
  unfolding request get_cached
  cached_read c v path q ttl mode = do
    req ← request services c v "GET" path (or_empty q) none
    get_cached services c req.0
        (cache_key services.sha256_hex services.marshal c v "GET" path (key_query q req.1) none) ttl
        mode

  -- InvalidatePath on GET requests, for each version and path in turn
  unfoldable pub invalidate_each : Client → List (ApiVersion × String) → World Db → World Db
  invalidate_each c [] w = w
  invalidate_each c ((v, path) ∷ rest) w =
      invalidate_each c rest (invalidate_path services c v "GET" path w).0

  -- the request of a write, its answer, and the invalidation
  unfoldable pub write_through :
      Client
      → List (ApiVersion × String)
      → ApiVersion
      → String
      → String
      → Option Value
      → Tool Db Value
  unfolding request send_json invalidate_each
  write_through c outdated v method path body = do
    req ← request services c v method path empty body
    payload ← send_json services c req.0
    (λ w. (invalidate_each c outdated w, ok tt))
    lift (ok payload)

  -- the handler of a write
  unfoldable pub run_write : Context → Write → (Value → Written) → Tool Db (Reply Written)
  unfolding write_through
  run_write ctx wr written = gated ctx wr.tool_name wr.kind (do
    lift wr.checked
    c ← lift (client_or_error ctx.client)
    lift wr.body_checked
    payload ← write_through c wr.outdated wr.version wr.method wr.path wr.body
    lift (ok (written payload)))

-- ===== src/Tools/Common.antt =====
-- tools/common.go, and the shape that every handler of tools/ has: it reads and writes the world,
-- and ends in a result or an error. wrapAPIError is of tools/deals.go; %v of
-- the value that it reads again is the service `show_value`.
use Prim.Native.String.{len}
use mathlib.Core.List.{List, []}
use mcp_pipedrive.Client.{Client, Request, ApiVersion, new_request}
use mcp_pipedrive.Result.{Result, Error, api, err, hard, message, ok, wrapped}
use mcp_pipedrive.Cache.{CacheMeta, CacheMode}
use mcp_pipedrive.Client.Exchange.{Services, World, do_json}
use mcp_pipedrive.Client.Fetch.{Answer, cached_get}
use mcp_pipedrive.Config.{AuthMode, Config}
use mcp_pipedrive.Float64.{Float64, float_is_zero}
use mcp_pipedrive.Guard.{DisabledResult, GuardKind, ensure_tool_allowed}
use mcp_pipedrive.Mask.{mask_sensitive}
use mcp_pipedrive.Prelude.{Bool, Option, String, if◌then◌else◌, none, some, true, leb}
use mcp_pipedrive.Prelude.Int.{is_zero, ℤ}
use mcp_pipedrive.Prelude.Text.{is_set}
use mcp_pipedrive.Query.{Query}
use mcp_pipedrive.Value.{Fields, Value, end, get, insert, int64, num, obj, str}
use mcp_pipedrive.Value.Convert.{as_list, as_map, to_string}
use mcp_pipedrive.Prelude.Bytes.{slice_to}

-- what a handler finds in its context
pub record Context : Type 0 where
  pub config : Config
  pub client : Option Client

-- what a handler returns if it ends in no error
pub data Reply (A : Type 0) : Type 0 where
  disabled : DisabledResult → Reply A
  reply : A → Reply A

abbrev pub Tool : Type 0 → Type 0 → Type 0
Tool Db A = World Db → World Db × Result A

module _ {Db : Type 0} where
  abbrev pub continue_with :
      {A B : Type 0} → World Db × Result A → (A → Tool Db B) → World Db × Result B
  continue_with (w, ok a) f = f a w
  continue_with (w, err e) f = (w, err e)

  abbrev pub lift : {A : Type 0} → Result A → Tool Db A
  lift r w = (w, r)

infixl 5 ◌>>=◌ ◌>>◌
abbrev pub ◌>>=◌ : {Db A B : Type 0} → Tool Db A → (A → Tool Db B) → Tool Db B
(m >>= f) w = continue_with (m w) f

abbrev pub ◌>>◌ : {Db A B : Type 0} → Tool Db A → Tool Db B → Tool Db B
(m >> k) w = continue_with (m w) (λ _. k)

-- the early returns behind ensureToolAllowed
unfoldable pub on_verdict :
    {Db A : Type 0} → Result (Option DisabledResult) → Tool Db A → Tool Db (Reply A)
on_verdict (err e) run w = (w, err e)
on_verdict (ok (some refused)) run w = (w, ok (disabled refused))
on_verdict (ok none) run w = continue_with (run w) (λ a. lift (ok (reply a)))

-- the first lines of a handler
unfoldable pub gated :
    {Db A : Type 0} → Context → String → GuardKind → Tool Db A → Tool Db (Reply A)
unfolding on_verdict
gated ctx tool_name kind run = on_verdict (ensure_tool_allowed ctx.config tool_name kind) run

-- clientOrError
unfoldable pub client_or_error : Option Client → Result Client
client_or_error none = err (hard (message "pipedrive client not available in context"))
client_or_error (some c) = elim c.auth_mode [
  | AuthMode.no_auth ↦
      err (
        message "no credential configured: set PIPEDRIVE_API_TOKEN or PIPEDRIVE_OAUTH_ACCESS_TOKEN")
  | _ ↦ ok c
]

abbrev pub list_or_nil : Option (List Value) → List Value
list_or_nil none = []
list_or_nil (some vs) = vs

-- extractListData: the payload itself, and its array; nil is the empty list
unfoldable pub extract_list_data : Value → Value × List Value
extract_list_data (obj m) = (obj m, list_or_nil (as_list (get m "data")))
extract_list_data payload = (payload, [])

abbrev map_or : Fields → Option Fields → Fields
map_or m none = m
map_or m (some d) = d

-- extractItemData: the payload itself, and its object; nil is the empty map
unfoldable pub extract_item_data : Value → Value × Fields
extract_item_data (obj m) = (obj m, map_or m (as_map (get m "data")))
extract_item_data payload = (payload, end)

-- if includeRaw { data["raw"] = internal.MaskSensitive(raw) }
unfoldable pub raw_if : Bool → Value → Option Value
raw_if include_raw raw = if include_raw then some (mask_sensitive raw) else none

-- extractNextCursor
abbrev cursor_in : Option Fields → String
cursor_in none = ""
cursor_in (some m) = to_string (get m "next_cursor")

unfoldable pub extract_next_cursor : Value → String
extract_next_cursor (obj m) = cursor_in (as_map (get m "additional_data"))
extract_next_cursor payload = ""

-- setIfNonZero, setIfNonZeroInt, setIfNonZeroFloat
unfoldable pub set_if_non_zero : String → String → Fields → Fields
set_if_non_zero key val m = if is_set val then insert key (str val) m else m

unfoldable pub set_if_non_zero_int : String → ℤ → Fields → Fields
set_if_non_zero_int key val m = if is_zero val then m else insert key (int64 val) m

unfoldable pub set_if_non_zero_float : String → Float64 → Fields → Fields
set_if_non_zero_float key val m = if float_is_zero val then m else insert key (num val) m

-- the first 512 bytes of a response
unfoldable pub snippet_of : String → String
snippet_of body = if leb (len body) 512 then body else slice_to body 512

module _ {Db : Type 0} (services : Services Db) where
  -- wrapAPIError
  unfoldable pub wrap_api_error : Error → Error
  wrap_api_error (api e) =
      let snippet = snippet_of e.body in
      wrapped e.status_code (elim (services.unmarshal snippet) [
        | none ↦ snippet
        | some pretty ↦ services.show_value pretty
      ])
  wrap_api_error e = e

  abbrev wrap_error : {A : Type 0} → Result A → Result A
  wrap_error (ok a) = ok a
  wrap_error (err e) = err (wrap_api_error e)

  -- NewRequest, and the query that is left of the caller's
  unfoldable pub request :
      Client → ApiVersion → String → String → Query → Option Value → Tool Db (Request × Query)
  request c v method path q body = lift (new_request services.url_error c v method path q body)

  -- DoJSON, behind wrapAPIError
  unfoldable pub send_json : Client → Request → Tool Db Value
  unfolding wrap_api_error
  send_json c req w = let (w', r) = do_json services c req true w in (w', wrap_error r)

  abbrev with_meta : Answer → Result (Option CacheMeta × Value)
  with_meta (meta, ok payload) = ok (meta, payload)
  with_meta (meta, err e) = err e

  -- CachedGet, behind wrapAPIError
  unfoldable pub get_cached :
      Client → Request → String → ℤ → CacheMode → Tool Db (Option CacheMeta × Value)
  unfolding wrap_api_error
  get_cached c req key ttl mode w =
      let (w', answer) = cached_get services c req key ttl mode w in
      (w', wrap_error (with_meta answer))

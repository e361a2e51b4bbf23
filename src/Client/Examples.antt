-- ===== src/Client/Examples.antt =====
-- The laws of the client with an upstream that answers each request in ten nanoseconds, or refuses
-- it, and a cache in memory.
use mathlib.Core.List.{[], ◌∷◌}
use mcp_pipedrive.Client.{Client, Request, ApiVersion, new_client, with_token}
use Prim.Native.String.{◌++◌}
use mathlib.Core.Bool.{false≢true}
use mcp_pipedrive.Cache.{
  add_duration, cache_get, cache_put, entry_meta, mode_bypass, mode_default, mode_only,
  mode_refresh, new_entry,
}
use mcp_pipedrive.Cache.Bucket.{CacheEntry}
use mcp_pipedrive.Cache.Examples.{memory-commits, memory-deletes, memory-puts}
use mcp_pipedrive.Cache.Memory.{Memory, memory}
use mcp_pipedrive.Client.Exchange.{Services, World, deliver, do_json, do_request, read_json}
use mcp_pipedrive.Client.Fetch.{cached_get, dispatch, invalidate_path, store}
use mcp_pipedrive.Client.Identity.{cache_key-with_token}
use mcp_pipedrive.Client.Invalidation.{invalidate_path-others, invalidate_path_lem, key_of}
use mcp_pipedrive.Client.Key.{cache_key}
use mcp_pipedrive.Client.Limiter.{wait_all}
use mcp_pipedrive.Client.Reuse.{cached_get-again}
use mcp_pipedrive.Client.Staleness.{cached_get-stale}
use mcp_pipedrive.Config.{zero_config}
use mcp_pipedrive.Prelude.{
  Bool, Option, String, ap, arith, false, inl, inr, none, none≢some, refl, some, sym, true, ℕ, ◌≡◌,
  ◌≢◌, ◌⊎◌,
}
use mcp_pipedrive.Prelude.Int.{pos}
use mcp_pipedrive.Query.{Query, empty, set}
use mcp_pipedrive.Result.{err, is_server_error, message, ok, is_rate_limited}
use mcp_pipedrive.Value.{Value, str}
use mcp_pipedrive.Client.Freshness.{IsFresh, cached_get-fresh, cached_get-only}
use mcp_pipedrive.Client.Requests.{cached_get-bypass}
use mcp_pipedrive.Value.Convert.{to_string}

abbrev pub answering : ℕ → Services Memory
answering status_code = record {
  bolt = memory;
  send = λ now sent req.
      (10, ok (record { status_code = status_code; status = ""; body = "{}"; content_type = "" }));
  wait = λ r waits now. (0, none);
  url_error = λ method url. none;
  sha256_hex = λ s. s ++ "0123456789abcdef";
  marshal = λ v. "{}";
  decode_json = λ s. ok (str s);
  unmarshal = λ s. some (str s);
  show_value = to_string;
}

abbrev pub test_client : Client
test_client = record (new_client (record zero_config { api_token = "t" })) { stale_on_429 = true }

abbrev pub test_request : Request
test_request = record { method = "GET"; url = ""; body = none; headers = empty }

abbrev pub stored_entry : CacheEntry
stored_entry = record { stored_at = 0; expires_at = 100; api_version = ""; body = some (str "old") }

-- a world whose cache holds the entry under "k"
abbrev pub test_world : ℕ → World Memory
test_world now = record {
  now = now;
  cache = some (("k", some stored_entry) ∷ []);
  sent = [];
  waits = [];
}

cached_get-bypass_example :
    (cached_get
      (answering 200)
      test_client
      test_request
      "k"
      (pos 50)
      mode_bypass
      (test_world 7)).0.cache
    ≡ some (("k", some stored_entry) ∷ [])
cached_get-bypass_example =
    cached_get-bypass (answering 200) test_client test_request "k" (pos 50) (test_world 7)

cached_get-fresh_example :
    cached_get (answering 200) test_client test_request "k" (pos 50) mode_default (test_world 99)
    ≡ (test_world 99, (some (entry_meta 99 stored_entry false), ok (str "old")))
unfolding cache_get memory
cached_get-fresh_example =
    cached_get-fresh (answering 200) test_client test_request "k" (pos 50) mode_default
      (test_world 99) stored_entry (str "old") (inl refl) refl (ground arith) refl

cached_get-only_example :
    let (w', answer) =
      cached_get (answering 200) test_client test_request "k" (pos 50) mode_only (test_world 100) in
    (w' ≡ test_world 100)
    × ((answer.1 ≡ err (message "cache miss"))
        ⊎ ((payload : Value) × ((answer.1 ≡ ok payload)
              × IsFresh 100 (cache_get memory (test_world 100).cache "k") payload)))
cached_get-only_example =
    cached_get-only (answering 200) test_client test_request "k" (pos 50) (test_world 100)
      (λ e. none≢some (sym e))

cached_get-stale_example :
    (cached_get
      (answering 429)
      test_client
      test_request
      "k"
      (pos 50)
      mode_refresh
      (test_world 900)).1.1
    ≡ ok (str "old")
unfolding do_json do_request deliver read_json wait_all new_client cache_get memory is_server_error
    is_rate_limited
cached_get-stale_example =
    cached_get-stale (answering 429) test_client test_request "k" (pos 50) (test_world 900)
      (record { status_code = 429; status = ""; body = "{}" }) stored_entry (str "old") refl refl
      refl refl refl

-- a later world, in which more requests were sent
abbrev later_world : World Memory
later_world =
    record ((cached_get (answering 200) test_client test_request "k" (pos 50) mode_refresh
      (test_world 7)).0) { now = 60; sent = test_request ∷ test_request ∷ [] }

cached_get-again_example :
    let again =
      cached_get (answering 200) test_client test_request "k" (pos 9) mode_only later_world in
    (again.1.1 ≡ ok (str "{}")) × (again.0 ≡ later_world)
unfolding do_json do_request deliver read_json wait_all new_client cached_get dispatch store
    cache_put memory new_entry add_duration
cached_get-again_example =
    cached_get-again (answering 200) test_client test_request test_request "k" 50 (pos 9) mode_only
      (test_world 7) later_world (str "{}") (memory-puts "k") memory-commits
      (λ e. none≢some (sym e)) refl (inr refl) refl (ground arith)

cache_key-with_token_example :
    cache_key
      (λ s. s)
      (λ v. "{}")
      test_client
      ApiVersion.v2
      "GET"
      "/deals"
      (with_token test_client (set "limit" "50" empty))
      none
    ≡ cache_key
        (λ s. s)
        (λ v. "{}")
        test_client
        ApiVersion.v2
        "GET"
        "/deals"
        (set "limit" "50" empty)
        none
cache_key-with_token_example =
    cache_key-with_token (λ s. s) (λ v. "{}") test_client ApiVersion.v2 "GET" "/deals"
      (set "limit" "50" empty) none

invalidate_path_lem_example :
    let services = answering 200 in
    let w' = (invalidate_path services test_client ApiVersion.v2 "GET" "/deals" (test_world 0)).0 in
    ((more : String) (q : Query) (body : Option Value)
      → cache_get memory w'.cache
          (key_of services test_client ApiVersion.v2 "GET" ("/deals" ++ more) q body)
        ≡ none)
    × (w'.sent ≡ [])
invalidate_path_lem_example =
    invalidate_path_lem (answering 200) test_client ApiVersion.v2 "GET" "/deals" (test_world 0)
      memory-deletes memory-commits

v2≢v1 : ApiVersion.v2 ≢ ApiVersion.v1
v2≢v1 e = false≢true (sym (ap (λ v. elim v as (λ x. Bool) [ ApiVersion.v1 ↦ false | _ ↦ true ]) e))

invalidate_path-others_example :
    let services = answering 200 in
    let w' = (invalidate_path services test_client ApiVersion.v2 "GET" "/deals" (test_world 0)).0 in
    cache_get memory w'.cache (key_of services test_client ApiVersion.v1 "GET" "/deals" empty none)
    ≡ cache_get memory
        (test_world 0).cache
        (key_of services test_client ApiVersion.v1 "GET" "/deals" empty none)
invalidate_path-others_example =
    invalidate_path-others (answering 200) test_client ApiVersion.v2 ApiVersion.v1 "GET" "/deals"
      "GET" "/deals" (test_world 0) empty none v2≢v1

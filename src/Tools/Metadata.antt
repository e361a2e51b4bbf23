-- ===== src/Tools/Metadata.antt =====
-- tools/context.go: five lists of metadata in one call. Each goroutine asks for one list and puts
-- the answer into its own slot; a run is the goroutines in the order in which they ask, and the
-- slots are read when all of them are done.
pub mod Laws
mod Examples
use mathlib.Core.List.{List, [], ◌∷◌}
use mcp_pipedrive.Client.{Client, ApiVersion}
use mcp_pipedrive.Tools.Common.{Tool, Context, Reply, lift, ◌>>=◌, client_or_error, gated}
use mcp_pipedrive.Cache.{CacheMeta, CacheMode, valid_cache_mode}
use mcp_pipedrive.Client.Exchange.{Services, World}
use mcp_pipedrive.Guard.{guard_read}
use mcp_pipedrive.Mask.{mask_sensitive}
use mcp_pipedrive.Prelude.{Option, String, if◌then◌else◌, map, none, some, ℕ, ◌==◌}
use mcp_pipedrive.Result.{Error, Result, err, ok}
use mcp_pipedrive.Tools.Resource.{cached_read}
use mcp_pipedrive.Value.{Value, lookup, null, obj}

-- a call, with the index of its slot
pub record MetadataCall : Type 0 where
  pub slot : ℕ
  pub version : ApiVersion
  pub path : String
  pub key : String

abbrev call : ℕ → ApiVersion → String → String → MetadataCall
call slot version path key = record { slot = slot; version = version; path = path; key = key }

abbrev pub metadata_calls : List MetadataCall
metadata_calls =
    call 0 ApiVersion.v1 "/users" "users"
    ∷ call 1 ApiVersion.v2 "/pipelines" "pipelines"
    ∷ call 2 ApiVersion.v2 "/stages" "stages"
    ∷ call 3 ApiVersion.v1 "/dealFields" "deal_fields"
    ∷ call 4 ApiVersion.v1 "/activityTypes" "activity_types"
    ∷ []

-- result: what a goroutine has put into its slot
pub record MetadataResult : Type 0 where
  pub key : String
  pub answer : Result (Option CacheMeta × Value)

-- result{}, the value of a slot that nothing was put into
abbrev pub zero_result : MetadataResult
zero_result = record { key = ""; answer = ok (none, null) }

-- out[i] = r
abbrev pub put_slot : ℕ → MetadataResult → (ℕ → MetadataResult) → ℕ → MetadataResult
put_slot i r out j = if i == j then r else out j

pub data MetadataEntry : Type 0 where
  failed : Error → MetadataEntry
  fetched : Value → MetadataEntry

pub record MetadataReply : Type 0 where
  pub data_of : List (String × MetadataEntry)
  pub cache : List (String × Option CacheMeta)

-- extractDataField
abbrev data_or : Value → Option Value → Value
data_or payload none = payload
data_or payload (some d) = d

unfoldable pub extract_data_field : Value → Value
extract_data_field (obj m) = data_or (obj m) (lookup "data" m)
extract_data_field payload = payload

-- the loop over out
unfoldable pub add_entry :
    String → Result (Option CacheMeta × Value) → MetadataReply → MetadataReply
unfolding extract_data_field
add_entry key (err e) later = record later { data_of = (key, failed e) ∷ later.data_of }
add_entry key (ok (meta, payload)) later = record {
  data_of = (key, fetched (mask_sensitive (extract_data_field payload))) ∷ later.data_of;
  cache = (key, meta) ∷ later.cache;
}

unfoldable pub metadata_reply : List MetadataResult → MetadataReply
unfolding add_entry
metadata_reply [] = record { data_of = []; cache = [] }
metadata_reply (r ∷ rs) = add_entry r.key r.answer (metadata_reply rs)

module _ {Db : Type 0} (services : Services Db) where
  -- the goroutines, in their order; a failed request fills its slot with the error
  unfoldable pub run_calls :
      Client
      → CacheMode
      → List MetadataCall
      → (ℕ → MetadataResult)
      → World Db
      → World Db × (ℕ → MetadataResult)
  unfolding cached_read
  run_calls c mode [] out w = (w, out)
  run_calls c mode (m ∷ ms) out w =
      let (w', answer) = cached_read services c m.version m.path none c.ttls.metadata mode w in
      run_calls c mode ms (put_slot m.slot (record { key = m.key; answer = answer }) out) w'

  module _ (schedule : List MetadataCall) where
    -- what is behind wg.Wait
    abbrev wait_for_calls : Client → CacheMode → Tool Db MetadataReply
    unfolding run_calls metadata_reply
    wait_for_calls c mode w =
        let (w', out) = run_calls c mode schedule (λ i. zero_result) w in
        (w', ok (metadata_reply (map (λ (m : MetadataCall). out m.slot) metadata_calls)))

    -- contextGet
    unfoldable pub context_get : Context → String → Tool Db (Reply MetadataReply)
    unfolding run_calls metadata_reply
    context_get ctx cache_mode = gated ctx "pipedrive.context.get" guard_read (do
      mode ← lift (valid_cache_mode cache_mode)
      c ← lift (client_or_error ctx.client)
      wait_for_calls c mode)

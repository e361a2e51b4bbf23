-- ===== src/Tools/Deals.antt =====
-- The handlers of tools/deals.go.
pub mod Read
pub mod Write
use Prim.Native.String.{◌++◌}
use mcp_pipedrive.Prelude.Int.{ℤ, format_int}
use mcp_pipedrive.Float64.{Float64}
use mcp_pipedrive.Prelude.{Bool, List, Option, String}
use mcp_pipedrive.Value.{Fields}
use mcp_pipedrive.Client.{ApiVersion}
use mcp_pipedrive.Tools.Resource.{stale_paths}

pub record DealsListParams : Type 0 where
  pub limit : ℤ
  pub cursor : String
  pub status : String
  pub owner_id : ℤ
  pub pipeline_id : ℤ
  pub stage_id : ℤ
  pub filter_id : ℤ
  pub is_archived : Option Bool
  pub updated_since : String
  pub updated_until : String
  pub sort_by : String
  pub sort_direction : String
  pub include_raw : Bool
  pub cache_mode : String

pub record DealsGetParams : Type 0 where
  pub id : ℤ
  pub include_raw : Bool
  pub cache_mode : String

pub record DealsSearchParams : Type 0 where
  pub term : String
  pub fields : String
  pub status : String
  pub exact : Bool
  pub limit : ℤ
  pub cache_mode : String

pub record DealsCreateParams : Type 0 where
  pub title : String
  pub value : Float64
  pub currency : String
  pub owner_id : ℤ
  pub person_id : ℤ
  pub organization_id : ℤ
  pub pipeline_id : ℤ
  pub stage_id : ℤ
  pub status : String
  pub custom_fields : Fields

pub record DealsUpdateParams : Type 0 where
  pub id : ℤ
  pub title : String
  pub value : Option Float64
  pub currency : String
  pub owner_id : ℤ
  pub person_id : ℤ
  pub organization_id : ℤ
  pub pipeline_id : ℤ
  pub stage_id : ℤ
  pub status : String
  pub label_ids : Option (List ℤ)
  pub custom_fields : Fields

-- "/deals/" + strconv.FormatInt(id, 10)
abbrev pub deal_path : ℤ → String
deal_path id = "/deals/" ++ format_int id

-- the paths that invalidateDealsCache drops, in order
unfoldable pub deals_outdated : ℤ → List (ApiVersion × String)
deals_outdated id = stale_paths "/deals" id

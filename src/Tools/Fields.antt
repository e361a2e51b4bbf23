-- ===== src/Tools/Fields.antt =====
-- tools/deal_fields.go: options are added to a deal field, whose options the API replaces as a
-- whole. The handler reads the field, merges, and writes all options back.
pub mod Merge
pub mod Laws
mod Examples
use mathlib.Core.List.{List, [], ◌∷◌}
use Prim.Native.String.{◌++◌}
use mcp_pipedrive.Client.{Client, ApiVersion}
use mcp_pipedrive.Tools.Common.{
  Tool, Context, Reply, lift, ◌>>=◌, ◌>>◌, client_or_error, extract_item_data, gated, list_or_nil,
  request, send_json,
}
use Merge.{Merged, merge_options}
use mcp_pipedrive.Client.Exchange.{Services}
use mcp_pipedrive.Client.Fetch.{invalidate_path}
use mcp_pipedrive.Guard.{guard_write}
use mcp_pipedrive.Mask.{mask_sensitive}
use mcp_pipedrive.Prelude.{Option, String, any, if◌then◌else◌, is_empty, none, not, some, ◌||◌}
use mcp_pipedrive.Prelude.Int.{format_int, is_positive, ℤ}
use mcp_pipedrive.Prelude.Text.{is_set, str_eq, trim_space}
use mcp_pipedrive.Query.{empty}
use mcp_pipedrive.Result.{Error, guard, message, ok}
use mcp_pipedrive.Value.{Fields, Value, arr, end, get, obj, of_list, insert}
use mcp_pipedrive.Value.Convert.{as_list, to_string}

pub record DealFieldsAddOptionParams : Type 0 where
  pub field_id : ℤ
  pub options : List String

pub record OptionReply : Type 0 where
  pub field : Value
  pub added : List String
  pub skipped : List String

abbrev field_path : ℤ → String
field_path id = "/dealFields/" ++ format_int id

-- the error of a field whose type has no options; %q is written without its escapes
abbrev wrong_type : ℤ → String → Error
wrong_type id t = message (
    "field "
    ++ (format_int id
        ++ (" has field_type \"" ++ (t ++ "\"; options can only be added to enum or set fields"))))

module _ {Db : Type 0} (services : Services Db) where
  -- NewRequest and DoJSON without the cache
  unfoldable pub exchange : Client → ApiVersion → String → String → Option Value → Tool Db Value
  unfolding request send_json
  exchange c v method path body = do
    req ← request services c v method path empty body
    send_json services c req.0

  abbrev forget_fields : Client → Tool Db (Unit {0})
  forget_fields c w = ((invalidate_path services c ApiVersion.v1 "GET" "/dealFields" w).0, ok tt)

  -- the write of the merged options, unless none is added
  unfoldable pub write_options : Client → String → Fields → Merged → Tool Db OptionReply
  unfolding exchange
  write_options c path current m =
      if is_empty m.added
      then lift (
          ok
            (record { field = mask_sensitive (obj current); added = m.added; skipped = m.skipped }))
      else (do
        payload ←
            exchange c ApiVersion.v1 "PUT" path
              (some (obj (insert "options" (arr (of_list m.merged)) end)))
        forget_fields c
        lift (
            ok (record {
              field = mask_sensitive (obj (extract_item_data payload).1);
              added = m.added;
              skipped = m.skipped;
            })))

  -- dealFieldsAddOption
  unfoldable pub deal_fields_add_option :
      Context → DealFieldsAddOptionParams → Tool Db (Reply OptionReply)
  unfolding exchange write_options merge_options
  deal_fields_add_option ctx args = gated ctx "pipedrive.deal_fields.add_option" guard_write (do
    lift (guard (is_positive args.field_id) (message "field_id is required and must be > 0"))
    lift (guard (not (is_empty args.options)) (message "options must contain at least one label"))
    lift (
        guard (not (any (λ label. not (is_set (trim_space label))) args.options))
          (message "options must not contain empty or whitespace-only labels"))
    c ← lift (client_or_error ctx.client)
    payload ← exchange c ApiVersion.v1 "GET" (field_path args.field_id) none
    let current = (extract_item_data payload).1
    let field_type = to_string (get current "field_type")
    lift (
        guard (str_eq field_type "enum" || str_eq field_type "set")
          (wrong_type args.field_id field_type))
    write_options c (field_path args.field_id) current
        (merge_options (list_or_nil (as_list (get current "options"))) args.options))

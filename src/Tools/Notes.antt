-- ===== src/Tools/Notes.antt =====
-- tools/notes.go: notes, of version 1 of the API.
use mathlib.Core.List.{List, [], ◌∷◌}
use mcp_pipedrive.Client.{ApiVersion}
use mcp_pipedrive.Tools.Common.{
  Tool, Context, Reply, lift, ◌>>=◌, client_or_error, gated, extract_list_data, raw_if,
  set_if_non_zero, set_if_non_zero_int,
}
use mcp_pipedrive.Cache.{CacheMeta, valid_cache_mode}
use mcp_pipedrive.Client.Exchange.{Services}
use mcp_pipedrive.Guard.{guard_read, guard_write}
use mcp_pipedrive.Normalize.Activity.{NormalizedNote, normalize_note, normalize_note_list}
use mcp_pipedrive.Pagination.{add_v1_pagination, effective_limit}
use mcp_pipedrive.Prelude.{Bool, Option, String, if◌then◌else◌, none, not, some, ◌||◌}
use mcp_pipedrive.Prelude.Int.{is_zero, pos, ℤ}
use mcp_pipedrive.Prelude.Text.{is_set}
use mcp_pipedrive.Query.{Query, empty, set_id, set_text}
use mcp_pipedrive.Result.{Result, guard, message, ok}
use mcp_pipedrive.Tools.Resource.{
  Write, Written, after_query, and_check, cached_read, check_id, has_fields, note, resource_path,
  run_write, saved_reply, write_of,
}
use mcp_pipedrive.Validate.{require_id}
use mcp_pipedrive.Value.{Fields, Value, end, field, insert, int, obj, str}

pub record NotesListParams : Type 0 where
  pub limit : ℤ
  pub start : ℤ
  pub deal_id : ℤ
  pub person_id : ℤ
  pub organization_id : ℤ
  pub user_id : ℤ
  pub filter_id : ℤ
  pub start_date : String
  pub end_date : String
  pub include_raw : Bool
  pub cache_mode : String

pub record NotesCreateParams : Type 0 where
  pub content : String
  pub deal_id : ℤ
  pub person_id : ℤ
  pub organization_id : ℤ
  pub lead_id : String
  pub user_id : ℤ
  pub pinned_to_deal : Bool
  pub pinned_to_person : Bool
  pub pinned_to_organization : Bool

pub record NotesUpdateParams : Type 0 where
  pub id : ℤ
  pub content : String
  pub deal_id : ℤ
  pub person_id : ℤ
  pub organization_id : ℤ
  pub lead_id : String
  pub user_id : ℤ
  pub pinned_to_deal : Option Bool
  pub pinned_to_person : Option Bool
  pub pinned_to_organization : Option Bool

pub record NotesReply : Type 0 where
  pub notes : List NormalizedNote
  pub raw : Option Value
  pub limit : ℤ
  pub start : ℤ
  pub cache : Option CacheMeta

-- the query of notesList
unfoldable pub notes_list_query : NotesListParams → Result Query
notes_list_query args = after_query (add_v1_pagination empty args.start args.limit) (λ q. ok (
    set_text "end_date" args.end_date (
      set_text "start_date" args.start_date (
        set_id "filter_id" args.filter_id (
          set_id "user_id" args.user_id (
            set_id "org_id" args.organization_id
              (set_id "person_id" args.person_id (set_id "deal_id" args.deal_id q))))))))

-- body[key] = 1 for a flag that is set
abbrev pin_if : String → Bool → Fields → Fields
pin_if k pinned m = if pinned then insert k (int (pos 1)) m else m

-- setPinnedFlag
unfoldable pub set_pinned_flag : String → Option Bool → Fields → Fields
set_pinned_flag k none m = m
set_pinned_flag k (some pinned) m = insert k (int (if pinned then pos 1 else pos 0)) m

-- the links of a note, put into a body
note_links : ℤ → ℤ → ℤ → String → ℤ → Fields → Fields
unfolding set_if_non_zero set_if_non_zero_int
note_links deal_id person_id organization_id lead_id user_id m =
    set_if_non_zero_int "user_id" user_id (
      set_if_non_zero "lead_id" lead_id (
        set_if_non_zero_int "org_id" organization_id
          (set_if_non_zero_int "person_id" person_id (set_if_non_zero_int "deal_id" deal_id m))))

unfoldable pub notes_create_body : NotesCreateParams → Fields
unfolding note_links
notes_create_body args = pin_if "pinned_to_organization_flag" args.pinned_to_organization (
    pin_if "pinned_to_person_flag" args.pinned_to_person (
      pin_if "pinned_to_deal_flag" args.pinned_to_deal (
        note_links args.deal_id args.person_id args.organization_id args.lead_id args.user_id
          (field "content" (str args.content) end))))

unfoldable pub notes_update_body : NotesUpdateParams → Fields
unfolding note_links set_pinned_flag set_if_non_zero
notes_update_body args = set_pinned_flag "pinned_to_organization_flag" args.pinned_to_organization (
    set_pinned_flag "pinned_to_person_flag" args.pinned_to_person (
      set_pinned_flag "pinned_to_deal_flag" args.pinned_to_deal (
        note_links args.deal_id args.person_id args.organization_id args.lead_id args.user_id
          (set_if_non_zero "content" args.content end))))

-- whether a note is linked to anything
abbrev is_linked : NotesCreateParams → Bool
is_linked args =
    not (is_zero args.deal_id)
    || not (is_zero args.person_id)
    || not (is_zero args.organization_id)
    || is_set args.lead_id

-- the two checks of notesCreate
unfoldable pub check_note : NotesCreateParams → Result (Unit {0})
check_note args = and_check (require_id args.content "content") (
    guard (is_linked args)
      (message "at least one of deal_id, person_id, organization_id or lead_id is required"))

-- a pinned flag wants the id of what the note is pinned to
check_pinned : Option Bool → ℤ → String → Result (Unit {0})
check_pinned none id text = ok tt
check_pinned (some pinned) id text = guard (not (is_zero id)) (message text)

-- the four checks of notesUpdate
unfoldable pub check_note_update : NotesUpdateParams → Result (Unit {0})
unfolding check_pinned
check_note_update args = and_check (check_id args.id) (
    and_check (check_pinned args.pinned_to_deal args.deal_id "pinned_to_deal requires deal_id") (
      and_check
        (check_pinned args.pinned_to_person args.person_id "pinned_to_person requires person_id")
        (check_pinned args.pinned_to_organization args.organization_id
          "pinned_to_organization requires organization_id")))

abbrev pub notes_outdated : List (ApiVersion × String)
notes_outdated = (ApiVersion.v1, "/notes") ∷ []

unfoldable pub notes_create_write : NotesCreateParams → Write
unfolding notes_create_body check_note
notes_create_write args =
    write_of notes_outdated ApiVersion.v1 "pipedrive.notes.create" guard_write (check_note args)
      "POST" "/notes" (some (obj (notes_create_body args)))

unfoldable pub notes_update_write : NotesUpdateParams → Write
unfolding notes_update_body check_note_update
notes_update_write args =
    record (write_of notes_outdated ApiVersion.v1 "pipedrive.notes.update" guard_write
      (check_note_update args) "PUT" (resource_path "/notes" args.id)
      (some (obj (notes_update_body args)))) { body_checked = has_fields (notes_update_body args) }

abbrev pub saved_note : Value → Written
saved_note payload = saved_reply (λ m. note (normalize_note m)) payload

module _ {Db : Type 0} (services : Services Db) where
  -- notesList
  unfoldable pub notes_list : Context → NotesListParams → Tool Db (Reply NotesReply)
  unfolding notes_list_query cached_read extract_list_data
  notes_list ctx args = gated ctx "pipedrive.notes.list" guard_read (do
    mode ← lift (valid_cache_mode args.cache_mode)
    c ← lift (client_or_error ctx.client)
    q ← lift (notes_list_query args)
    answer ← cached_read services c ApiVersion.v1 "/notes" (some q) c.ttls.list mode
    let (raw, notes) = extract_list_data answer.1
    lift (
        ok (record {
          notes = normalize_note_list notes;
          raw = raw_if args.include_raw raw;
          limit = effective_limit args.limit;
          start = args.start;
          cache = answer.0;
        })))

  -- notesCreate
  unfoldable pub notes_create : Context → NotesCreateParams → Tool Db (Reply Written)
  unfolding notes_create_write run_write
  notes_create ctx args = run_write services ctx (notes_create_write args) saved_note

  -- notesUpdate
  unfoldable pub notes_update : Context → NotesUpdateParams → Tool Db (Reply Written)
  unfolding notes_update_write run_write
  notes_update ctx args = run_write services ctx (notes_update_write args) saved_note

-- ===== src/Normalize/Mail.antt =====
-- pipedrive/normalize_mail.go. The html2text package is a parameter: its conversion of a text, or
-- its error.
pub mod Snippet
use Snippet.{truncate_snippet, mail_compact_snippet_max}
use mcp_pipedrive.Normalize.Lists.{normalize_list}
use mcp_pipedrive.Prelude.{
  Bool, List, Option, String, [], if◌then◌else◌, is_empty, none, not, some, ◌&&◌, ◌==◌, ◌||◌, ◌∷◌,
}
use mcp_pipedrive.Prelude.Int.{is_zero, ℤ}
use mcp_pipedrive.Prelude.Text.{is_set, str_eq}
use mcp_pipedrive.Value.{Fields, Value, end, get, obj, size}
use mcp_pipedrive.Value.Convert.{as_list, as_map, related_id, to_int64, to_string}

pub record NormalizedMailParticipant : Type 0 where
  pub name : String
  pub email : String

pub record NormalizedMailParties : Type 0 where
  pub from : List NormalizedMailParticipant
  pub to : List NormalizedMailParticipant
  pub cc_list : List NormalizedMailParticipant
  pub bcc : List NormalizedMailParticipant

-- one entry of a participant list, if it names someone
unfoldable pub participant_of : Fields → Option NormalizedMailParticipant
participant_of m =
    let email = to_string (get m "email_address") in
    let name = to_string (get m "name") in
    if is_set email || is_set name then some (record { name = name; email = email }) else none

-- the loop of mailParticipants
participants_of : List Value → List NormalizedMailParticipant
participants_of [] = []
participants_of (obj m ∷ vs) =
    let rest = participants_of vs in elim (participant_of m) [ none ↦ rest | some p ↦ p ∷ rest ]
participants_of (_ ∷ vs) = participants_of vs

unfoldable pub mail_participants : Value → List NormalizedMailParticipant
unfolding participants_of
mail_participants v = elim (as_list v) [ none ↦ [] | some vs ↦ participants_of vs ]

abbrev parties_if_any : NormalizedMailParties → Option NormalizedMailParties
parties_if_any p =
    if is_empty p.from && is_empty p.to && is_empty p.cc_list && is_empty p.bcc
    then none
    else some p

-- mailParties; a nil map gives no parties
unfoldable pub mail_parties : Fields → Option NormalizedMailParties
mail_parties parties =
    if size parties == 0
    then none
    else parties_if_any (record {
      from = mail_participants (get parties "from");
      to = mail_participants (get parties "to");
      cc_list = mail_participants (get parties "cc");
      bcc = mail_participants (get parties "bcc");
    })

-- the first entry of `from`
first_participant : List Value → Option NormalizedMailParticipant
first_participant [] = none
first_participant (v ∷ vs) = elim (as_map v) [ none ↦ none | some m ↦ participant_of m ]

unfoldable pub primary_from : Fields → Option NormalizedMailParticipant
unfolding first_participant
primary_from parties = elim (as_list (get parties "from")) [
  | none ↦ none
  | some vs ↦ first_participant vs
]

abbrev pub mail_fields_full : String
mail_fields_full = "full"

abbrev pub mail_fields_compact : String
mail_fields_compact = "compact"

abbrev pub body_format_text : String
body_format_text = "text"

abbrev pub body_format_html : String
body_format_html = "html"

abbrev pub body_format_none : String
body_format_none = "none"

unfoldable pub normalize_body_format : String → String
normalize_body_format given =
    if str_eq given body_format_html || str_eq given body_format_none
    then given
    else body_format_text

unfoldable pub normalize_mail_fields : String → String
normalize_mail_fields given =
    if str_eq given mail_fields_full then mail_fields_full else mail_fields_compact

pub record NormalizedMailThread : Type 0 where
  pub id : ℤ
  pub subject : String
  pub snippet : String
  pub read_flag : ℤ
  pub archived_flag : ℤ
  pub deal_id : Option ℤ
  pub person_id : Option ℤ
  pub message_count : ℤ
  pub last_message_timestamp : String
  pub has_attachments : Bool
  pub from : Option NormalizedMailParticipant
  pub parties : Option NormalizedMailParties

-- &id, or nil for 0
abbrev unless_zero : ℤ → Option ℤ
unless_zero id = if is_zero id then none else some id

abbrev or_no_fields : Option Fields → Fields
or_no_fields none = end
or_no_fields (some m) = m

unfoldable pub normalize_mail_thread : Fields → String → NormalizedMailThread
normalize_mail_thread raw fields =
    let snippet = to_string (get raw "snippet") in
    let parties = or_no_fields (as_map (get raw "parties")) in
    let full = str_eq fields mail_fields_full in
    record {
      id = to_int64 (get raw "id");
      subject = to_string (get raw "subject");
      snippet = if full then snippet else truncate_snippet snippet mail_compact_snippet_max;
      read_flag = to_int64 (get raw "read_flag");
      archived_flag = to_int64 (get raw "archived_flag");
      deal_id = unless_zero (related_id raw ("deal_id" ∷ []));
      person_id = unless_zero (related_id raw ("person_id" ∷ []));
      message_count = to_int64 (get raw "message_count");
      last_message_timestamp = to_string (get raw "last_message_timestamp");
      has_attachments = not (is_zero (to_int64 (get raw "has_attachments_flag")));
      from = if full then none else primary_from parties;
      parties = if full then mail_parties parties else none;
    }

unfoldable pub normalize_mail_thread_list : List Value → String → List NormalizedMailThread
normalize_mail_thread_list raw fields = normalize_list (λ m. normalize_mail_thread m fields) raw

pub record NormalizedMailMessage : Type 0 where
  pub id : ℤ
  pub mail_thread_id : ℤ
  pub subject : String
  pub snippet : String
  pub from : List NormalizedMailParticipant
  pub to : List NormalizedMailParticipant
  pub cc_list : List NormalizedMailParticipant
  pub bcc : List NormalizedMailParticipant
  pub message_time : String
  pub direction : String
  pub read_flag : ℤ
  pub draft_flag : ℤ
  pub sent_flag : ℤ
  pub deleted_flag : ℤ
  pub has_attachments : Bool
  pub body : String
  pub body_format : String

-- HTMLToText of pipedrive/mail.go
unfoldable pub html_to_text : (String → Option String) → String → String
html_to_text from_string s =
    if not (is_set s) then "" else elim (from_string s) [ none ↦ s | some out ↦ out ]

-- draft, outgoing or incoming, by the flags
direction_of : Fields → String
direction_of raw =
    if not (is_zero (to_int64 (get raw "draft_flag")))
    then "draft"
    else if not (is_zero (to_int64 (get raw "sent_flag")))
    then "outgoing"
    else "incoming"

-- raw["body"], or raw["body_content"] if that is empty
raw_body : Fields → String
raw_body raw =
    let body = to_string (get raw "body") in
    if is_set body then body else to_string (get raw "body_content")

-- the body, and its format, as the caller asked for it
body_of : (String → Option String) → Fields → String → String × String
unfolding raw_body
body_of from_string raw body_format =
    let body = raw_body raw in
    if str_eq body_format body_format_none || not (is_set body)
    then ("", "")
    else if str_eq body_format body_format_html
    then (body, body_format_html)
    else (html_to_text from_string body, body_format_text)

unfoldable pub normalize_mail_message :
    (String → Option String) → Fields → String → NormalizedMailMessage
unfolding direction_of body_of
normalize_mail_message from_string raw body_format =
    let shown = body_of from_string raw body_format in
    record {
      id = to_int64 (get raw "id");
      mail_thread_id = to_int64 (get raw "mail_thread_id");
      subject = to_string (get raw "subject");
      snippet = to_string (get raw "snippet");
      from = mail_participants (get raw "from");
      to = mail_participants (get raw "to");
      cc_list = mail_participants (get raw "cc");
      bcc = mail_participants (get raw "bcc");
      message_time = to_string (get raw "message_time");
      direction = direction_of raw;
      read_flag = to_int64 (get raw "read_flag");
      draft_flag = to_int64 (get raw "draft_flag");
      sent_flag = to_int64 (get raw "sent_flag");
      deleted_flag = to_int64 (get raw "deleted_flag");
      has_attachments = not (is_zero (to_int64 (get raw "has_attachments_flag")));
      body = shown.0;
      body_format = shown.1;
    }

unfoldable pub normalize_mail_message_list :
    (String → Option String) → List Value → String → List NormalizedMailMessage
normalize_mail_message_list from_string raw body_format =
    normalize_list (λ m. normalize_mail_message from_string m body_format) raw

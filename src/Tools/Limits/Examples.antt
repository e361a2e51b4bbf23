-- ===== src/Tools/Limits/Examples.antt =====
-- The three listings against an upstream that answers each request.
use mcp_pipedrive.Prelude.{false, some}
use mcp_pipedrive.Prelude.Int.{pos}
use mcp_pipedrive.Cache.{CacheMeta}
use mcp_pipedrive.Normalize.Person.{
  NormalizedOrganization, NormalizedPerson, normalize_organization_list, normalize_person_list,
}
use mcp_pipedrive.Normalize.Activity.{NormalizedActivity, normalize_activity_list}
use mcp_pipedrive.Tools.Activities.{ActivitiesListParams}
use mcp_pipedrive.Tools.Organizations.{OrganizationsListParams}
use mcp_pipedrive.Tools.Persons.{PersonsListParams}
use mcp_pipedrive.Tools.Resource.{ListReply, listed}
use mcp_pipedrive.Value.{str}

abbrev persons_args : PersonsListParams
persons_args = record {
  limit = pos 0;
  cursor = "";
  owner_id = pos 7;
  organization_id = pos 0;
  filter_id = pos 0;
  updated_since = "";
  updated_until = "";
  include_raw = false;
  cache_mode = "bypass";
}

abbrev organizations_args : OrganizationsListParams
organizations_args = record {
  limit = pos 500;
  cursor = "next";
  owner_id = pos 0;
  filter_id = pos 0;
  updated_since = "";
  updated_until = "";
  include_raw = false;
  cache_mode = "bypass";
}

abbrev activities_args : ActivitiesListParams
activities_args = record {
  limit = pos 20;
  cursor = "";
  owner_id = pos 0;
  deal_id = pos 0;
  person_id = pos 0;
  organization_id = pos 0;
  done = some false;
  filter_id = pos 0;
  due_date = "";
  updated_since = "";
  updated_until = "";
  include_raw = false;
  cache_mode = "bypass";
}

abbrev sent_around : CacheMeta
sent_around = record {
  hit = false;
  stale = false;
  stored_at = 0;
  expires_at = 0;
  reason = "";
  ttl_seconds = pos 0;
}

abbrev persons_reply : ListReply NormalizedPerson
persons_reply = listed normalize_person_list false (pos 0) (some sent_around, str "{}")

abbrev organizations_reply : ListReply NormalizedOrganization
organizations_reply =
    listed normalize_organization_list false (pos 500) (some sent_around, str "{}")

abbrev activities_reply : ListReply NormalizedActivity
activities_reply = listed normalize_activity_list false (pos 20) (some sent_around, str "{}")

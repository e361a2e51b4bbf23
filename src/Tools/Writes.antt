-- ===== src/Tools/Writes.antt =====
-- The write handlers of the tools as one: deals, persons, organizations, products, leads,
-- activities, notes, filters, webhooks, the products of a deal, and followers.
mod Runs
mod Outdated
mod Laws
mod Examples
use mcp_pipedrive.Tools.Common.{Tool, Context, Reply}
use mcp_pipedrive.Client.{ApiVersion}
use mcp_pipedrive.Tools.Resource.{Written, resource_path}
use mcp_pipedrive.Client.Exchange.{Services}
use mcp_pipedrive.Prelude.{Bool, String, false, true}
use mcp_pipedrive.Prelude.Int.{is_positive, ℤ}
use mcp_pipedrive.Tools.Activities.{
  ActivitiesUpdateParams, activities_create, activities_delete, activities_update,
}
use mcp_pipedrive.Tools.Batch.{ActivitiesCreateParams}
use mcp_pipedrive.Tools.DealProducts.{
  DealProductsAttachParams, DealProductsUpdateParams, deal_products_attach, deal_products_detach,
  deal_products_update,
}
use mcp_pipedrive.Tools.Deals.{DealsCreateParams, DealsUpdateParams}
use mcp_pipedrive.Tools.Deals.Write.{
  deals_archive, deals_create, deals_delete, deals_unarchive, deals_update,
}
use mcp_pipedrive.Tools.Filters.{
  FiltersCreateParams, FiltersUpdateParams, filters_create, filters_update,
}
use mcp_pipedrive.Tools.Followers.{
  FollowersAddParams, FollowersRemoveParams, followers_add, followers_base_path, followers_remove,
}
use mcp_pipedrive.Tools.Leads.{
  LeadsCreateParams, LeadsUpdateParams, leads_create, leads_delete, leads_update,
}
use mcp_pipedrive.Tools.Notes.{NotesCreateParams, NotesUpdateParams, notes_create, notes_update}
use mcp_pipedrive.Tools.Organizations.{
  OrganizationsCreateParams, OrganizationsUpdateParams, organizations_create, organizations_delete,
  organizations_update,
}
use mcp_pipedrive.Tools.Persons.{
  PersonsCreateParams, PersonsUpdateParams, persons_create, persons_delete, persons_update,
}
use mcp_pipedrive.Tools.Products.{
  ProductsCreateParams, ProductsUpdateParams, products_create, products_delete, products_update,
}
use mcp_pipedrive.Tools.Webhooks.{WebhooksCreateParams, webhooks_create, webhooks_delete}

pub data ResourceWrite : Type 0 where
  create_deal : DealsCreateParams → ResourceWrite
  update_deal : DealsUpdateParams → ResourceWrite
  delete_deal : ℤ → ResourceWrite
  archive_deal : ℤ → ResourceWrite
  unarchive_deal : ℤ → ResourceWrite
  create_person : PersonsCreateParams → ResourceWrite
  update_person : PersonsUpdateParams → ResourceWrite
  delete_person : ℤ → ResourceWrite
  create_organization : OrganizationsCreateParams → ResourceWrite
  update_organization : OrganizationsUpdateParams → ResourceWrite
  delete_organization : ℤ → ResourceWrite
  create_product : ProductsCreateParams → ResourceWrite
  update_product : ProductsUpdateParams → ResourceWrite
  delete_product : ℤ → ResourceWrite
  create_lead : LeadsCreateParams → ResourceWrite
  update_lead : LeadsUpdateParams → ResourceWrite
  delete_lead : String → ResourceWrite
  create_activity : ActivitiesCreateParams → ResourceWrite
  update_activity : ActivitiesUpdateParams → ResourceWrite
  delete_activity : ℤ → ResourceWrite
  create_note : NotesCreateParams → ResourceWrite
  update_note : NotesUpdateParams → ResourceWrite
  create_filter : FiltersCreateParams → ResourceWrite
  update_filter : FiltersUpdateParams → ResourceWrite
  create_webhook : WebhooksCreateParams → ResourceWrite
  delete_webhook : ℤ → ResourceWrite
  attach_product : DealProductsAttachParams → ResourceWrite
  update_attachment : DealProductsUpdateParams → ResourceWrite
  detach_product : ℤ → ℤ → ResourceWrite
  add_follower : String → String → FollowersAddParams → ResourceWrite
  remove_follower : String → String → FollowersRemoveParams → ResourceWrite

-- the path that the answers about what is written start with
abbrev pub root_of : ResourceWrite → String
unfolding followers_base_path
root_of (create_deal _) = "/deals"
root_of (update_deal _) = "/deals"
root_of (delete_deal _) = "/deals"
root_of (archive_deal _) = "/deals"
root_of (unarchive_deal _) = "/deals"
root_of (create_person _) = "/persons"
root_of (update_person _) = "/persons"
root_of (delete_person _) = "/persons"
root_of (create_organization _) = "/organizations"
root_of (update_organization _) = "/organizations"
root_of (delete_organization _) = "/organizations"
root_of (create_product _) = "/products"
root_of (update_product _) = "/products"
root_of (delete_product _) = "/products"
root_of (create_lead _) = "/leads"
root_of (update_lead _) = "/leads"
root_of (delete_lead _) = "/leads"
root_of (create_activity _) = "/activities"
root_of (update_activity _) = "/activities"
root_of (delete_activity _) = "/activities"
root_of (create_note _) = "/notes"
root_of (update_note _) = "/notes"
root_of (create_filter _) = "/filters"
root_of (update_filter _) = "/filters"
root_of (create_webhook _) = "/webhooks"
root_of (delete_webhook _) = "/webhooks"
root_of (attach_product args) = resource_path "/deals" args.deal_id
root_of (update_attachment args) = resource_path "/deals" args.deal_id
root_of (detach_product deal_id _) = resource_path "/deals" deal_id
root_of (add_follower resource _ args) = followers_base_path resource args.id
root_of (remove_follower resource _ args) = followers_base_path resource args.id

-- whether a write drops the answers of version 1, and of version 2
abbrev pub drops_v1 : ResourceWrite → Bool
drops_v1 (attach_product _) = false
drops_v1 (update_attachment _) = false
drops_v1 (detach_product _ _) = false
drops_v1 (add_follower _ _ _) = false
drops_v1 (remove_follower _ _ _) = false
drops_v1 _ = true

abbrev pub drops_v2 : ResourceWrite → Bool
drops_v2 (create_lead _) = false
drops_v2 (update_lead _) = false
drops_v2 (delete_lead _) = false
drops_v2 (create_note _) = false
drops_v2 (update_note _) = false
drops_v2 (create_filter _) = false
drops_v2 (update_filter _) = false
drops_v2 (create_webhook _) = false
drops_v2 (delete_webhook _) = false
drops_v2 (attach_product args) = is_positive args.deal_id
drops_v2 (update_attachment args) = is_positive args.deal_id
drops_v2 (detach_product deal_id _) = is_positive deal_id
drops_v2 _ = true

abbrev pub serves : Bool → Bool → ApiVersion → Bool
serves one two ApiVersion.v1 = one
serves one two ApiVersion.v2 = two
serves one two ApiVersion.v1_legacy = false

-- the versions of the API whose answers a write drops
abbrev pub is_served : ResourceWrite → ApiVersion → Bool
is_served wr v = serves (drops_v1 wr) (drops_v2 wr) v

abbrev pub is_delete : ResourceWrite → Bool
is_delete (delete_deal _) = true
is_delete (delete_person _) = true
is_delete (delete_organization _) = true
is_delete (delete_product _) = true
is_delete (delete_lead _) = true
is_delete (delete_activity _) = true
is_delete (delete_webhook _) = true
is_delete _ = false

module _ {Db : Type 0} (services : Services Db) where
  unfoldable pub handle : Context → ResourceWrite → Tool Db (Reply Written)
  unfolding deals_create deals_update deals_delete deals_archive deals_unarchive persons_create
      persons_update persons_delete organizations_create organizations_update organizations_delete
      products_create products_update products_delete leads_create leads_update leads_delete
      activities_create activities_update activities_delete notes_create notes_update filters_create
      filters_update webhooks_create webhooks_delete deal_products_attach deal_products_update
      deal_products_detach followers_add followers_remove
  handle ctx (create_deal args) = deals_create services ctx args
  handle ctx (update_deal args) = deals_update services ctx args
  handle ctx (delete_deal id) = deals_delete services ctx id
  handle ctx (archive_deal id) = deals_archive services ctx id
  handle ctx (unarchive_deal id) = deals_unarchive services ctx id
  handle ctx (create_person args) = persons_create services ctx args
  handle ctx (update_person args) = persons_update services ctx args
  handle ctx (delete_person id) = persons_delete services ctx id
  handle ctx (create_organization args) = organizations_create services ctx args
  handle ctx (update_organization args) = organizations_update services ctx args
  handle ctx (delete_organization id) = organizations_delete services ctx id
  handle ctx (create_product args) = products_create services ctx args
  handle ctx (update_product args) = products_update services ctx args
  handle ctx (delete_product id) = products_delete services ctx id
  handle ctx (create_lead args) = leads_create services ctx args
  handle ctx (update_lead args) = leads_update services ctx args
  handle ctx (delete_lead id) = leads_delete services ctx id
  handle ctx (create_activity args) = activities_create services ctx args
  handle ctx (update_activity args) = activities_update services ctx args
  handle ctx (delete_activity id) = activities_delete services ctx id
  handle ctx (create_note args) = notes_create services ctx args
  handle ctx (update_note args) = notes_update services ctx args
  handle ctx (create_filter args) = filters_create services ctx args
  handle ctx (update_filter args) = filters_update services ctx args
  handle ctx (create_webhook args) = webhooks_create services ctx args
  handle ctx (delete_webhook id) = webhooks_delete services ctx id
  handle ctx (attach_product args) = deal_products_attach services ctx args
  handle ctx (update_attachment args) = deal_products_update services ctx args
  handle ctx (detach_product deal_id id) = deal_products_detach services ctx deal_id id
  handle ctx (add_follower resource tool_name args) =
      followers_add services resource tool_name ctx args
  handle ctx (remove_follower resource tool_name args) =
      followers_remove services resource tool_name ctx args

-- ===== src/Tools/Writes/Runs.antt =====
-- Every handler of a write runs a write.
use mcp_pipedrive.Tools.Common.{Context}
use mcp_pipedrive.Client.Exchange.{Services}
use mcp_pipedrive.Guard.{guard_delete, guard_write}
use mcp_pipedrive.Prelude.{false, if◌then◌else◌, refl, true, ◌≡◌}
use mcp_pipedrive.Tools.Activities.{
  activities_create, activities_create_write, activities_delete, activities_delete_write,
  activities_update, activities_update_write, saved_activity,
}
use mcp_pipedrive.Tools.DealProducts.{
  attach_write, attachment_update_write, deal_products_attach, deal_products_detach,
  deal_products_update, detach_write, detached_reply, saved_attachment,
}
use mcp_pipedrive.Tools.Deals.Write.{
  archive_write, deals_archive, deals_create, deals_create_write, deals_delete, deals_delete_write,
  deals_set_archived, deals_unarchive, deals_update, deals_update_write, saved_deal,
}
use mcp_pipedrive.Tools.Filters.{
  filters_create, filters_create_write, filters_update, filters_update_write, saved_filter,
}
use mcp_pipedrive.Tools.Followers.{
  added_reply, followers_add, followers_add_write, followers_remove, followers_remove_write,
  removed_reply,
}
use mcp_pipedrive.Tools.Leads.{
  leads_create, leads_create_write, leads_delete, leads_delete_write, leads_update,
  leads_update_write, saved_lead,
}
use mcp_pipedrive.Tools.Notes.{
  notes_create, notes_create_write, notes_update, notes_update_write, saved_note,
}
use mcp_pipedrive.Tools.Organizations.{
  organizations_create, organizations_create_write, organizations_delete,
  organizations_delete_write, organizations_update, organizations_update_write, saved_organization,
}
use mcp_pipedrive.Tools.Persons.{
  persons_create, persons_create_write, persons_delete, persons_delete_write, persons_update,
  persons_update_write, saved_person,
}
use mcp_pipedrive.Tools.Products.{
  products_create, products_create_write, products_delete, products_delete_write, products_update,
  products_update_write, saved_product,
}
use mcp_pipedrive.Tools.Resource.{Write, Written, deleted_reply, run_write}
use mcp_pipedrive.Tools.Webhooks.{
  saved_webhook, webhooks_create, webhooks_create_write, webhooks_delete, webhooks_delete_write,
}
use mcp_pipedrive.Tools.Writes.{
  ResourceWrite, add_follower, archive_deal, attach_product, create_activity, create_deal,
  create_filter, create_lead, create_note, create_organization, create_person, create_product,
  create_webhook, delete_activity, delete_deal, delete_lead, delete_organization, delete_person,
  delete_product, delete_webhook, detach_product, handle, is_delete, remove_follower,
  unarchive_deal, update_activity, update_attachment, update_deal, update_filter, update_lead,
  update_note, update_organization, update_person, update_product,
}
use mcp_pipedrive.Value.{Value, int64, str}

-- the write that a handler runs
unfoldable pub write_of_resource : ResourceWrite → Write
unfolding deals_create_write deals_update_write deals_delete_write archive_write
    persons_create_write persons_update_write persons_delete_write organizations_create_write
    organizations_update_write organizations_delete_write products_create_write
    products_update_write products_delete_write leads_create_write leads_update_write
    leads_delete_write activities_create_write activities_update_write activities_delete_write
    notes_create_write notes_update_write filters_create_write filters_update_write
    webhooks_create_write webhooks_delete_write attach_write attachment_update_write detach_write
    followers_add_write followers_remove_write
write_of_resource (create_deal args) = deals_create_write args
write_of_resource (update_deal args) = deals_update_write args
write_of_resource (delete_deal id) = deals_delete_write id
write_of_resource (archive_deal id) = archive_write "pipedrive.deals.archive" id true
write_of_resource (unarchive_deal id) = archive_write "pipedrive.deals.unarchive" id false
write_of_resource (create_person args) = persons_create_write args
write_of_resource (update_person args) = persons_update_write args
write_of_resource (delete_person id) = persons_delete_write id
write_of_resource (create_organization args) = organizations_create_write args
write_of_resource (update_organization args) = organizations_update_write args
write_of_resource (delete_organization id) = organizations_delete_write id
write_of_resource (create_product args) = products_create_write args
write_of_resource (update_product args) = products_update_write args
write_of_resource (delete_product id) = products_delete_write id
write_of_resource (create_lead args) = leads_create_write args
write_of_resource (update_lead args) = leads_update_write args
write_of_resource (delete_lead id) = leads_delete_write id
write_of_resource (create_activity args) = activities_create_write args
write_of_resource (update_activity args) = activities_update_write args
write_of_resource (delete_activity id) = activities_delete_write id
write_of_resource (create_note args) = notes_create_write args
write_of_resource (update_note args) = notes_update_write args
write_of_resource (create_filter args) = filters_create_write args
write_of_resource (update_filter args) = filters_update_write args
write_of_resource (create_webhook args) = webhooks_create_write args
write_of_resource (delete_webhook id) = webhooks_delete_write id
write_of_resource (attach_product args) = attach_write args
write_of_resource (update_attachment args) = attachment_update_write args
write_of_resource (detach_product deal_id id) = detach_write deal_id id
write_of_resource (add_follower resource tool_name args) =
    followers_add_write resource tool_name args
write_of_resource (remove_follower resource tool_name args) =
    followers_remove_write resource tool_name args

abbrev pub reply_of_resource : ResourceWrite → Value → Written
reply_of_resource (create_deal _) = saved_deal
reply_of_resource (update_deal _) = saved_deal
reply_of_resource (delete_deal id) = deleted_reply (int64 id)
reply_of_resource (archive_deal _) = saved_deal
reply_of_resource (unarchive_deal _) = saved_deal
reply_of_resource (create_person _) = saved_person
reply_of_resource (update_person _) = saved_person
reply_of_resource (delete_person id) = deleted_reply (int64 id)
reply_of_resource (create_organization _) = saved_organization
reply_of_resource (update_organization _) = saved_organization
reply_of_resource (delete_organization id) = deleted_reply (int64 id)
reply_of_resource (create_product _) = saved_product
reply_of_resource (update_product _) = saved_product
reply_of_resource (delete_product id) = deleted_reply (int64 id)
reply_of_resource (create_lead _) = saved_lead
reply_of_resource (update_lead _) = saved_lead
reply_of_resource (delete_lead id) = deleted_reply (str id)
reply_of_resource (create_activity _) = saved_activity
reply_of_resource (update_activity _) = saved_activity
reply_of_resource (delete_activity id) = deleted_reply (int64 id)
reply_of_resource (create_note _) = saved_note
reply_of_resource (update_note _) = saved_note
reply_of_resource (create_filter _) = saved_filter
reply_of_resource (update_filter _) = saved_filter
reply_of_resource (create_webhook _) = saved_webhook
reply_of_resource (delete_webhook id) = deleted_reply (int64 id)
reply_of_resource (attach_product _) = saved_attachment
reply_of_resource (update_attachment _) = saved_attachment
reply_of_resource (detach_product deal_id id) = detached_reply deal_id id
reply_of_resource (add_follower _ _ _) = added_reply
reply_of_resource (remove_follower _ _ args) = removed_reply args.follower_id

pub handle_lem :
    {Db : Type 0} (services : Services Db) (ctx : Context) (wr : ResourceWrite)
    → handle services ctx wr ≡ run_write services ctx (write_of_resource wr) (reply_of_resource wr)
unfolding handle write_of_resource deals_set_archived deals_create deals_update deals_delete
    deals_archive deals_unarchive persons_create persons_update persons_delete organizations_create
    organizations_update organizations_delete products_create products_update products_delete
    leads_create leads_update leads_delete activities_create activities_update activities_delete
    notes_create notes_update filters_create filters_update webhooks_create webhooks_delete
    deal_products_attach deal_products_update deal_products_detach followers_add followers_remove
handle_lem services ctx (create_deal args) = refl
handle_lem services ctx (update_deal args) = refl
handle_lem services ctx (delete_deal id) = refl
handle_lem services ctx (archive_deal id) = refl
handle_lem services ctx (unarchive_deal id) = refl
handle_lem services ctx (create_person args) = refl
handle_lem services ctx (update_person args) = refl
handle_lem services ctx (delete_person id) = refl
handle_lem services ctx (create_organization args) = refl
handle_lem services ctx (update_organization args) = refl
handle_lem services ctx (delete_organization id) = refl
handle_lem services ctx (create_product args) = refl
handle_lem services ctx (update_product args) = refl
handle_lem services ctx (delete_product id) = refl
handle_lem services ctx (create_lead args) = refl
handle_lem services ctx (update_lead args) = refl
handle_lem services ctx (delete_lead id) = refl
handle_lem services ctx (create_activity args) = refl
handle_lem services ctx (update_activity args) = refl
handle_lem services ctx (delete_activity id) = refl
handle_lem services ctx (create_note args) = refl
handle_lem services ctx (update_note args) = refl
handle_lem services ctx (create_filter args) = refl
handle_lem services ctx (update_filter args) = refl
handle_lem services ctx (create_webhook args) = refl
handle_lem services ctx (delete_webhook id) = refl
handle_lem services ctx (attach_product args) = refl
handle_lem services ctx (update_attachment args) = refl
handle_lem services ctx (detach_product deal_id id) = refl
handle_lem services ctx (add_follower resource tool_name args) = refl
handle_lem services ctx (remove_follower resource tool_name args) = refl

pub kind_of_resource :
    (wr : ResourceWrite)
    → (write_of_resource wr).kind ≡ (if is_delete wr then guard_delete else guard_write)
unfolding write_of_resource
kind_of_resource (create_deal args) = refl
kind_of_resource (update_deal args) = refl
kind_of_resource (delete_deal id) = refl
kind_of_resource (archive_deal id) = refl
kind_of_resource (unarchive_deal id) = refl
kind_of_resource (create_person args) = refl
kind_of_resource (update_person args) = refl
kind_of_resource (delete_person id) = refl
kind_of_resource (create_organization args) = refl
kind_of_resource (update_organization args) = refl
kind_of_resource (delete_organization id) = refl
kind_of_resource (create_product args) = refl
kind_of_resource (update_product args) = refl
kind_of_resource (delete_product id) = refl
kind_of_resource (create_lead args) = refl
kind_of_resource (update_lead args) = refl
kind_of_resource (delete_lead id) = refl
kind_of_resource (create_activity args) = refl
kind_of_resource (update_activity args) = refl
kind_of_resource (delete_activity id) = refl
kind_of_resource (create_note args) = refl
kind_of_resource (update_note args) = refl
kind_of_resource (create_filter args) = refl
kind_of_resource (update_filter args) = refl
kind_of_resource (create_webhook args) = refl
kind_of_resource (delete_webhook id) = refl
kind_of_resource (attach_product args) = refl
kind_of_resource (update_attachment args) = refl
kind_of_resource (detach_product deal_id id) = refl
kind_of_resource (add_follower resource tool_name args) = refl
kind_of_resource (remove_follower resource tool_name args) = refl

-- ===== src/Tools/Writes/Outdated.antt =====
-- The paths that a write drops are among them those of what it writes.
use mathlib.Core.List.{List, [], ◌∷◌}
use mathlib.Core.Bool.{false≢true}
use mcp_pipedrive.Client.{ApiVersion}
use mcp_pipedrive.Tools.Writes.{
  serves, ResourceWrite, add_follower, archive_deal, attach_product, create_activity, create_deal,
  create_filter, create_lead, create_note, create_organization, create_person, create_product,
  create_webhook, delete_activity, delete_deal, delete_lead, delete_organization, delete_person,
  delete_product, delete_webhook, detach_product, is_served, remove_follower, root_of,
  unarchive_deal, update_activity, update_attachment, update_deal, update_filter, update_lead,
  update_note, update_organization, update_person, update_product,
}
use mcp_pipedrive.Prelude.{Bool, String, false, if◌then◌else◌, inl, inr, refl, true, ◌≡◌}
use mcp_pipedrive.Prelude.Int.{is_positive, pos, ℤ}
use mcp_pipedrive.Prelude.Text.{is_set}
use mcp_pipedrive.Tools.Activities.{activities_outdated}
use mcp_pipedrive.Tools.DealProducts.{deal_products_outdated, deal_products_path}
use mcp_pipedrive.Tools.Deals.{deals_outdated}
use mcp_pipedrive.Tools.Followers.{followers_base_path}
use mcp_pipedrive.Tools.Leads.{lead_path, leads_outdated}
use mcp_pipedrive.Tools.Organizations.{organizations_outdated}
use mcp_pipedrive.Tools.Persons.{persons_outdated}
use mcp_pipedrive.Tools.Products.{products_outdated}
use mcp_pipedrive.Tools.Resource.{resource_path, stale_paths}
use mcp_pipedrive.Tools.Resource.Forgetting.{Drops, stale_paths-Drops}
use mcp_pipedrive.Tools.Writes.Runs.{write_of_resource}

both_Drops :
    (root : String) (id : ℤ) (v : ApiVersion)
    → serves true true v ≡ true
    → Drops v root (stale_paths root id)
both_Drops root id ApiVersion.v1 h = (stale_paths-Drops root id).1
both_Drops root id ApiVersion.v2 h = (stale_paths-Drops root id).0
both_Drops root id ApiVersion.v1_legacy h = absurd (false≢true h)

v1_Drops :
    (root : String) (v : ApiVersion)
    → serves true false v ≡ true
    → Drops v root ((ApiVersion.v1, root) ∷ [])
v1_Drops root ApiVersion.v1 h = inl (refl, refl)
v1_Drops root ApiVersion.v2 h = absurd (false≢true h)
v1_Drops root ApiVersion.v1_legacy h = absurd (false≢true h)

v2_Drops :
    (root : String) (v : ApiVersion)
    → serves false true v ≡ true
    → Drops v root ((ApiVersion.v2, root) ∷ [])
v2_Drops root ApiVersion.v1 h = absurd (false≢true h)
v2_Drops root ApiVersion.v2 h = inl (refl, refl)
v2_Drops root ApiVersion.v1_legacy h = absurd (false≢true h)

leads_Drops :
    (id : String) (v : ApiVersion)
    → serves true false v ≡ true
    → Drops v "/leads" (leads_outdated id)
unfolding leads_outdated
leads_Drops id ApiVersion.v1 h = by_id (is_set id)
  where
    by_id :
        (b : Bool)
        → let lists : List (ApiVersion × String) =
            (ApiVersion.v1, "/leads") ∷ (ApiVersion.v1, "/leads/search") ∷ [] in
          Drops ApiVersion.v1 "/leads" (if b then (ApiVersion.v1, lead_path id) ∷ lists else lists)
    by_id true = inr (inl (refl, refl))
    by_id false = inl (refl, refl)
leads_Drops id ApiVersion.v2 h = absurd (false≢true h)
leads_Drops id ApiVersion.v1_legacy h = absurd (false≢true h)

activities_Drops :
    (id : ℤ) (v : ApiVersion)
    → serves true true v ≡ true
    → Drops v "/activities" (activities_outdated id)
unfolding activities_outdated
activities_Drops id v h = by_id (is_positive id) v h
  where
    by_id :
        (b : Bool) (v : ApiVersion)
        → serves true true v ≡ true
        → let lists : List (ApiVersion × String) =
            (ApiVersion.v2, "/activities") ∷ (ApiVersion.v1, "/activities") ∷ [] in
          Drops v "/activities" (
            if b
            then (ApiVersion.v2, resource_path "/activities" id)
              ∷ (ApiVersion.v1, resource_path "/activities" id)
              ∷ lists
            else lists)
    by_id true ApiVersion.v2 h = inr (inr (inl (refl, refl)))
    by_id true ApiVersion.v1 h = inr (inr (inr (inl (refl, refl))))
    by_id false ApiVersion.v2 h = inl (refl, refl)
    by_id false ApiVersion.v1 h = inr (inl (refl, refl))
    by_id b ApiVersion.v1_legacy h = absurd (false≢true h)

attachments_Drops :
    (deal_id : ℤ) (v : ApiVersion)
    → serves false (is_positive deal_id) v ≡ true
    → Drops v (resource_path "/deals" deal_id) (deal_products_outdated deal_id)
unfolding deal_products_outdated
attachments_Drops deal_id ApiVersion.v1 h = absurd (false≢true h)
attachments_Drops deal_id ApiVersion.v2 h = by_id (is_positive deal_id) h
  where
    by_id :
        (b : Bool)
        → b ≡ true
        → let paths : List (ApiVersion × String) =
            (ApiVersion.v2, deal_products_path deal_id)
            ∷ (ApiVersion.v2, resource_path "/deals" deal_id)
            ∷ [] in
          Drops ApiVersion.v2 (resource_path "/deals" deal_id) (if b then paths else [])
    by_id true h = inr (inl (refl, refl))
    by_id false h = absurd (false≢true h)
attachments_Drops deal_id ApiVersion.v1_legacy h = absurd (false≢true h)

pub outdated_of_resource :
    (wr : ResourceWrite) (v : ApiVersion)
    → is_served wr v ≡ true
    → Drops v (root_of wr) (write_of_resource wr).outdated
unfolding write_of_resource deals_outdated persons_outdated organizations_outdated products_outdated
    followers_base_path
outdated_of_resource (create_deal _) v = both_Drops "/deals" (pos 0) v
outdated_of_resource (update_deal args) v = both_Drops "/deals" args.id v
outdated_of_resource (delete_deal id) v = both_Drops "/deals" id v
outdated_of_resource (archive_deal id) v = both_Drops "/deals" id v
outdated_of_resource (unarchive_deal id) v = both_Drops "/deals" id v
outdated_of_resource (create_person _) v = both_Drops "/persons" (pos 0) v
outdated_of_resource (update_person args) v = both_Drops "/persons" args.id v
outdated_of_resource (delete_person id) v = both_Drops "/persons" id v
outdated_of_resource (create_organization _) v = both_Drops "/organizations" (pos 0) v
outdated_of_resource (update_organization args) v = both_Drops "/organizations" args.id v
outdated_of_resource (delete_organization id) v = both_Drops "/organizations" id v
outdated_of_resource (create_product _) v = both_Drops "/products" (pos 0) v
outdated_of_resource (update_product args) v = both_Drops "/products" args.id v
outdated_of_resource (delete_product id) v = both_Drops "/products" id v
outdated_of_resource (create_lead _) v = leads_Drops "" v
outdated_of_resource (update_lead args) v = leads_Drops args.id v
outdated_of_resource (delete_lead id) v = leads_Drops id v
outdated_of_resource (create_activity _) v = activities_Drops (pos 0) v
outdated_of_resource (update_activity args) v = activities_Drops args.id v
outdated_of_resource (delete_activity id) v = activities_Drops id v
outdated_of_resource (create_note _) v = v1_Drops "/notes" v
outdated_of_resource (update_note _) v = v1_Drops "/notes" v
outdated_of_resource (create_filter _) v = v1_Drops "/filters" v
outdated_of_resource (update_filter _) v = v1_Drops "/filters" v
outdated_of_resource (create_webhook _) v = v1_Drops "/webhooks" v
outdated_of_resource (delete_webhook _) v = v1_Drops "/webhooks" v
outdated_of_resource (attach_product args) v = attachments_Drops args.deal_id v
outdated_of_resource (update_attachment args) v = attachments_Drops args.deal_id v
outdated_of_resource (detach_product deal_id _) v = attachments_Drops deal_id v
outdated_of_resource (add_follower resource _ args) v =
    v2_Drops (followers_base_path resource args.id) v
outdated_of_resource (remove_follower resource _ args) v =
    v2_Drops (followers_base_path resource args.id) v

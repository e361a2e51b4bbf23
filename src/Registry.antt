-- ===== src/Registry.antt =====
-- tools/registry.go: which tools the server registers at its start. A tool is its name here.
pub mod Laws
mod Examples
use mathlib.Core.List.{List, [], ◌∷◌, ◌++◌}
use mcp_pipedrive.Prelude.{Bool, String, any, if◌then◌else◌, is_empty, keep, not, ℕ, ◌&&◌, ◌+◌}
use mcp_pipedrive.Prelude.Text.{str_eq}

pub record RegistrationConfig : Type 0 where
  pub allowed_tools : List String
  pub admin_tools_enabled : Bool

abbrev pub admin_tool_names : List String
admin_tool_names = "pipedrive.cache.clear" ∷ "pipedrive.cache.invalidate" ∷ []

abbrev pub all_tools : List String
all_tools =
    "pipedrive.context.get" ∷ "pipedrive.deals.list" ∷ "pipedrive.deals.get"
    ∷ "pipedrive.deals.search" ∷ "pipedrive.deals.create" ∷ "pipedrive.deals.update"
    ∷ "pipedrive.deals.delete" ∷ "pipedrive.deals.archive" ∷ "pipedrive.deals.unarchive"
    ∷ "pipedrive.deals.products.list" ∷ "pipedrive.deals.products.attach"
    ∷ "pipedrive.deals.products.update" ∷ "pipedrive.deals.products.detach"
    ∷ "pipedrive.deals.followers.list" ∷ "pipedrive.deals.followers.add"
    ∷ "pipedrive.deals.followers.remove" ∷ "pipedrive.persons.list" ∷ "pipedrive.persons.get"
    ∷ "pipedrive.persons.search" ∷ "pipedrive.persons.create" ∷ "pipedrive.persons.update"
    ∷ "pipedrive.persons.delete" ∷ "pipedrive.persons.followers.list"
    ∷ "pipedrive.persons.followers.add" ∷ "pipedrive.persons.followers.remove"
    ∷ "pipedrive.organizations.list" ∷ "pipedrive.organizations.get"
    ∷ "pipedrive.organizations.search" ∷ "pipedrive.organizations.create"
    ∷ "pipedrive.organizations.update" ∷ "pipedrive.organizations.delete"
    ∷ "pipedrive.organizations.followers.list" ∷ "pipedrive.organizations.followers.add"
    ∷ "pipedrive.organizations.followers.remove" ∷ "pipedrive.products.list"
    ∷ "pipedrive.products.get" ∷ "pipedrive.products.search" ∷ "pipedrive.products.create"
    ∷ "pipedrive.products.update" ∷ "pipedrive.products.delete" ∷ "pipedrive.leads.list"
    ∷ "pipedrive.leads.get" ∷ "pipedrive.leads.search" ∷ "pipedrive.leads.create"
    ∷ "pipedrive.leads.update" ∷ "pipedrive.leads.delete" ∷ "pipedrive.activities.list"
    ∷ "pipedrive.activities.get" ∷ "pipedrive.activities.create" ∷ "pipedrive.activities.update"
    ∷ "pipedrive.activities.delete" ∷ "pipedrive.activities.batch_create"
    ∷ "pipedrive.deal_fields.add_option" ∷ "pipedrive.notes.list" ∷ "pipedrive.notes.create"
    ∷ "pipedrive.notes.update" ∷ "pipedrive.filters.list" ∷ "pipedrive.filters.create"
    ∷ "pipedrive.filters.update" ∷ "pipedrive.mail.threads.list" ∷ "pipedrive.mail.threads.get"
    ∷ "pipedrive.mail.messages.get" ∷ "pipedrive.deals.mail.list" ∷ "pipedrive.webhooks.list"
    ∷ "pipedrive.webhooks.create" ∷ "pipedrive.webhooks.delete" ∷ "pipedrive.cache.stats"
    ∷ "pipedrive.cache.clear" ∷ "pipedrive.cache.invalidate" ∷ []

-- What AddAllTools leaves: the tools on the server in their order, the counts that it logs, and
-- the allowlist entries that it warns about.
pub record Registration : Type 0 where
  pub tools : List String
  pub registered : ℕ
  pub skipped_admin : ℕ
  pub skipped_allowlist : ℕ
  pub unknown : List String

-- one round of the loop over the tools
unfoldable pub add_tool : RegistrationConfig → Registration → String → Registration
add_tool cfg r name =
    if any (str_eq name) admin_tool_names && not cfg.admin_tools_enabled
    then record r { skipped_admin = r.skipped_admin + 1 }
    else if not (is_empty cfg.allowed_tools) && not (any (str_eq name) cfg.allowed_tools)
    then record r { skipped_allowlist = r.skipped_allowlist + 1 }
    else record r { tools = r.tools ++ name ∷ []; registered = r.registered + 1 }

unfoldable pub add_each : RegistrationConfig → Registration → List String → Registration
unfolding add_tool
add_each cfg r [] = r
add_each cfg r (name ∷ names) = add_each cfg (add_tool cfg r name) names

-- the loop over the allowlist
unfoldable pub unknown_tools : List String → List String → List String
unknown_tools known allowed = keep (λ name. not (any (str_eq name) known)) allowed

-- AddAllTools over a list of tools; the server calls it with `all_tools`
unfoldable pub add_all_tools : List String → RegistrationConfig → Registration
unfolding add_each unknown_tools
add_all_tools all cfg =
    let r =
      add_each cfg
        (record {
          tools = [];
          registered = 0;
          skipped_admin = 0;
          skipped_allowlist = 0;
          unknown = [];
        })
        all in
    record r { unknown = unknown_tools all cfg.allowed_tools }

-- ===== src/Tools.antt =====
-- tools/: the handlers of the MCP tools.
pub mod Common
pub mod Examples
pub mod Steps
mod Limits
pub mod Resource
pub mod Persons
pub mod Organizations
pub mod Products
pub mod Leads
pub mod Activities
pub mod Notes
pub mod DealProducts
pub mod Followers
pub mod Filters
pub mod Webhooks
pub mod Calls
pub mod Metadata
pub mod Writes
pub mod Deals
pub mod Fields
pub mod Batch
pub mod Mail
pub mod Admin

-- ===== src/Normalize.antt =====
-- pipedrive/normalize.go and normalize_mail.go: the stable shapes of the payloads of both API
-- versions. A nil slice and an empty one are both [], since both are left out of the JSON.
pub mod Lists
pub mod Deal
pub mod Person
pub mod Activity
pub mod Product
pub mod Lead
pub mod Shapes
pub mod Mail
mod Examples
unfoldable pub use Lists.*

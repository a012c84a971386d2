-- ===== src/QueryApi.antt =====
-- The read service, applications/backend/query-api/src/query_catalog_read.
pub mod Contract
pub mod Authorization
pub mod Catalog
pub mod Detail
pub mod Explanation
pub mod Image
pub mod Vocabulary
pub mod Subscription
pub mod Handoff
pub mod Query
pub mod Endpoint
pub mod Documents
mod Tests

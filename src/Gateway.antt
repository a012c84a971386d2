-- ===== src/Gateway.antt =====
-- applications/backend/graphql-gateway: the public GraphQL endpoint in front of the services. The
-- modules below are named for its parts; each names the file that it models.
pub mod Failure
pub mod Allowlist
pub mod Document
pub mod Request
pub mod Response
pub mod Relay
pub mod Endpoint
mod Tests

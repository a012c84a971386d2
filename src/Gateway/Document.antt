-- ===== src/Gateway/Document.antt =====
-- applications/backend/graphql-gateway/src/gateway_routing/graphql/operation_allowlist.rs: the
-- parser of a document. A document is the list of its characters, and an index into it is what
-- stands behind the index. Each byte that the source tests is ASCII, and what is not ASCII is
-- passed over, so that a scan by characters passes the same texts as the source's scan by bytes.
-- A `while` is a `loop` whose fuel is more than the characters that are left.
pub mod Scan
pub mod Parser
pub mod Ends

-- ===== src/Firestore.antt =====
-- The crate packages/rust/shared-firestore: readers of document values (Value), the hosts and
-- statuses of requests to Firestore (Http), and what its users share (Document).
pub mod Value
pub mod Http
pub mod Document

-- ===== src/CommandApi.antt =====
-- applications/backend/command-api: the service that accepts commands. The modules below are
-- named for its parts; each names the file that it models.
pub mod Contract
pub mod Response
pub mod MutationResponse
pub mod Request
pub mod Dispatch
pub mod Store
pub mod Acceptance
pub mod MutationRequest
pub mod MutationStore
pub mod MutationCommand
pub mod MutationAcceptance
pub mod Endpoint
pub mod FirestoreServer
pub mod FirestoreCommandStore
pub mod FirestoreMutationStore
pub mod StubVerifier
pub mod PubsubDispatch
mod Tests
mod MutationTests
mod FirestoreTests
mod ReplayTests

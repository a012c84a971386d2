-- ===== src/Lib.antt =====
-- Verification library of the Rust services of vocastock: a command service
-- (applications/backend/command-api) accepts commands of authenticated actors over HTTP,
-- records them in a store under the idempotency key that each command carries, and hands work
-- to a dispatcher; a read service (applications/backend/query-api) answers with the records of
-- an actor; a gateway (applications/backend/graphql-gateway) lets allowlisted GraphQL
-- operations through to the services; packages/rust/shared-pubsub publishes messages;
-- packages/rust/shared-auth holds what the services know of actors and tokens.
--
-- Prelude, Text and TextMap are shared: the result type with `?` as bind, what the services use
-- of str, char and UTF-8 over native texts, and maps with text keys. Lengths of texts are in
-- bytes, as in Rust.
--
-- Auth is packages/rust/shared-auth/src/lib.rs. The files of CommandApi are those of
-- applications/backend/command-api/src/register_command_api/: Contract is
-- runtime/service_contract.rs; Request is command/request.rs; Response is command/response.rs;
-- MutationResponse is command/mutation_response.rs; Dispatch is runtime/dispatch_port.rs; Store
-- with Store.Keys is runtime/command_store.rs; Acceptance is accept_register_command of
-- command/acceptance.rs; MutationRequest and MutationCommand are the two halves of
-- command/mutation_request.rs; MutationStore is runtime/mutation_command_store.rs;
-- MutationAcceptance is command/mutation_acceptance.rs; FirestoreCommandStore is
-- runtime/firestore_command_store.rs, FirestoreMutationStore is
-- runtime/firestore_mutation_command_store.rs, FirestoreServer is what the two share, and
-- FirestoreServer.Memory a server in memory; StubVerifier is runtime/stub_token_verifier.rs;
-- Endpoint with Endpoint.Failures is http/endpoint.rs. PubsubDispatch is
-- runtime/pubsub_dispatch_port.rs.
--
-- Gateway.Failure is
-- applications/backend/graphql-gateway/src/gateway_routing/graphql/failure_envelope.rs, and
-- Gateway.Allowlist with Gateway.Document.Scan and Gateway.Document.Parser is
-- graphql/operation_allowlist.rs beside it: the decision about an operation, the functions that
-- pass over a part of a document, and the parser. PubSub.Base64 is encode_base64 of
-- packages/rust/shared-pubsub/src/lib.rs; bytes are numbers below 256. PubSub.Message is the
-- message type of that file. Gateway.Request and Gateway.Response are graphql/public_request.rs
-- and graphql/public_response.rs; Gateway.Relay is downstream/relay_client.rs with
-- command_relay.rs and query_relay.rs (Services) and generic_relay.rs (Generic) beside it;
-- Gateway.Endpoint is runtime/http_endpoint.rs and runtime/service_contract.rs. The services
-- behind the gateway are a parameter with a state, which a request takes and returns.
--
-- The files of QueryApi are those of applications/backend/query-api/src/query_catalog_read/:
-- Contract is runtime/service_contract.rs; Authorization is runtime/authorization.rs and
-- runtime/stub_token_verifier.rs; Catalog, Explanation, Image, Vocabulary, Subscription and
-- Handoff are catalog, explanation_detail, image_detail, vocabulary_expression_detail,
-- subscription_status and actor_handoff_status, where Detail is what the three details share,
-- and Documents with Documents.Explanations their firestore_source.rs; Query and Endpoint are
-- http/endpoint.rs. Percent is the percent coding of three crates: percent_encode of the
-- gateway (gateway_routing/downstream/generic_relay.rs), percent_encode_path of
-- packages/rust/shared-firestore/src/http.rs, and percent_decode of query-api.
--
-- Firestore.Value and Firestore.Http are packages/rust/shared-firestore/src/value.rs and
-- http.rs, and Firestore.Document is the path of a document and the first steps of its readers.
-- Json is the data type of serde_json values.
--
-- State is passed explicitly: a store with state S takes it and returns the next one, a
-- dispatcher with state D does the same, and Outcome, MutationOutcome and Backend are what a
-- call leaves. The mutex of the in-memory store is held for one call of the trait, so such a
-- call is one step; a sequence of commands is a list, run in its order, and commands that
-- interleave between the plan and the commit of one another are not modelled.
--
-- Parameters stand for code outside the repository: serde_json at each envelope (from_json, the
-- fields of Json), str::to_lowercase, the token verifier, and for PubsubDispatch the
-- environment, the JSON writer and the publisher. MutationStore.KeepsRecords is the contract
-- that the documentation of the trait gives, as far as a commit is written, since an error of
-- the write is only logged; FirestoreMutationStore.Contract is the store over Firestore as such
-- a store. Firestore itself is a parameter with a state: Server has its requests, and
-- StoresDocuments is what its documentation says of a document that is created under plain
-- names while the server can be reached; a body is text in the source, and of any type here.
--
-- Loops are recursion on fuel (Prelude.Loops): the loops of Gateway.Document have one more than
-- the characters that are left, where each round passes at least one, and Text.Decimal has the
-- number itself plus one, more than it has digits. Not modelled are sockets, threads,
-- environment variables, the HTTP clients of the publisher and of the gateway, and the workers
-- and clients in other languages.
pub mod Prelude
pub mod Text
pub mod TextMap
pub mod Auth
pub mod CommandApi
pub mod Gateway
pub mod Firestore
pub mod Json
pub mod Percent
pub mod PubSub
pub mod QueryApi

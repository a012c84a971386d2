-- ===== src/CommandApi/FirestoreMutationStore.antt =====
-- applications/backend/command-api/src/register_command_api/runtime/firestore_mutation_command_store.rs
-- The store is one of the trait MutationCommandStore, over the states of the server.
pub mod Laws
pub mod Contract
use text.Mathlib.Text.{◌==◌}
use vocastock.Prelude.{String, Bool, ◌&&◌, Option, none, some, List, [], ◌∷◌, Result, if◌then◌else◌}
use vocastock.Json.{Value, Fields, field, nil, ◌>>=◌}
use vocastock.Firestore.Http.{FirestoreHttpError}
use vocastock.Firestore.Value.{read_string_field}
use vocastock.Firestore.Document.{FirestoreSource}
use vocastock.CommandApi.MutationResponse.{CommandResponseEnvelope}
use vocastock.CommandApi.MutationStore.{
  MutationFingerprint, IdempotencyDecision, replay, conflict, fresh, MutationCommandStore,
}
use vocastock.CommandApi.FirestoreServer.{Server, string_value, document_of, fields_at, put}

pub record MutationIdempotencyDocument : Type 0 where
  pub command_name : String
  pub payload_hash : String
  pub response_json : String

unfoldable pub parse_mutation_fields : Fields → Option MutationIdempotencyDocument
parse_mutation_fields fields = do
  command_name ← read_string_field fields "commandName"
  payload_hash ← read_string_field fields "payloadHash"
  response_json ← read_string_field fields "responseJson"
  some (record {
    command_name = command_name;
    payload_hash = payload_hash;
    response_json = response_json;
  })

unfoldable pub mutation_fields : MutationIdempotencyDocument → Fields
mutation_fields doc = field "commandName" (string_value doc.command_name) (
    field "payloadHash" (string_value doc.payload_hash)
      (field "responseJson" (string_value doc.response_json) nil))

-- `serde_json` at the envelope.
pub record EnvelopeJson : Type 0 where
  pub write : CommandResponseEnvelope → String
  pub read : String → Option CommandResponseEnvelope

abbrev pub replay_or_conflict : Option CommandResponseEnvelope → IdempotencyDecision
replay_or_conflict (some envelope) = replay envelope
replay_or_conflict none = conflict

module _ (json : EnvelopeJson) where
  abbrev pub decision_of :
      Option MutationIdempotencyDocument → MutationFingerprint → IdempotencyDecision
  decision_of none fingerprint = fresh
  decision_of (some document) fingerprint =
      if document.command_name == fingerprint.command_name
        && document.payload_hash == fingerprint.payload_hash
      then replay_or_conflict (json.read document.response_json)
      else conflict

  abbrev pub mutation_document :
      MutationFingerprint → CommandResponseEnvelope → MutationIdempotencyDocument
  mutation_document fingerprint envelope = record {
    command_name = fingerprint.command_name;
    payload_hash = fingerprint.payload_hash;
    response_json = json.write envelope;
  }

module _ {S B : Type 0} (server : Server S B) (json : EnvelopeJson) (source : FirestoreSource) where
  unfoldable pub fetch : String → String → S → Option MutationIdempotencyDocument
  fetch actor identifier s =
      fields_at server source s "mutationIdempotency" actor identifier
      >>= (λ fields. parse_mutation_fields fields)

  unfoldable pub idempotency_decision :
      String → String → MutationFingerprint → S → IdempotencyDecision
  idempotency_decision actor_reference idempotency_key fingerprint s =
      decision_of json (fetch actor_reference idempotency_key s) fingerprint

  unfoldable pub put_mutation :
      String → String → MutationIdempotencyDocument → S → Result B FirestoreHttpError × S
  put_mutation actor identifier document s =
      put server source "mutationIdempotency"
        "?updateMask.fieldPaths=commandName&updateMask.fieldPaths=payloadHash&updateMask.fieldPaths=responseJson"
        actor identifier (document_of (mutation_fields document)) s

  -- An error of the write is only logged.
  unfoldable pub commit_mutation :
      String → String → MutationFingerprint → CommandResponseEnvelope → S → S
  commit_mutation actor_reference idempotency_key fingerprint envelope s =
      (put_mutation actor_reference idempotency_key (mutation_document json fingerprint envelope)
        s).1

  unfoldable pub firestore_mutation_store : MutationCommandStore S
  firestore_mutation_store = record {
    idempotency_decision = idempotency_decision;
    commit_mutation = commit_mutation;
  }

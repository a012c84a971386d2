-- ===== src/CommandApi/FirestoreCommandStore.antt =====
-- applications/backend/command-api/src/register_command_api/runtime/firestore_command_store.rs
-- The store is one of the trait CommandStore, over the states of the server. Its
-- `duplicate_reuse_plan` has the body of its namesake in command_store.rs.
pub mod Laws
use text.Mathlib.Text.{◌==◌}
use vocastock.Prelude.{
  String, Bool, true, false, ◌&&◌, Option, none, some, List, [], ◌∷◌, Result, if◌then◌else◌,
}
use vocastock.Text.{concat}
use vocastock.Json.{
  Value, Fields, bool, object, field, nil, get_field, as_bool, as_object, ◌>>=◌, unwrap_or,
}
use vocastock.Firestore.Http.{FirestoreHttpError}
use vocastock.Firestore.Value.{read_string_field}
use vocastock.Firestore.Document.{FirestoreSource}
use vocastock.CommandApi.Contract.{registered_state}
use vocastock.CommandApi.Response.{AcceptedCommandResult}
use vocastock.CommandApi.Request.{RegisterVocabularyExpressionCommand}
use vocastock.CommandApi.Store.{
  StoredRegistration, PlannedNewRegistration, PlannedReuseRegistration, StoreDecision,
  replay_existing, conflict, CommandStore, same_bool, plan_registration,
}
use vocastock.CommandApi.FirestoreServer.{Server, string_value, document_of, fields_at, put}

pub record IdempotencyDocument : Type 0 where
  pub command_name : String
  pub fingerprint_hash : String
  pub start_explanation : Bool
  pub response_json : String

-- `serde_json` at the result.
pub record ResultJson : Type 0 where
  pub write : AcceptedCommandResult → String
  pub read : String → Option AcceptedCommandResult

abbrev pub bool_text : Bool → String
bool_text true = "true"
bool_text false = "false"

unfoldable pub register_fingerprint_hash : String → Bool → String
register_fingerprint_hash normalized_text start_explanation =
    concat (bool_text start_explanation ∷ "|" ∷ normalized_text ∷ [])

unfoldable pub for_register :
    ResultJson → String → Bool → AcceptedCommandResult → IdempotencyDocument
for_register json normalized_text start_explanation result = record {
  command_name = "registerVocabularyExpression";
  fingerprint_hash = register_fingerprint_hash normalized_text start_explanation;
  start_explanation = start_explanation;
  response_json = json.write result;
}

unfoldable pub matches_fingerprint : IdempotencyDocument → String → Bool → Bool
matches_fingerprint doc normalized_text start_explanation =
    doc.command_name == "registerVocabularyExpression"
    && same_bool doc.start_explanation start_explanation
    && doc.fingerprint_hash == register_fingerprint_hash normalized_text start_explanation

unfoldable pub parse_registration_fields : Fields → Option StoredRegistration
parse_registration_fields fields = do
  vocabulary_expression ← read_string_field fields "vocabularyExpression"
  registration_state ← read_string_field fields "registrationState"
  explanation_state ← read_string_field fields "explanationState"
  some (record {
    vocabulary_expression = vocabulary_expression;
    registration_state = registration_state;
    explanation_state = explanation_state;
  })

unfoldable pub read_bool_field : Fields → String → Option Bool
read_bool_field fields key = do
  value ← get_field key fields
  wrapped ← as_object value
  boolean ← get_field "booleanValue" wrapped
  as_bool boolean

unfoldable pub parse_idempotency_fields : Fields → Option IdempotencyDocument
parse_idempotency_fields fields = do
  command_name ← read_string_field fields "commandName"
  fingerprint_hash ← read_string_field fields "fingerprintHash"
  response_json ← read_string_field fields "responseJson"
  some (record {
    command_name = command_name;
    fingerprint_hash = fingerprint_hash;
    start_explanation = unwrap_or (read_bool_field fields "startExplanation") true;
    response_json = response_json;
  })

unfoldable pub registration_fields : StoredRegistration → Fields
registration_fields registration =
    field "vocabularyExpression" (string_value registration.vocabulary_expression) (
      field "registrationState" (string_value registration.registration_state)
        (field "explanationState" (string_value registration.explanation_state) nil))

unfoldable pub idempotency_fields : IdempotencyDocument → Fields
idempotency_fields doc = field "commandName" (string_value doc.command_name) (
    field "fingerprintHash" (string_value doc.fingerprint_hash) (
      field "startExplanation" (object (field "booleanValue" (bool doc.start_explanation) nil))
        (field "responseJson" (string_value doc.response_json) nil)))

abbrev pub replay_or_conflict : Option AcceptedCommandResult → StoreDecision
replay_or_conflict (some result) = replay_existing result
replay_or_conflict none = conflict

-- The decision on what is fetched for a command.
unfoldable pub plan_fetched :
    ResultJson
    → RegisterVocabularyExpressionCommand
    → Option IdempotencyDocument
    → Option StoredRegistration
    → StoreDecision
plan_fetched json command (some existing) registration =
    if matches_fingerprint existing command.normalized_text command.start_explanation
    then replay_or_conflict (json.read existing.response_json)
    else conflict
plan_fetched json command none registration = plan_registration command registration

module _ {S B : Type 0} (server : Server S B) (json : ResultJson) (source : FirestoreSource) where
  unfoldable pub fetch_registration : String → String → S → Option StoredRegistration
  fetch_registration actor normalized_text s =
      fields_at server source s "registrations" actor normalized_text
      >>= (λ fields. parse_registration_fields fields)

  unfoldable pub fetch_idempotency : String → String → S → Option IdempotencyDocument
  fetch_idempotency actor idempotency_key s =
      fields_at server source s "commandIdempotency" actor idempotency_key
      >>= (λ fields. parse_idempotency_fields fields)

  unfoldable pub put_registration :
      String → String → StoredRegistration → S → Result B FirestoreHttpError × S
  put_registration actor normalized_text registration s =
      put server source "registrations"
        "?updateMask.fieldPaths=vocabularyExpression&updateMask.fieldPaths=registrationState&updateMask.fieldPaths=explanationState"
        actor normalized_text (document_of (registration_fields registration)) s

  unfoldable pub put_idempotency :
      String → String → IdempotencyDocument → S → Result B FirestoreHttpError × S
  put_idempotency actor idempotency_key doc s =
      put server source "commandIdempotency"
        "?updateMask.fieldPaths=commandName&updateMask.fieldPaths=fingerprintHash&updateMask.fieldPaths=startExplanation&updateMask.fieldPaths=responseJson"
        actor idempotency_key (document_of (idempotency_fields doc)) s

  unfoldable pub firestore_plan : RegisterVocabularyExpressionCommand → S → StoreDecision
  firestore_plan command s =
      let actor = command.actor.actor.as_str in
      plan_fetched json command (fetch_idempotency actor command.idempotency_key s)
        (fetch_registration actor command.normalized_text s)

  -- The two writes of a commit, whose errors are only logged.
  unfoldable pub firestore_commit :
      RegisterVocabularyExpressionCommand → StoredRegistration → AcceptedCommandResult → S → S
  firestore_commit command registration result s =
      let actor = command.actor.actor.as_str in
      let (_, t) = put_registration actor command.normalized_text registration s in
      let doc = for_register json command.normalized_text command.start_explanation result in
      (put_idempotency actor command.idempotency_key doc t).1

  unfoldable pub firestore_commit_new :
      RegisterVocabularyExpressionCommand → PlannedNewRegistration → AcceptedCommandResult → S → S
  firestore_commit_new command planned result s =
      firestore_commit command
        (record {
          vocabulary_expression = planned.vocabulary_expression;
          registration_state = registered_state;
          explanation_state = planned.explanation_state;
        })
        result s

  unfoldable pub firestore_commit_reuse :
      RegisterVocabularyExpressionCommand → PlannedReuseRegistration → AcceptedCommandResult → S → S
  firestore_commit_reuse command planned result s =
      firestore_commit command
        (record {
          vocabulary_expression = planned.existing_registration.vocabulary_expression;
          registration_state = planned.existing_registration.registration_state;
          explanation_state = planned.resulting_explanation_state;
        })
        result s

  unfoldable pub firestore_command_store : CommandStore S
  firestore_command_store = record {
    plan = firestore_plan;
    commit_new = firestore_commit_new;
    commit_reuse = firestore_commit_reuse;
  }

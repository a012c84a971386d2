-- ===== src/QueryApi/Documents.antt =====
-- The sources of the read service over Firestore: the firestore_source.rs of catalog, image_detail,
-- subscription_status and vocabulary_expression_detail in
-- applications/backend/query-api/src/query_catalog_read; that of explanation_detail is Explanations.
pub mod Explanations
pub mod Laws
use text.Mathlib.Text.{◌==◌}
use vocastock.Prelude.{String, ℤ, pos, Bool, Option, none, some, List, [], ◌∷◌, if◌then◌else◌}
use vocastock.Auth.{VerifiedActorContext}
use vocastock.Json.{Value, Fields, get, as_array, ◌>>=◌, unwrap_or, is_given, filter_map}
use vocastock.Firestore.Value.{
  read_string_field, read_nullable_string_field, read_integer_field, read_map_field,
}
use vocastock.Firestore.Document.{
  FirestoreSource, Reader, collection_path, document_path, fetch_value, fields_of,
}
use vocastock.QueryApi.Catalog.{
  WorkflowState, queued, running, retry_scheduled, succeeded, timed_out, failed_final,
  dead_lettered, ProjectionSourceRecord,
}
use vocastock.QueryApi.Image.{ImageDetailRecord}
use vocastock.QueryApi.Subscription.{SubscriptionRecord}
use vocastock.QueryApi.Vocabulary.{VocabularyExpressionDetailRecord}

unfoldable pub map_workflow_state : String → WorkflowState
map_workflow_state status =
    if status == "running"
    then running
    else if status == "retryScheduled"
    then retry_scheduled
    else if status == "succeeded"
    then succeeded
    else if status == "timedOut"
    then timed_out
    else if status == "failedFinal"
    then failed_final
    else if status == "deadLettered"
    then dead_lettered
    else queued

abbrev pub text_if : Option String → String → Option String
text_if none text = none
text_if (some explanation) text = some text

unfoldable pub parse_vocabulary_document : Value → Option ProjectionSourceRecord
parse_vocabulary_document doc = do
  fields ← fields_of doc
  id ← read_string_field fields "id"
  text ← read_string_field fields "text"
  let registration_status = unwrap_or (read_string_field fields "registrationStatus") "active"
  let explanation_status = unwrap_or (read_string_field fields "explanationStatus") "pending"
  let current_explanation = read_string_field fields "currentExplanation"
  some (record {
    vocabulary_expression = id;
    registration_state = registration_status;
    latest_workflow_state = map_workflow_state explanation_status;
    current_explanation_available = is_given current_explanation;
    summary = text_if current_explanation text;
  })

abbrev pub documents_of : Option (List Value) → List ProjectionSourceRecord
documents_of none = []
documents_of (some documents) = filter_map parse_vocabulary_document documents

abbrev pub listing_of : Option Value → List ProjectionSourceRecord
listing_of none = []
listing_of (some payload) =
    documents_of (get "documents" payload >>= (λ documents. as_array documents))

unfoldable pub parse_vocabulary_listing : {B : Type 0} → Reader B → B → List ProjectionSourceRecord
parse_vocabulary_listing reader body = listing_of (reader.from_str body)

unfoldable pub parse_image_document : Value → Option ImageDetailRecord
parse_image_document payload = do
  fields ← fields_of payload
  identifier ← read_string_field fields "id"
  some (record {
    identifier = identifier;
    explanation = unwrap_or (read_string_field fields "explanation") "";
    asset_reference = unwrap_or (read_string_field fields "assetReference") "";
    description = unwrap_or (read_string_field fields "description") "";
    sense_identifier = unwrap_or (read_nullable_string_field fields "senseIdentifier") none;
    sense_label = unwrap_or (read_nullable_string_field fields "senseLabel") none;
  })

unfoldable pub parse_subscription_document : Value → Option SubscriptionRecord
parse_subscription_document payload = do
  fields ← fields_of payload
  state ← read_string_field fields "state"
  plan ← read_string_field fields "plan"
  entitlement ← read_string_field fields "entitlement"
  allowance ← read_map_field fields "allowance"
  some (record {
    state = state;
    plan = plan;
    entitlement = entitlement;
    allowance = record {
      remaining_explanation_generations =
          unwrap_or (read_integer_field allowance "remainingExplanationGenerations") (pos 0);
      remaining_image_generations =
          unwrap_or (read_integer_field allowance "remainingImageGenerations") (pos 0);
    };
  })

unfoldable pub parse_vocabulary_expression_document :
    Value → Option VocabularyExpressionDetailRecord
parse_vocabulary_expression_document payload = do
  fields ← fields_of payload
  identifier ← read_string_field fields "id"
  text ← read_string_field fields "text"
  some (record {
    identifier = identifier;
    text = text;
    registration_status = unwrap_or (read_string_field fields "registrationStatus") "active";
    explanation_status = unwrap_or (read_string_field fields "explanationStatus") "pending";
    image_status = unwrap_or (read_string_field fields "imageStatus") "pending";
    current_explanation = unwrap_or (read_nullable_string_field fields "currentExplanation") none;
    current_image = unwrap_or (read_nullable_string_field fields "currentImage") none;
    registered_at = unwrap_or (read_string_field fields "registeredAt") "";
  })

module _ {B : Type 0} (reader : Reader B) (source : FirestoreSource) where
  unfoldable pub catalog_records_for_actor : VerifiedActorContext → List ProjectionSourceRecord
  catalog_records_for_actor actor_context = listing_of (
      fetch_value reader source
        (collection_path source.project_id actor_context.actor.as_str "vocabularyExpressions"))

  unfoldable pub image_record_for : VerifiedActorContext → String → Option ImageDetailRecord
  image_record_for actor_context identifier =
      fetch_value reader source
        (document_path source.project_id actor_context.actor.as_str "images" identifier)
      >>= (λ payload. parse_image_document payload)

  unfoldable pub subscription_record_for : VerifiedActorContext → Option SubscriptionRecord
  subscription_record_for actor_context =
      fetch_value reader source
        (document_path source.project_id actor_context.actor.as_str "subscription" "current")
      >>= (λ payload. parse_subscription_document payload)

  unfoldable pub vocabulary_record_for :
      VerifiedActorContext → String → Option VocabularyExpressionDetailRecord
  vocabulary_record_for actor_context identifier =
      fetch_value reader source (
        document_path source.project_id actor_context.actor.as_str "vocabularyExpressions"
          identifier)
      >>= (λ payload. parse_vocabulary_expression_document payload)

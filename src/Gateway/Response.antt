-- ===== src/Gateway/Response.antt =====
-- applications/backend/graphql-gateway/src/gateway_routing/graphql/public_response.rs. A response is
-- the value that `wrap_data` writes as JSON.
pub mod Laws
use text.Mathlib.Text.{◌==◌}
use vocastock.Prelude.{
  String, not, ◌&&◌, Option, List, [], ◌∷◌, Result, ok, ◌>>=◌, ◌>>◌, refuse_if, ok_or,
}
use vocastock.Json.{
  Value, Fields, object, field, nil, get_field, as_str, as_bool, as_object, as_array, is_given,
  unwrap_or,
}
use vocastock.Json as Json
use vocastock.CommandApi.Contract.{service_name}
use vocastock.QueryApi.Contract as Query
use vocastock.Gateway.Failure.{GatewayFailure, downstream_invalid_response}

-- A reading of a member of an object.
abbrev pub member : {A : Type 0} → (Value → Option A) → String → Fields → Option A
member read key fields = Json.◌>>=◌ (get_field key fields) read

unfoldable pub require_string : Fields → String → String → Result (Unit {0}) GatewayFailure
require_string payload_object key service =
    refuse_if (not (is_given (member as_str key payload_object)))
      (downstream_invalid_response service)

unfoldable pub require_bool : Fields → String → String → Result (Unit {0}) GatewayFailure
require_bool payload_object key service =
    refuse_if (not (is_given (member as_bool key payload_object)))
      (downstream_invalid_response service)

unfoldable pub require_array : Fields → String → String → Result (Unit {0}) GatewayFailure
require_array payload_object key service =
    refuse_if (not (is_given (member as_array key payload_object)))
      (downstream_invalid_response service)

unfoldable pub require_nested_string :
    Fields → String → String → String → Result (Unit {0}) GatewayFailure
require_nested_string payload_object parent_key child_key service =
    refuse_if
      (not (
        is_given (
          Json.◌>>=◌ (member as_object parent_key payload_object)
            (λ nested. member as_str child_key nested))))
      (downstream_invalid_response service)

unfoldable pub wrap_data : String → Value → Value
wrap_data operation_name payload =
    object (field "data" (object (field operation_name payload nil)) nil)

-- `unwrap_or_default` of a text member.
abbrev pub text_member : String → Fields → String
text_member key fields = unwrap_or (member as_str key fields) ""

unfoldable pub mutation_success_response : Value → Result Value GatewayFailure
mutation_success_response payload = do
  fields ← ok_or (as_object payload) (downstream_invalid_response service_name)
  require_string fields "acceptance" service_name
  require_nested_string fields "target" "vocabularyExpression" service_name
  require_nested_string fields "state" "registration" service_name
  require_nested_string fields "state" "explanation" service_name
  require_string fields "statusHandle" service_name
  require_string fields "message" service_name
  require_bool fields "replayedByIdempotency" service_name
  refuse_if
      (not (text_member "acceptance" fields == "accepted")
        && not (text_member "acceptance" fields == "reused-existing"))
      (downstream_invalid_response service_name)
  ok (wrap_data "registerVocabularyExpression" payload)

unfoldable pub require_item : Value → Result (Unit {0}) GatewayFailure
require_item item = do
  fields ← ok_or (as_object item) (downstream_invalid_response Query.service_name)
  require_string fields "vocabularyExpression" Query.service_name
  require_string fields "registrationState" Query.service_name
  require_string fields "explanationState" Query.service_name
  require_string fields "visibility" Query.service_name
  refuse_if (is_given (get_field "detailPayload" fields))
      (downstream_invalid_response Query.service_name)
  refuse_if
      (not (text_member "visibility" fields == "completed-summary")
        && not (text_member "visibility" fields == "status-only"))
      (downstream_invalid_response Query.service_name)

unfoldable pub require_items : List Value → Result (Unit {0}) GatewayFailure
require_items [] = ok tt
require_items (item ∷ items) = do require_item item; require_items items

unfoldable pub catalog_success_response : Value → Result Value GatewayFailure
catalog_success_response payload = do
  fields ← ok_or (as_object payload) (downstream_invalid_response Query.service_name)
  require_string fields "collectionState" Query.service_name
  require_array fields "items" Query.service_name
  refuse_if
      (not (text_member "collectionState" fields == "empty")
        && not (text_member "collectionState" fields == "populated"))
      (downstream_invalid_response Query.service_name)
  items ← ok_or (member as_array "items" fields) (downstream_invalid_response Query.service_name)
  require_items items
  ok (wrap_data "vocabularyCatalog" payload)

unfoldable pub pass_through_success_response : String → Value → String → Result Value GatewayFailure
pass_through_success_response operation_name payload service = do
  fields ← ok_or (as_object payload) (downstream_invalid_response service)
  ok (wrap_data operation_name payload)

unfoldable pub pass_through_nullable_response : String → Value → Value
pass_through_nullable_response operation_name payload = wrap_data operation_name payload

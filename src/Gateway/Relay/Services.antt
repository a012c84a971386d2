-- ===== src/Gateway/Relay/Services.antt =====
-- applications/backend/graphql-gateway/src/gateway_routing/downstream: command_relay.rs and
-- query_relay.rs.
use text.Mathlib.Text.{◌==◌}
use vocastock.Prelude.{
  ℕ, String, Bool, ◌&&◌, ◌||◌, Option, none, some, [], ◌∷◌, Result, ok, err, ◌>>=◌, ok_or,
  if◌then◌else◌, ◌==◌ as ◌=ℕ=◌,
}
use vocastock.Text.{concat}
use vocastock.Json.{
  Value, bool, string, object, Fields, nil, field, get_field, as_str, as_bool, as_object,
}
use vocastock.CommandApi.Contract.{service_name, register_vocabulary_expression_path}
use vocastock.QueryApi.Contract as Query
use vocastock.Gateway.Failure.{
  GatewayFailure, validation_failed, command_failure, downstream_invalid_response,
  downstream_auth_failed,
}
use vocastock.Gateway.Request.{
  UnifiedGraphqlRequestEnvelope, UnifiedGraphqlRequest, variables_object,
}
use vocastock.Gateway.Response.{member, mutation_success_response, catalog_success_response}
use vocastock.Gateway.Relay.{
  RelayClient, DownstreamHttpResponse, send_query, send_command_json, relayed, auth_message,
  downstream_auth_failure,
}

unfoldable pub required_string_variable : Fields → String → Result String GatewayFailure
required_string_variable variables key =
    ok_or (member as_str key variables)
      (validation_failed (concat ("variables." ∷ key ∷ " must be a non-empty string" ∷ [])))

abbrev pub bool_or_refused : Option Value → String → Result (Option Bool) GatewayFailure
bool_or_refused none key = ok none
bool_or_refused (some value) key =
    ok_or (as_bool value)
      (validation_failed (concat ("variables." ∷ key ∷ " must be a boolean" ∷ [])))
    >>= (λ b. ok (some b))

unfoldable pub optional_bool_variable : Fields → String → Result (Option Bool) GatewayFailure
optional_bool_variable variables key = bool_or_refused (get_field key variables) key

abbrev pub start_fields : Option Bool → Fields
start_fields none = nil
start_fields (some b) = field "startExplanation" (bool b) nil

-- The value that `build_register_command_body` writes.
unfoldable pub build_register_command_body :
    UnifiedGraphqlRequestEnvelope → Result Value GatewayFailure
build_register_command_body envelope = do
  variables ← ok_or (variables_object envelope) (
      validation_failed
        "registerVocabularyExpression requires variables.actor, variables.idempotencyKey, and variables.text")
  actor ← required_string_variable variables "actor"
  idempotency_key ← required_string_variable variables "idempotencyKey"
  text ← required_string_variable variables "text"
  start_explanation ← optional_bool_variable variables "startExplanation"
  ok (
      object (
        field "command" (string "registerVocabularyExpression") (
          field "actor" (string actor) (
            field "idempotencyKey" (string idempotency_key) (
              field "body" (object (field "text" (string text) (start_fields start_explanation)))
                nil)))))

unfoldable pub translate_command_failure : ℕ → Option Value → Result Value GatewayFailure
translate_command_failure status_code payload = do
  value ← ok_or payload (downstream_invalid_response service_name)
  fields ← ok_or (as_object value) (downstream_invalid_response service_name)
  code ← ok_or (member as_str "code" fields) (downstream_invalid_response service_name)
  message ← ok_or (member as_str "message" fields) (downstream_invalid_response service_name)
  let retryable = member as_bool "retryable" fields
  if status_code =ℕ= 409 && code == "idempotency-conflict"
      then err (command_failure "409 Conflict" code message retryable)
      else if status_code =ℕ= 503 && code == "dispatch-failed"
      then err (command_failure "503 Service Unavailable" code message retryable)
      else err (downstream_invalid_response service_name)

-- `downstream_auth_failure` of query_relay.rs, which takes what is forbidden for retryable.
unfoldable pub catalog_auth_failure : String → Option Value → GatewayFailure
catalog_auth_failure status payload =
    downstream_auth_failed status (auth_message payload) (some (status == "403 Forbidden"))

module _ {S : Type 0} (client : RelayClient S) where
  unfoldable pub translate_register_response : DownstreamHttpResponse → Result Value GatewayFailure
  translate_register_response response =
      let payload = client.from_str response.body in
      if response.status_code =ℕ= 202
      then ok_or payload (downstream_invalid_response service_name)
        >>= (λ value. mutation_success_response value)
      else if response.status_code =ℕ= 401
      then err (downstream_auth_failure "401 Unauthorized" payload)
      else if response.status_code =ℕ= 403
      then err (downstream_auth_failure "403 Forbidden" payload)
      else if response.status_code =ℕ= 409 || response.status_code =ℕ= 503
      then translate_command_failure response.status_code payload
      else err (downstream_invalid_response service_name)

  unfoldable pub translate_catalog_response : DownstreamHttpResponse → Result Value GatewayFailure
  translate_catalog_response response =
      let payload = client.from_str response.body in
      if response.status_code =ℕ= 200
      then ok_or payload (downstream_invalid_response Query.service_name)
        >>= (λ value. catalog_success_response value)
      else if response.status_code =ℕ= 401
      then err (catalog_auth_failure "401 Unauthorized" payload)
      else if response.status_code =ℕ= 403
      then err (catalog_auth_failure "403 Forbidden" payload)
      else err (downstream_invalid_response Query.service_name)

  abbrev pub register_sent :
      UnifiedGraphqlRequest → Result Value GatewayFailure → S → Result String GatewayFailure × S
  register_sent request (err failure) s = (err failure, s)
  register_sent request (ok body) s =
      relayed client (λ response. translate_register_response response) service_name
        (send_command_json client register_vocabulary_expression_path request.authorization_header
          request.request_correlation (client.to_string body) s)

  unfoldable pub relay_register_vocabulary_expression :
      UnifiedGraphqlRequest → S → Result String GatewayFailure × S
  relay_register_vocabulary_expression request s =
      register_sent request (build_register_command_body request.envelope) s

  unfoldable pub relay_vocabulary_catalog :
      UnifiedGraphqlRequest → S → Result String GatewayFailure × S
  relay_vocabulary_catalog request s =
      relayed client (λ response. translate_catalog_response response) Query.service_name
        (send_query client Query.vocabulary_catalog_path request.authorization_header
          request.request_correlation s)

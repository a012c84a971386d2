-- ===== src/Gateway/Failure.antt =====
-- applications/backend/graphql-gateway/src/gateway_routing/graphql/failure_envelope.rs
pub mod Laws
use vocastock.Prelude.{
  ℕ, String, Bool, true, false, ◌||◌, Option, some, List, [], ◌∷◌, if◌then◌else◌,
}
use vocastock.Text.{concat, decimal, trim, is_empty, contains}

pub record GatewayFailureEnvelope : Type 0 where
  pub code : String
  pub message : String
  pub retryable : Option Bool

pub record GatewayFailure : Type 0 where
  pub status : String
  pub envelope : GatewayFailureEnvelope

-- `GatewayFailure::new`
unfoldable pub gateway_failure : String → String → String → Option Bool → GatewayFailure
gateway_failure status code message retryable = record {
  status = status;
  envelope = record { code = code; message = message; retryable = retryable };
}

unfoldable pub validation_failed : String → GatewayFailure
validation_failed message =
    gateway_failure "400 Bad Request" "validation-failed" message (some false)

unfoldable pub payload_too_large : ℕ → GatewayFailure
payload_too_large max_length =
    gateway_failure "413 Payload Too Large" "payload-too-large"
      (concat ("request body exceeds maximum size of " ∷ decimal max_length ∷ " bytes" ∷ []))
      (some false)

unfoldable pub unsupported_operation : GatewayFailure
unsupported_operation =
    gateway_failure "400 Bad Request" "unsupported-operation"
      "public GraphQL operation is not allowlisted" (some false)

unfoldable pub ambiguous_operation : GatewayFailure
ambiguous_operation =
    gateway_failure "400 Bad Request" "ambiguous-operation"
      "request must contain exactly one resolvable public GraphQL operation" (some false)

unfoldable pub downstream_unavailable : GatewayFailure
downstream_unavailable =
    gateway_failure "503 Service Unavailable" "downstream-unavailable"
      "downstream service is unavailable" (some true)

unfoldable pub downstream_invalid_response : String → GatewayFailure
downstream_invalid_response service_name =
    gateway_failure "502 Bad Gateway" "downstream-invalid-response"
      (concat (service_name ∷ " returned an invalid response" ∷ [])) (some true)

-- The texts that name a part behind the gateway.
abbrev pub is_internal : String → Bool
is_internal message =
    contains message "http://"
    || contains message "https://"
    || contains message "/commands/"
    || contains message "/vocabulary-catalog"
    || contains message "command-api"
    || contains message "query-api"

unfoldable pub sanitize_message : String → String → String
sanitize_message message fallback =
    let trimmed = trim message in
    if is_empty trimmed || is_internal trimmed then fallback else trimmed

unfoldable pub downstream_auth_failed : String → String → Option Bool → GatewayFailure
downstream_auth_failed status message retryable =
    gateway_failure status "downstream-auth-failed"
      (sanitize_message message "downstream authentication failed") retryable

unfoldable pub command_failure : String → String → String → Option Bool → GatewayFailure
command_failure status code message retryable =
    gateway_failure status code (sanitize_message message "command relay failed") retryable

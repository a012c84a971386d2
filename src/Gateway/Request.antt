-- ===== src/Gateway/Request.antt =====
-- applications/backend/graphql-gateway/src/gateway_routing/graphql/public_request.rs. The reader of
-- an envelope is a parameter.
use vocastock.Prelude.{
  String, Bool, not, Option, none, some, Result, ok, ◌>>=◌, ◌>>◌, refuse_if, ok_or,
}
use vocastock.Text.{trim, is_empty}
use vocastock.Json.{Value, Fields, as_object, is_given}
use vocastock.Json as Json
use vocastock.Gateway.Failure.{GatewayFailure, validation_failed}

pub record UnifiedGraphqlRequestEnvelope : Type 0 where
  pub query : String
  pub operation_name : Option String
  pub variables : Option Value

pub record UnifiedGraphqlRequest : Type 0 where
  pub envelope : UnifiedGraphqlRequestEnvelope
  pub authorization_header : Option String
  pub request_correlation : String

abbrev pub no_object : Option Value → Bool
no_object none = Bool.false
no_object (some value) = not (is_given (as_object value))

unfoldable pub parse_envelope :
    (String → Option UnifiedGraphqlRequestEnvelope)
    → String
    → Result UnifiedGraphqlRequestEnvelope GatewayFailure
parse_envelope read body = do
  envelope ← ok_or (read body) (validation_failed "request body must be valid JSON")
  refuse_if (is_empty (trim envelope.query)) (validation_failed "query must not be empty")
  refuse_if (no_object envelope.variables)
      (validation_failed "variables must be a JSON object when provided")
  ok envelope

unfoldable pub variables_object : UnifiedGraphqlRequestEnvelope → Option Fields
variables_object envelope = Json.◌>>=◌ envelope.variables (λ value. as_object value)

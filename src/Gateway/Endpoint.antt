-- ===== src/Gateway/Endpoint.antt =====
-- applications/backend/graphql-gateway/src/gateway_routing/runtime: the routes of http_endpoint.rs, and
-- service_contract.rs. A request comes in already read. The JSON of a failure, the reader of an
-- envelope, the report on the Firebase dependencies and the correlation that would be generated are
-- part of the context. No response stands for a loop that is cut short.
pub mod Forwards
pub mod Guard
use text.Mathlib.Text.{◌==◌}
use vocastock.Prelude.{
  String, Bool, ◌||◌, ◌&&◌, Option, none, some, List, [], ◌∷◌, Result, ok, err, if◌then◌else◌,
}
use vocastock.TextMap.{lookup}
use vocastock.Text.{concat, trim, is_empty}
use vocastock.Gateway.Failure.{GatewayFailure, validation_failed}
use vocastock.Gateway.Allowlist.{GraphqlOperationKind, mutation, query, GatewayRoutingDecision}
use vocastock.Gateway.Document.Scan.{ScanError, Scan, refused, out_of_fuel}
use vocastock.Gateway.Document.Parser.{allowlisted_operation}
use vocastock.Gateway.Request.{UnifiedGraphqlRequestEnvelope, UnifiedGraphqlRequest, parse_envelope}
use vocastock.Gateway.Relay.{RelayClient}
use vocastock.Gateway.Relay.Services.{
  relay_register_vocabulary_expression, relay_vocabulary_catalog,
}
use vocastock.Gateway.Relay.Generic.{relay_generic_query, relay_generic_command}

abbrev pub service_name : String
service_name = "graphql-gateway"

abbrev pub graphql_path : String
graphql_path = "/graphql"

abbrev pub root_message : String
root_message =
    "graphql-gateway exposes /graphql for registerVocabularyExpression and vocabularyCatalog while preserving readiness and Firebase probes"

pub record Request : Type 0 where
  pub method : String
  pub path : String
  pub headers : List (String × String)
  pub body : String

pub record RenderedResponse : Type 0 where
  pub status : String
  pub content_type : String
  pub body : String

pub record Context (S : Type 0) : Type 0 where
  pub readiness_path : String
  pub relay_client : RelayClient S
  pub read_envelope : String → Option UnifiedGraphqlRequestEnvelope
  pub json_body : GatewayFailure → String
  pub generated_correlation : String
  pub firebase_report : String
  pub firebase_healthy : Bool

abbrev pub unless_empty : Option String → String → String
unless_empty none fallback = fallback
unless_empty (some value) fallback = if is_empty (trim value) then fallback else trim value

unfoldable pub request_correlation_from_headers : List (String × String) → String → String
request_correlation_from_headers headers generated =
    unless_empty (lookup "x-request-correlation" headers) generated

unfoldable pub json_response : String → String → RenderedResponse
json_response status body = record {
  status = status;
  content_type = "application/json; charset=utf-8";
  body = body;
}

unfoldable pub text_response : String → String → RenderedResponse
text_response status body = record {
  status = status;
  content_type = "text/plain; charset=utf-8";
  body = body;
}

module _ {S : Type 0} (ctx : Context S) where
  unfoldable pub render_gateway_failure : GatewayFailure → RenderedResponse
  render_gateway_failure failure = json_response failure.status (ctx.json_body failure)

  unfoldable pub firebase_dependency_response : RenderedResponse
  firebase_dependency_response =
      text_response (if ctx.firebase_healthy then "200 OK" else "503 Service Unavailable")
        ctx.firebase_report

  unfoldable pub relay_by_kind :
      GraphqlOperationKind
      → GatewayRoutingDecision
      → UnifiedGraphqlRequest
      → S
      → Result String GatewayFailure × S
  relay_by_kind query decision request s =
      relay_generic_query ctx.relay_client request decision.downstream_route decision.operation_name
        decision.downstream_service s
  relay_by_kind mutation decision request s =
      relay_generic_command ctx.relay_client request decision.downstream_route
        decision.operation_name decision.downstream_service s

  unfoldable pub relay_decision :
      GatewayRoutingDecision → UnifiedGraphqlRequest → S → Result String GatewayFailure × S
  relay_decision decision request s =
      if decision.operation_name == "registerVocabularyExpression"
      then relay_register_vocabulary_expression ctx.relay_client request s
      else if decision.operation_name == "vocabularyCatalog"
      then relay_vocabulary_catalog ctx.relay_client request s
      else relay_by_kind decision.operation_kind decision request s

  abbrev pub rendered : Result String GatewayFailure × S → Option RenderedResponse × S
  rendered (ok body, s) = (some (json_response "200 OK" body), s)
  rendered (err failure, s) = (some (render_gateway_failure failure), s)

  abbrev pub after_decision :
      UnifiedGraphqlRequest → Scan GatewayRoutingDecision → S → Option RenderedResponse × S
  after_decision request (ok decision) s = rendered (relay_decision decision request s)
  after_decision request (err (refused failure)) s = (some (render_gateway_failure failure), s)
  after_decision request (err out_of_fuel) s = (none, s)

  unfoldable pub unified_request : Request → UnifiedGraphqlRequestEnvelope → UnifiedGraphqlRequest
  unified_request request envelope = record {
    envelope = envelope;
    authorization_header = lookup "authorization" request.headers;
    request_correlation =
        request_correlation_from_headers request.headers ctx.generated_correlation;
  }

  abbrev pub after_envelope :
      Request
      → Result UnifiedGraphqlRequestEnvelope GatewayFailure
      → S
      → Option RenderedResponse × S
  after_envelope request (err failure) s = (some (render_gateway_failure failure), s)
  after_envelope request (ok envelope) s =
      after_decision (unified_request request envelope)
        (allowlisted_operation envelope.operation_name envelope.query) s

  unfoldable pub graphql_response : Request → S → Option RenderedResponse × S
  graphql_response request s =
      after_envelope request (parse_envelope ctx.read_envelope request.body) s

  -- The requests to the path of the operations that are no `POST`.
  abbrev pub is_refused_method : String → Bool
  is_refused_method method =
      method == "GET" || method == "PUT" || method == "PATCH" || method == "DELETE"

  unfoldable pub route_request : Request → S → Option RenderedResponse × S
  route_request request s =
      if request.method == "GET" && request.path == ctx.readiness_path
      then (some (text_response "200 OK" (concat (service_name ∷ " ready" ∷ []))), s)
      else if request.method == "GET" && request.path == "/dependencies/firebase"
      then (some firebase_dependency_response, s)
      else if request.method == "GET" && request.path == "/"
      then (some (text_response "200 OK" root_message), s)
      else if request.method == "POST" && request.path == graphql_path
      then graphql_response request s
      else if is_refused_method request.method && request.path == graphql_path
      then (some (render_gateway_failure (validation_failed "method not allowed")), s)
      else (some (text_response "404 Not Found" "not found"), s)

-- ===== src/Gateway/Relay/Failures/Services.antt =====
-- What a failed relay tells a client of its service: command_relay.rs, query_relay.rs and
-- generic_relay.rs of applications/backend/graphql-gateway/src/gateway_routing/downstream.
use text.Mathlib.Text.{◌==◌}
use vocastock.Prelude.{ℕ, String, inl, inr, refl, ◌&&◌, ◌||◌, Option, err, ◌==◌ as ◌=ℕ=◌}
use vocastock.Json.{Value, as_object, as_str, as_bool}
use vocastock.CommandApi.Contract.{service_name}
use vocastock.QueryApi.Contract as Query
use vocastock.Gateway.Failure.Laws.{downstream_auth_failed-IsDiscreet, command_failure-IsDiscreet}
use vocastock.Gateway.Response.{member}
use vocastock.Gateway.Relay.{
  RelayClient, DownstreamHttpResponse, auth_message, auth_retryable, downstream_auth_failure,
}
use vocastock.Gateway.Relay.Services.{
  translate_command_failure, catalog_auth_failure, translate_register_response,
  translate_catalog_response,
}
use vocastock.Gateway.Relay.Generic.{translate_query_response, translate_command_response}
use vocastock.Gateway.Relay.Failures.{
  FailsDiscreetly, given-FailsDiscreetly, either-FailsDiscreetly,
}
use vocastock.Gateway.Relay.Failures.Payloads.{
  mutation_success_response-FailsDiscreetly, catalog_success_response-FailsDiscreetly,
  passed-FailsDiscreetly, nullable-FailsDiscreetly,
}

auth-FailsDiscreetly :
    (service status : String) (payload : Option Value)
    → FailsDiscreetly {A = Value} service (err (downstream_auth_failure status payload))
unfolding downstream_auth_failure
auth-FailsDiscreetly service status payload =
    inr (downstream_auth_failed-IsDiscreet status (auth_message payload) (auth_retryable payload))

catalog_auth-FailsDiscreetly :
    (service status : String) (payload : Option Value)
    → FailsDiscreetly {A = Value} service (err (catalog_auth_failure status payload))
unfolding catalog_auth_failure
catalog_auth-FailsDiscreetly service status payload =
    inr (downstream_auth_failed-IsDiscreet status (auth_message payload) _)

translate_command_failure-FailsDiscreetly :
    (status_code : ℕ) (payload : Option Value)
    → FailsDiscreetly service_name (translate_command_failure status_code payload)
unfolding translate_command_failure
translate_command_failure-FailsDiscreetly status_code payload =
    given-FailsDiscreetly service_name payload _ (λ value.
      given-FailsDiscreetly service_name (as_object value) _ (λ fields.
        given-FailsDiscreetly service_name (member as_str "code" fields) _ (λ code.
          given-FailsDiscreetly service_name (member as_str "message" fields) _ (λ message.
            let retryable = member as_bool "retryable" fields in
            either-FailsDiscreetly service_name
              (status_code =ℕ= 409 && code == "idempotency-conflict") _ _
              (inr (command_failure-IsDiscreet "409 Conflict" code message retryable))
              (either-FailsDiscreetly service_name
                (status_code =ℕ= 503 && code == "dispatch-failed") _ _
                (inr (command_failure-IsDiscreet "503 Service Unavailable" code message retryable))
                (inl refl))))))

-- Whatever a service answers to a relay, a response is passed on, or the relay fails either with
-- the fixed failure for an invalid response of the service, which depends on nothing in that
-- response, or with a message that has none of the internal texts: the two URL schemes,
-- /commands/, /vocabulary-catalog, command-api and query-api.
pub relays-FailsDiscreetly :
    {S : Type 0} (client : RelayClient S) (operation service : String)
    (response : DownstreamHttpResponse)
    → FailsDiscreetly service_name (translate_register_response client response)
      × FailsDiscreetly Query.service_name (translate_catalog_response client response)
      × FailsDiscreetly service (translate_query_response client operation service response)
      × FailsDiscreetly service (translate_command_response client operation service response)
unfolding translate_register_response translate_catalog_response translate_query_response
    translate_command_response
relays-FailsDiscreetly client operation service response =
    let payload = client.from_str response.body in
    let status = response.status_code in
    (
      either-FailsDiscreetly service_name (status =ℕ= 202) _ _
          (given-FailsDiscreetly service_name payload _ mutation_success_response-FailsDiscreetly)
          (either-FailsDiscreetly service_name (status =ℕ= 401) _ _
            (auth-FailsDiscreetly service_name "401 Unauthorized" payload)
            (either-FailsDiscreetly service_name (status =ℕ= 403) _ _
              (auth-FailsDiscreetly service_name "403 Forbidden" payload)
              (either-FailsDiscreetly service_name (status =ℕ= 409 || status =ℕ= 503) _ _
                (translate_command_failure-FailsDiscreetly status payload) (inl refl)))),
      either-FailsDiscreetly Query.service_name (status =ℕ= 200) _ _
          (given-FailsDiscreetly Query.service_name payload _
            catalog_success_response-FailsDiscreetly)
          (either-FailsDiscreetly Query.service_name (status =ℕ= 401) _ _
            (catalog_auth-FailsDiscreetly Query.service_name "401 Unauthorized" payload)
            (either-FailsDiscreetly Query.service_name (status =ℕ= 403) _ _
              (catalog_auth-FailsDiscreetly Query.service_name "403 Forbidden" payload)
              (inl refl))),
      either-FailsDiscreetly service (status =ℕ= 200) _ _
          (given-FailsDiscreetly service payload _ (nullable-FailsDiscreetly service operation))
          (either-FailsDiscreetly service (status =ℕ= 204) _ _ tt (
            either-FailsDiscreetly service (status =ℕ= 401) _ _
              (auth-FailsDiscreetly service "401 Unauthorized" payload)
              (either-FailsDiscreetly service (status =ℕ= 403) _ _
                (auth-FailsDiscreetly service "403 Forbidden" payload) (inl refl)))),
      either-FailsDiscreetly service (status =ℕ= 200 || status =ℕ= 202) _ _
          (given-FailsDiscreetly service payload _ (passed-FailsDiscreetly service operation))
          (either-FailsDiscreetly service (status =ℕ= 401) _ _
            (auth-FailsDiscreetly service "401 Unauthorized" payload)
            (either-FailsDiscreetly service (status =ℕ= 403) _ _
              (auth-FailsDiscreetly service "403 Forbidden" payload) (inl refl))),
    )

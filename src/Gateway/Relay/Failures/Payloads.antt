-- ===== src/Gateway/Relay/Failures/Payloads.antt =====
-- What the payloads of the services are refused with: public_response.rs of
-- applications/backend/graphql-gateway/src/gateway_routing/graphql.
use text.Mathlib.Text.{◌==◌}
use vocastock.Prelude.{String, not, ◌&&◌, List, [], ◌∷◌, Result, refuse_if}
use vocastock.Json.{Value, as_object, as_array, get_field, is_given, null}
use vocastock.CommandApi.Contract.{service_name}
use vocastock.QueryApi.Contract as Query
use vocastock.Gateway.Failure.{GatewayFailure, downstream_invalid_response}
use vocastock.Gateway.Response.{
  member, text_member, require_string, require_bool, require_array, require_nested_string,
  require_item, require_items, mutation_success_response, catalog_success_response,
  pass_through_success_response,
}
use vocastock.Gateway.Relay.Generic.{nullable_response}
use vocastock.Gateway.Relay.Failures.{
  FailsDiscreetly, given-FailsDiscreetly, then-FailsDiscreetly, check-FailsDiscreetly,
}

pub mutation_success_response-FailsDiscreetly :
    (payload : Value) → FailsDiscreetly service_name (mutation_success_response payload)
unfolding mutation_success_response require_string require_bool require_nested_string
mutation_success_response-FailsDiscreetly payload =
    given-FailsDiscreetly service_name (as_object payload) _ (λ fields.
      let string =
        λ (key : String) (later : Result Value GatewayFailure)
            (h : FailsDiscreetly service_name later).
          then-FailsDiscreetly service_name (require_string fields key service_name) later
            (check-FailsDiscreetly service_name _) h in
      let nested =
        λ (parent : String) (key : String) (later : Result Value GatewayFailure)
            (h : FailsDiscreetly service_name later).
          then-FailsDiscreetly service_name (require_nested_string fields parent key service_name)
            later (check-FailsDiscreetly service_name _) h in
      string "acceptance" _ (
        nested "target" "vocabularyExpression" _ (
          nested "state" "registration" _ (
            nested "state" "explanation" _ (
              string "statusHandle" _ (
                string "message" _ (
                  then-FailsDiscreetly service_name
                    (require_bool fields "replayedByIdempotency" service_name) _
                    (check-FailsDiscreetly service_name _)
                    (then-FailsDiscreetly service_name
                      (refuse_if
                        (not (text_member "acceptance" fields == "accepted")
                          && not (text_member "acceptance" fields == "reused-existing"))
                        (downstream_invalid_response service_name))
                      _ (check-FailsDiscreetly service_name _) tt))))))))

pub require_item-FailsDiscreetly :
    (item : Value) → FailsDiscreetly Query.service_name (require_item item)
unfolding require_item require_string
require_item-FailsDiscreetly item =
    given-FailsDiscreetly Query.service_name (as_object item) _ (λ fields.
      let string =
        λ (key : String) (later : Result (Unit {0}) GatewayFailure)
            (h : FailsDiscreetly Query.service_name later).
          then-FailsDiscreetly Query.service_name (require_string fields key Query.service_name)
            later (check-FailsDiscreetly Query.service_name _) h in
      string "vocabularyExpression" _ (
        string "registrationState" _ (
          string "explanationState" _ (
            string "visibility" _ (
              then-FailsDiscreetly Query.service_name
                (refuse_if (is_given (get_field "detailPayload" fields))
                  (downstream_invalid_response Query.service_name))
                _ (check-FailsDiscreetly Query.service_name _)
                (check-FailsDiscreetly Query.service_name _))))))

pub require_items-FailsDiscreetly :
    (items : List Value) → FailsDiscreetly Query.service_name (require_items items)
unfolding require_items
require_items-FailsDiscreetly [] = tt
require_items-FailsDiscreetly (item ∷ items) =
    then-FailsDiscreetly Query.service_name (require_item item) (require_items items)
      (require_item-FailsDiscreetly item) (require_items-FailsDiscreetly items)

pub catalog_success_response-FailsDiscreetly :
    (payload : Value) → FailsDiscreetly Query.service_name (catalog_success_response payload)
unfolding catalog_success_response require_string require_array
catalog_success_response-FailsDiscreetly payload =
    let service = Query.service_name in
    given-FailsDiscreetly service (as_object payload) _ (λ fields.
      then-FailsDiscreetly service (require_string fields "collectionState" service) _
        (check-FailsDiscreetly service _)
        (then-FailsDiscreetly service (require_array fields "items" service) _
          (check-FailsDiscreetly service _)
          (then-FailsDiscreetly service
            (refuse_if
              (not (text_member "collectionState" fields == "empty")
                && not (text_member "collectionState" fields == "populated"))
              (downstream_invalid_response service))
            _ (check-FailsDiscreetly service _)
            (given-FailsDiscreetly service (member as_array "items" fields) _ (λ items.
              then-FailsDiscreetly service (require_items items) _
                (require_items-FailsDiscreetly items) tt)))))

pub passed-FailsDiscreetly :
    (service operation : String) (payload : Value)
    → FailsDiscreetly service (pass_through_success_response operation payload service)
unfolding pass_through_success_response
passed-FailsDiscreetly service operation payload =
    given-FailsDiscreetly service (as_object payload) _ (λ fields. tt)

pub nullable-FailsDiscreetly :
    (service operation : String) (payload : Value)
    → FailsDiscreetly service (nullable_response operation service payload)
nullable-FailsDiscreetly service operation null = tt
nullable-FailsDiscreetly service operation payload =
    passed-FailsDiscreetly service operation payload

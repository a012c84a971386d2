-- ===== src/CommandApi/MutationTests.antt =====
-- Runs of the mutation commands and of the endpoint over stores in memory, and the theorems at
-- these runs.
use vocastock.Json.{◌>>=◌}
use vocastock.Prelude.{
  eq_iff, Option, String, ◌≡◌, ◌≢◌, ◌⊎◌, refl, sym, ◌∙◌, true, none, some, List, [], ◌∷◌, err,
}
use vocastock.TextMap.{lookup, insert}
use vocastock.Text.{trim, is_empty, split_once, eq_ignore_ascii_case}
use vocastock.Auth.{VerifiedActorContext, invalid_token}
use vocastock.CommandApi.Response.{CommandFailure}
use vocastock.CommandApi.Request.{invalid_json}
use vocastock.CommandApi.Dispatch.{DispatchPort, DispatchRequest, in_memory_dispatch_port}
use vocastock.CommandApi.Store.{scoped_key, StoreState, empty_store, in_memory_command_store}
use vocastock.CommandApi.MutationRequest.{
  parse_request_purchase, to_error_category, free, pro_monthly, image as image_target,
}
use vocastock.CommandApi.MutationResponse.{rejected, http_status}
use vocastock.CommandApi.Contract.{request_purchase_path}
use vocastock.CommandApi.MutationStore.{MutationRecord, MutationCommandStore, decide}
use vocastock.CommandApi.MutationCommand.{MutationCommand, of_purchase, of_explanation}
use vocastock.CommandApi.MutationCommand.Fingerprints.{
  AnyMutation, any_retry, payload_of, fingerprint_for_injective,
}
use vocastock.CommandApi.MutationAcceptance.{accept_mutation_command}
use vocastock.CommandApi.MutationAcceptance.Atomicity.{
  IsAcceptance, IsRefusal, accept_mutation_cases,
}
use vocastock.CommandApi.PubsubDispatch.{build_dispatch_message}
use vocastock.CommandApi.PubsubDispatch.Laws.{kind_of, lookup-build_dispatch_message}
use vocastock.CommandApi.StubVerifier.{sample_actor_context, stub_verify}
use vocastock.CommandApi.Endpoint.Failures.{
  verify_actor_context, extract_bearer_token, auth_failure_from_verification_error,
  validation_failure, mutation_validation_envelope,
}
use vocastock.CommandApi.Endpoint.{
  Request, Json, RouteContext, Backend, route_request, verify_actor_context_for_mutation,
  render_envelope, route_command, mutation_response, mutation_command_of, mutation_accepted,
  json_response,
}
use vocastock.CommandApi.Endpoint.Effects.{
  route_request-keeps_stores, route_request-unauthenticated,
}

-- A store of mutation records in memory.
abbrev Records : Type 0
Records = List (String × MutationRecord)

abbrev recorded : Records → String → String → Option MutationRecord
recorded records actor key = lookup (scoped_key actor key) records

abbrev record_store : MutationCommandStore Records
record_store = record {
  idempotency_decision =
      λ actor key fingerprint records. decide (recorded records actor key) fingerprint;
  commit_mutation = λ actor key fingerprint envelope records.
      insert (scoped_key actor key) (record { fingerprint = fingerprint; envelope = envelope })
        records;
}

abbrev learner : VerifiedActorContext
learner = sample_actor_context "actor:learner"

abbrev buy_free : MutationCommand
buy_free = of_purchase (record { actor = learner; idempotency_key = "k1"; plan_code = free })

abbrev buy_pro : MutationCommand
buy_pro = of_purchase (record { actor = learner; idempotency_key = "k1"; plan_code = pro_monthly })

abbrev explain : MutationCommand
explain = of_explanation (record {
  actor = learner;
  idempotency_key = "k2";
  vocabulary_expression = "vocabulary:coffee";
})

abbrev retry_image : AnyMutation
retry_image = any_retry (record {
  actor = learner;
  idempotency_key = "k3";
  vocabulary_expression = "vocabulary:coffee|target=IMAGE";
  target = image_target;
})

abbrev port : DispatchPort (List DispatchRequest)
port = in_memory_dispatch_port

accept_mutation_cases_example :
    let o = accept_mutation_command record_store port explain [] [] in
    IsAcceptance record_store port explain [] [] o ⊎ IsRefusal record_store port explain [] o
accept_mutation_cases_example = accept_mutation_cases record_store port explain [] []

fingerprint_for_injective_example : payload_of retry_image ≡ payload_of retry_image
fingerprint_for_injective_example = fingerprint_for_injective retry_image retry_image refl

-- Requests to an endpoint with the stub verifier, whose reader takes no body.
abbrev no_json : Json
no_json = record {
  to_lowercase = λ s. s;
  read_register = λ s. none;
  read_generation = λ s. none;
  read_retry = λ s. none;
  read_purchase = λ s. none;
  read_restore = λ s. none;
  write_result = λ r. r.status_handle;
  write_failure = λ f. f.code;
  write_envelope = λ e. e.message.key;
}

abbrev context : RouteContext StoreState Records (List DispatchRequest)
context = record {
  readiness_path = "/readyz";
  verifier = stub_verify;
  register_store = in_memory_command_store;
  mutation_store = some record_store;
  dispatcher = port;
  firebase_report = "";
  firebase_healthy = true;
}

abbrev backend : Backend StoreState Records (List DispatchRequest)
backend = record { registered = empty_store; mutated = []; dispatched = [] }

abbrev purchase_with : String → Request
purchase_with authorization = record {
  method = "POST";
  path = request_purchase_path;
  headers = ("authorization", authorization) ∷ [];
  body = "{";
}

abbrev unknown_token : CommandFailure
unknown_token = auth_failure_from_verification_error invalid_token

unknown_token_refused :
    verify_actor_context (lookup "authorization" (purchase_with "Bearer x").headers) stub_verify
    ≡ err unknown_token
unfolding verify_actor_context extract_bearer_token lookup trim is_empty split_once
    eq_ignore_ascii_case stub_verify
unknown_token_refused = refl

-- A body that is no JSON is answered with the status of a bad request.
bad_request :
    (route_request no_json context (purchase_with "Bearer valid-learner-token") backend).0.status
    ≡ "400 Bad Request"
unfolding route_request route_command mutation_response mutation_command_of mutation_accepted
    verify_actor_context_for_mutation verify_actor_context extract_bearer_token lookup trim is_empty
    split_once eq_ignore_ascii_case stub_verify parse_request_purchase render_envelope json_response
    mutation_validation_envelope to_error_category rejected http_status
bad_request = refl

not_202 :
    (route_request no_json context (purchase_with "Bearer valid-learner-token") backend).0.status
    ≢ "202 Accepted"
not_202 h =
    let e : ◌≡◌ {A = String} "400 Bad Request" "202 Accepted" = sym bad_request ∙ h in
    cc ((eq_iff _ _).1 e)

-- The errors of a body keep their codes.
validation_failures : (validation_failure invalid_json).code ≡ "validation-failed"
unfolding validation_failure
validation_failures = refl

route_request-keeps_stores_example :
    let r = route_request no_json context (purchase_with "Bearer valid-learner-token") backend in
    (r.1.registered ≡ backend.registered) × (r.1.mutated ≡ backend.mutated)
route_request-keeps_stores_example =
    route_request-keeps_stores no_json context (purchase_with "Bearer valid-learner-token") backend
      not_202

route_request-unauthenticated_example :
    let r = route_request no_json context (purchase_with "Bearer x") backend in
    (r.0.status ≢ "202 Accepted") × (r.1 ≡ backend)
route_request-unauthenticated_example =
    route_request-unauthenticated no_json context (purchase_with "Bearer x") backend unknown_token
      unknown_token_refused

lookup-build_dispatch_message_example :
    let attributes = (build_dispatch_message (λ fields. []) buy_free.request).attributes in
    (lookup "actor" attributes ≡ some buy_free.request.actor_reference)
    × (lookup "idempotencyKey" attributes ≡ some buy_free.request.idempotency_key)
    × (lookup "kind" attributes >>= kind_of ≡ some buy_free.request.kind)
    × (lookup "retryTarget" attributes ≡ buy_free.request.retry_target)
    × (lookup "planCode" attributes ≡ buy_free.request.plan_code)
lookup-build_dispatch_message_example =
    lookup-build_dispatch_message (λ fields. []) buy_free.request

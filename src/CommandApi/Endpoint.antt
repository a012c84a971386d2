-- ===== src/CommandApi/Endpoint.antt =====
-- applications/backend/command-api/src/register_command_api/http/endpoint.rs: the routes. The
-- JSON reader and writer are the fields of `Json`, and the report on the Firebase dependencies is
-- part of the context; a request comes in already read.
pub mod Failures
pub mod Effects
mod Routes
use text.Mathlib.Text.{◌==◌}
use vocastock.Prelude.{
  String, Bool, ◌||◌, ◌&&◌, Option, List, [], ◌∷◌, Result, ok, err, ◌>>=◌, ok_or, map_err,
  if◌then◌else◌,
}
use vocastock.TextMap.{lookup}
use vocastock.Text.{concat}
use vocastock.Auth.{VerifiedActorContext, TokenVerifier}
use vocastock.CommandApi.Contract.{
  service_name, root_message, register_vocabulary_expression_path,
  request_explanation_generation_path, request_image_generation_path, retry_generation_path,
  request_purchase_path, request_restore_purchase_path,
}
use vocastock.CommandApi.Response.{
  AcceptedCommandResult, CommandFailure, validation_failed, http_status as failure_status,
}
use vocastock.CommandApi.MutationResponse.{CommandResponseEnvelope, http_status as envelope_status}
use vocastock.CommandApi.Request.{
  RegisterVocabularyCommandEnvelope, RegisterVocabularyExpressionCommand, parse_register_command,
}
use vocastock.CommandApi.Dispatch.{DispatchPort}
use vocastock.CommandApi.Store.{CommandStore}
use vocastock.CommandApi.Acceptance.{Outcome, accept_register_command}
use vocastock.CommandApi.MutationRequest.{
  GenerationRequestEnvelope, RetryRequestEnvelope, PurchaseRequestEnvelope,
  RestorePurchaseRequestEnvelope, MutationRequestError, parse_request_explanation_generation,
  parse_request_image_generation, parse_retry_generation, parse_request_purchase,
  parse_request_restore_purchase,
}
use vocastock.CommandApi.MutationStore.{MutationCommandStore}
use vocastock.CommandApi.MutationCommand.{
  MutationCommand, of_explanation, of_image, of_retry, of_purchase, of_restore,
}
use vocastock.CommandApi.MutationAcceptance.{MutationOutcome, accept_mutation_command}
use vocastock.CommandApi.Endpoint.Failures.{
  verify_actor_context, validation_failure, auth_failure_envelope, mutation_validation_envelope,
  mutation_source_unavailable,
}

pub record Request : Type 0 where
  pub method : String
  pub path : String
  pub headers : List (String × String)
  pub body : String

pub record RenderedResponse : Type 0 where
  pub status : String
  pub content_type : String
  pub body : String

-- `serde_json` at the types of this service, and `str::to_lowercase`.
pub record Json : Type 0 where
  pub to_lowercase : String → String
  pub read_register : String → Option RegisterVocabularyCommandEnvelope
  pub read_generation : String → Option GenerationRequestEnvelope
  pub read_retry : String → Option RetryRequestEnvelope
  pub read_purchase : String → Option PurchaseRequestEnvelope
  pub read_restore : String → Option RestorePurchaseRequestEnvelope
  pub write_result : AcceptedCommandResult → String
  pub write_failure : CommandFailure → String
  pub write_envelope : CommandResponseEnvelope → String

-- The source's `RouteContext`, and the report of `shared_runtime` with its health.
pub record RouteContext (S M D : Type 0) : Type 0 where
  pub readiness_path : String
  pub verifier : TokenVerifier
  pub register_store : CommandStore S
  pub mutation_store : Option (MutationCommandStore M)
  pub dispatcher : DispatchPort D
  pub firebase_report : String
  pub firebase_healthy : Bool

-- The states of the two stores and of the dispatcher.
pub record Backend (S M D : Type 0) : Type 0 where
  pub registered : S
  pub mutated : M
  pub dispatched : D

unfoldable pub json_response : String → String → RenderedResponse
json_response status body = record {
  status = status;
  content_type = "application/json; charset=utf-8";
  body = body;
}

unfoldable pub text_response : String → String → RenderedResponse
text_response status body = record {
  status = status;
  content_type = "text/plain; charset=utf-8";
  body = body;
}

abbrev pub is_command_path : String → Bool
is_command_path path =
    path == register_vocabulary_expression_path
    || path == request_explanation_generation_path
    || path == request_image_generation_path
    || path == retry_generation_path
    || path == request_purchase_path
    || path == request_restore_purchase_path

abbrev pub is_other_method : String → Bool
is_other_method method =
    method == "GET" || method == "PUT" || method == "PATCH" || method == "DELETE"

module _ (json : Json) where
  unfoldable pub render_command_failure : CommandFailure → RenderedResponse
  unfolding json_response
  render_command_failure failure =
      json_response (failure_status failure) (json.write_failure failure)

  unfoldable pub render_envelope : CommandResponseEnvelope → RenderedResponse
  unfolding json_response
  render_envelope envelope = json_response (envelope_status envelope) (json.write_envelope envelope)

  unfoldable pub render_answer : Result AcceptedCommandResult CommandFailure → RenderedResponse
  unfolding json_response render_command_failure
  render_answer (ok result) = json_response "202 Accepted" (json.write_result result)
  render_answer (err failure) = render_command_failure failure

  module _ {S M D : Type 0} (ctx : RouteContext S M D) where
    unfoldable pub firebase_dependency_response : RenderedResponse
    unfolding text_response
    firebase_dependency_response =
        text_response (if ctx.firebase_healthy then "200 OK" else "503 Service Unavailable")
          ctx.firebase_report

    -- The command of a request, or the failure that the request is refused with.
    unfoldable pub register_command_of :
        Request → Result RegisterVocabularyExpressionCommand CommandFailure
    register_command_of request = do
      actor_context ← verify_actor_context (lookup "authorization" request.headers) ctx.verifier
      map_err validation_failure
          (parse_register_command json.to_lowercase json.read_register request.body actor_context)

    unfoldable pub register_accepted :
        Result RegisterVocabularyExpressionCommand CommandFailure
        → Backend S M D
        → RenderedResponse × Backend S M D
    unfolding render_answer render_command_failure
    register_accepted (err failure) backend = (render_command_failure failure, backend)
    register_accepted (ok command) backend =
        let o =
          accept_register_command ctx.register_store ctx.dispatcher command backend.registered
            backend.dispatched in
        (render_answer o.answer, record backend { registered = o.store; dispatched = o.dispatcher })

    unfoldable pub register_command_response :
        Request → Backend S M D → RenderedResponse × Backend S M D
    register_command_response request backend =
        register_accepted (register_command_of request) backend

    unfoldable pub verify_actor_context_for_mutation :
        Request → Result VerifiedActorContext CommandResponseEnvelope
    verify_actor_context_for_mutation request =
        map_err auth_failure_envelope
          (verify_actor_context (lookup "authorization" request.headers) ctx.verifier)

    -- The early returns that the five mutation routes share.
    unfoldable pub mutation_command_of :
        (String → VerifiedActorContext → Result MutationCommand MutationRequestError)
        → Request
        → Result (MutationCommandStore M × MutationCommand) CommandResponseEnvelope
    mutation_command_of parse request = do
      mutation_store ← ok_or ctx.mutation_store mutation_source_unavailable
      actor_context ← verify_actor_context_for_mutation request
      command ← map_err mutation_validation_envelope (parse request.body actor_context)
      ok (mutation_store, command)

    unfoldable pub mutation_accepted :
        Result (MutationCommandStore M × MutationCommand) CommandResponseEnvelope
        → Backend S M D
        → RenderedResponse × Backend S M D
    mutation_accepted (err envelope) backend = (render_envelope envelope, backend)
    mutation_accepted (ok (mutation_store, command)) backend =
        let o =
          accept_mutation_command mutation_store ctx.dispatcher command backend.mutated
            backend.dispatched in
        (render_envelope o.answer, record backend { mutated = o.store; dispatched = o.dispatcher })

    abbrev pub explanation_command :
        String → VerifiedActorContext → Result MutationCommand MutationRequestError
    explanation_command body actor_context = do
      command ← parse_request_explanation_generation json.read_generation body actor_context
      ok (of_explanation command)

    abbrev pub image_command :
        String → VerifiedActorContext → Result MutationCommand MutationRequestError
    image_command body actor_context = do
      command ← parse_request_image_generation json.read_generation body actor_context
      ok (of_image command)

    abbrev pub retry_command :
        String → VerifiedActorContext → Result MutationCommand MutationRequestError
    retry_command body actor_context = do
      command ← parse_retry_generation json.read_retry body actor_context
      ok (of_retry command)

    abbrev pub purchase_command :
        String → VerifiedActorContext → Result MutationCommand MutationRequestError
    purchase_command body actor_context = do
      command ← parse_request_purchase json.read_purchase body actor_context
      ok (of_purchase command)

    abbrev pub restore_command :
        String → VerifiedActorContext → Result MutationCommand MutationRequestError
    restore_command body actor_context = do
      command ← parse_request_restore_purchase json.read_restore body actor_context
      ok (of_restore command)

    unfoldable pub mutation_response :
        (String → VerifiedActorContext → Result MutationCommand MutationRequestError)
        → Request
        → Backend S M D
        → RenderedResponse × Backend S M D
    mutation_response parse request backend =
        mutation_accepted (mutation_command_of parse request) backend

    -- `route_request` for the method POST on a command path.
    unfoldable pub route_command : Request → Backend S M D → RenderedResponse × Backend S M D
    route_command request backend =
        if request.path == register_vocabulary_expression_path
        then register_command_response request backend
        else if request.path == request_explanation_generation_path
        then mutation_response explanation_command request backend
        else if request.path == request_image_generation_path
        then mutation_response image_command request backend
        else if request.path == retry_generation_path
        then mutation_response retry_command request backend
        else if request.path == request_purchase_path
        then mutation_response purchase_command request backend
        else if request.path == request_restore_purchase_path
        then mutation_response restore_command request backend
        else (text_response "404 Not Found" "not found", backend)

    unfoldable pub route_request : Request → Backend S M D → RenderedResponse × Backend S M D
    route_request request backend =
        if request.method == "GET" && request.path == ctx.readiness_path
        then (text_response "200 OK" (concat (service_name ∷ " ready" ∷ [])), backend)
        else if request.method == "GET" && request.path == "/dependencies/firebase"
        then (firebase_dependency_response, backend)
        else if request.method == "GET" && request.path == "/"
        then (text_response "200 OK" root_message, backend)
        else if request.method == "POST"
        then route_command request backend
        else if is_other_method request.method && is_command_path request.path
        then (
          json_response "405 Method Not Allowed"
              (json.write_failure (validation_failed "method not allowed")),
          backend,
        )
        else (text_response "404 Not Found" "not found", backend)

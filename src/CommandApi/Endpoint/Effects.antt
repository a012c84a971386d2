-- ===== src/CommandApi/Endpoint/Effects.antt =====
-- Which requests change the state behind the endpoint, and which are answered 202.
use text.Mathlib.Text.{◌==◌}
use vocastock.Prelude.{
  String, ◌≡◌, ◌≢◌, refl, ap, false, eq_iff, Result, ok, err, inl, inr, Option-cases,
}
use vocastock.TextMap.{lookup}
use vocastock.Auth.{VerifiedActorContext}
use vocastock.CommandApi.Response.{CommandFailure, AcceptedCommandResult}
use vocastock.CommandApi.MutationResponse.{
  CommandResponseEnvelope, rejected, accepted_envelope, http_status as envelope_status,
}
use vocastock.CommandApi.Request.{RegisterVocabularyExpressionCommand}
use vocastock.CommandApi.Acceptance.{accept_register_command}
use vocastock.CommandApi.Acceptance.Atomicity.{accept-err_keeps_store}
use vocastock.CommandApi.MutationRequest.{MutationRequestError}
use vocastock.CommandApi.MutationStore.{MutationCommandStore}
use vocastock.CommandApi.MutationCommand.{MutationCommand, success_envelope}
use vocastock.CommandApi.MutationAcceptance.Atomicity.{accept_mutation_cases}
use vocastock.CommandApi.Endpoint.Failures.{
  verify_actor_context, auth_failure_envelope, mutation_source_unavailable,
}
use vocastock.CommandApi.Endpoint.{
  Request, RenderedResponse, Json, RouteContext, Backend, json_response, render_command_failure,
  render_envelope, render_answer, register_command_of, register_accepted, register_command_response,
  verify_actor_context_for_mutation, mutation_command_of, mutation_accepted, mutation_response,
  route_request,
}
use vocastock.CommandApi.Endpoint.Routes.{
  failure_status-==, category_status-==, route_request-cases,
}

module _ (json : Json) {S M D : Type 0} (ctx : RouteContext S M D) where
  -- Both stores are as they were, unless the answer is 202.
  abbrev KeepsStores : Backend S M D → RenderedResponse × Backend S M D → Type 0
  KeepsStores backend r =
      r.0.status ≢ "202 Accepted"
      → (r.1.registered ≡ backend.registered) × (r.1.mutated ≡ backend.mutated)

  answer-KeepsStores :
      (command : RegisterVocabularyExpressionCommand) (backend : Backend S M D)
      (answer : Result AcceptedCommandResult CommandFailure)
      → let o =
          accept_register_command ctx.register_store ctx.dispatcher command backend.registered
            backend.dispatched in
        o.answer ≡ answer
        → (render_answer json answer).status ≢ "202 Accepted"
        → o.store ≡ backend.registered
  unfolding render_answer json_response
  answer-KeepsStores command backend (ok result) e h = absurd (h refl)
  answer-KeepsStores command backend (err failure) e h =
      (accept-err_keeps_store ctx.register_store ctx.dispatcher command backend.registered
        backend.dispatched failure e).1

  register_accepted-KeepsStores :
      (command : Result RegisterVocabularyExpressionCommand CommandFailure)
      (backend : Backend S M D)
      → KeepsStores backend (register_accepted json ctx command backend)
  unfolding register_accepted
  register_accepted-KeepsStores (err failure) backend h = (refl, refl)
  register_accepted-KeepsStores (ok command) backend h =
      (answer-KeepsStores command backend _ refl h, refl)

  mutation_accepted-KeepsStores :
      (command : Result (MutationCommandStore M × MutationCommand) CommandResponseEnvelope)
      (backend : Backend S M D)
      → KeepsStores backend (mutation_accepted json ctx command backend)
  unfolding mutation_accepted render_envelope json_response envelope_status success_envelope
      accepted_envelope
  mutation_accepted-KeepsStores (err envelope) backend h = (refl, refl)
  mutation_accepted-KeepsStores (ok (store, command)) backend h =
      elim (accept_mutation_cases store ctx.dispatcher command backend.mutated backend.dispatched) [
        | inl (answer, _, _, _) ↦ absurd (h (ap envelope_status answer))
        | inr (kept, _) ↦ (refl, kept)
      ]

  -- A request that is not answered with 202 leaves both stores as they were, whatever the stores,
  -- the dispatcher, the verifier and the JSON reader do.
  pub route_request-keeps_stores :
      (request : Request) (backend : Backend S M D)
      → (route_request json ctx request backend).0.status ≢ "202 Accepted"
      → ((route_request json ctx request backend).1.registered ≡ backend.registered)
        × ((route_request json ctx request backend).1.mutated ≡ backend.mutated)
  unfolding register_command_response mutation_response
  route_request-keeps_stores request backend =
      route_request-cases json ctx (KeepsStores backend) request backend (λ r _ _. (refl, refl))
        (λ _. register_accepted-KeepsStores (register_command_of json ctx request) backend)
        (λ parse _.
          mutation_accepted-KeepsStores (mutation_command_of json ctx parse request) backend)

  -- The answer is not 202, and nothing behind the endpoint has changed.
  abbrev IsRefused : Backend S M D → RenderedResponse × Backend S M D → Type 0
  IsRefused backend r = (r.0.status ≢ "202 Accepted") × (r.1 ≡ backend)

  not_accepted : (status : String) → (status == "202 Accepted") ≡ false → status ≢ "202 Accepted"
  not_accepted status e h = absurd (cc (e, (eq_iff status "202 Accepted").1 h))

  register-IsRefused :
      (failure : CommandFailure) (backend : Backend S M D)
      → IsRefused backend (register_accepted json ctx (err failure) backend)
  unfolding register_accepted render_command_failure json_response
  register-IsRefused failure backend = (not_accepted _ (failure_status-== failure), refl)

  mutation-IsRefused :
      (envelope : CommandResponseEnvelope) (backend : Backend S M D)
      → envelope.accepted ≡ false
      → IsRefused backend (mutation_accepted json ctx (err envelope) backend)
  unfolding mutation_accepted render_envelope json_response envelope_status
  mutation-IsRefused envelope backend h =
      (not_accepted _ (rw h (category_status-== envelope.error_category)), refl)

  mutation_command_of-refused :
      (parse : String → VerifiedActorContext → Result MutationCommand MutationRequestError)
      (request : Request) (failure : CommandFailure)
      → verify_actor_context (lookup "authorization" request.headers) ctx.verifier ≡ err failure
      → (envelope : CommandResponseEnvelope) × (envelope.accepted ≡ false)
        × (mutation_command_of json ctx parse request ≡ err envelope)
  unfolding mutation_command_of verify_actor_context_for_mutation auth_failure_envelope
      mutation_source_unavailable rejected
  mutation_command_of-refused parse request failure h = elim (Option-cases ctx.mutation_store) [
    | inl e ↦ (mutation_source_unavailable, refl, simp e)
    | inr (store, e) ↦ (auth_failure_envelope failure, refl, simp (e, h))
  ]

  mutation_response-IsRefused :
      (parse : String → VerifiedActorContext → Result MutationCommand MutationRequestError)
      (request : Request) (backend : Backend S M D) (failure : CommandFailure)
      → verify_actor_context (lookup "authorization" request.headers) ctx.verifier ≡ err failure
      → IsRefused backend (mutation_response json ctx parse request backend)
  unfolding mutation_response
  mutation_response-IsRefused parse request backend failure h =
      let (envelope, refused, e) = mutation_command_of-refused parse request failure h in
      rw e (mutation-IsRefused envelope backend refused)

  -- A request without a token that the verifier accepts is not answered with 202, and changes
  -- neither a store nor the dispatcher, on every route.
  pub route_request-unauthenticated :
      (request : Request) (backend : Backend S M D) (failure : CommandFailure)
      → verify_actor_context (lookup "authorization" request.headers) ctx.verifier ≡ err failure
      → ((route_request json ctx request backend).0.status ≢ "202 Accepted")
        × ((route_request json ctx request backend).1 ≡ backend)
  unfolding register_command_response register_command_of
  route_request-unauthenticated request backend failure h =
      route_request-cases json ctx (IsRefused backend) request backend
        (λ r e. (not_accepted r.status e, refl)) (λ _. rw h (register-IsRefused failure backend))
        (λ parse _. mutation_response-IsRefused parse request backend failure h)

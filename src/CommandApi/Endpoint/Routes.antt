-- ===== src/CommandApi/Endpoint/Routes.antt =====
-- The routes of the endpoint, told apart by whether they handle a command, and the statuses of
-- the failures.
use text.Mathlib.Text.{◌==◌}
use vocastock.Prelude.{
  String, ◌≡◌, refl, true, false, ◌&&◌, ◌||◌, Option, none, some, eq_iff, Result, if_cases,
}
use vocastock.Auth.{VerifiedActorContext}
use vocastock.CommandApi.Response.{CommandFailure, http_status as failure_status}
use vocastock.CommandApi.MutationResponse.{
  CommandErrorCategory, category_status, validation_failed, target_missing, target_not_ready,
  dispatch_failed, downstream_unavailable, downstream_auth_failed,
}
use vocastock.CommandApi.MutationRequest.{MutationRequestError}
use vocastock.CommandApi.MutationCommand.{MutationCommand}
use vocastock.CommandApi.Contract.{
  register_vocabulary_expression_path, request_explanation_generation_path,
  request_image_generation_path, retry_generation_path, request_purchase_path,
  request_restore_purchase_path,
}
use vocastock.CommandApi.Endpoint.{
  Request, RenderedResponse, Json, RouteContext, Backend, json_response, text_response,
  firebase_dependency_response, register_command_response, mutation_response, route_command,
  route_request, is_command_path, is_other_method,
}

failure_status-cases :
    (P : String → Type 0) (failure : CommandFailure)
    → P "401 Unauthorized"
    → P "403 Forbidden"
    → P "400 Bad Request"
    → P "409 Conflict"
    → P "413 Payload Too Large"
    → P "503 Service Unavailable"
    → P "500 Internal Server Error"
    → P (failure_status failure)
unfolding failure_status
failure_status-cases P failure a b c d e f g =
    let code = failure.code in
    if_cases P (code == "missing-token" || code == "invalid-token") (λ _. a)
      (λ _.
        if_cases P (code == "reauth-required" || code == "ownership-mismatch") (λ _. b)
          (λ _.
            if_cases P (code == "validation-failed") (λ _. c)
              (λ _.
                if_cases P (code == "idempotency-conflict") (λ _. d)
                  (λ _.
                    if_cases P (code == "payload-too-large") (λ _. e)
                      (λ _. if_cases P (code == "dispatch-failed") (λ _. f) (λ _. g))))))

pub failure_status-== :
    (failure : CommandFailure) → (failure_status failure == "202 Accepted") ≡ false
failure_status-== failure =
    failure_status-cases (λ status. (status == "202 Accepted") ≡ false) failure refl refl refl refl
      refl refl refl

named :
    (path name : String)
    → is_command_path name ≡ true
    → (path == name) ≡ true
    → is_command_path path ≡ true
named path name known e = rw ((eq_iff path name).0 e) known

pub category_status-== :
    (category : Option CommandErrorCategory) → (category_status category == "202 Accepted") ≡ false
category_status-== (some validation_failed) = refl
category_status-== (some target_missing) = refl
category_status-== (some target_not_ready) = refl
category_status-== (some dispatch_failed) = refl
category_status-== (some downstream_unavailable) = refl
category_status-== (some downstream_auth_failed) = refl
category_status-== none = refl

module _ (json : Json) {S M D : Type 0} (ctx : RouteContext S M D) where
  abbrev pub IsCommand : Request → Type 0
  IsCommand request = (request.method ≡ "POST") × (is_command_path request.path ≡ true)

  -- The routes, told apart by whether they handle a command.
  route_command-cases :
      (P : RenderedResponse × Backend S M D → Type 0) (request : Request) (backend : Backend S M D)
      → ((r : RenderedResponse) → (r.status == "202 Accepted") ≡ false → P (r, backend))
      → (is_command_path request.path ≡ true
          → P (register_command_response json ctx request backend))
      → ((parse : String → VerifiedActorContext → Result MutationCommand MutationRequestError)
          → is_command_path request.path ≡ true
          → P (mutation_response json ctx parse request backend))
      → P (route_command json ctx request backend)
  unfolding route_command text_response
  route_command-cases P request backend fixed register mutation =
      if_cases P _ (λ e. register (named request.path register_vocabulary_expression_path refl e))
        (λ _.
          if_cases P _
            (λ e. mutation _ (named request.path request_explanation_generation_path refl e))
            (λ _.
              if_cases P _
                (λ e. mutation _ (named request.path request_image_generation_path refl e))
                (λ _.
                  if_cases P _ (λ e. mutation _ (named request.path retry_generation_path refl e))
                    (λ _.
                      if_cases P _
                        (λ e. mutation _ (named request.path request_purchase_path refl e))
                        (λ _.
                          if_cases P _
                            (λ e.
                              mutation _ (named request.path request_restore_purchase_path refl e))
                            (λ _. fixed _ refl))))))

  firebase_dependency_response-== :
      ((firebase_dependency_response json ctx).status == "202 Accepted") ≡ false
  unfolding firebase_dependency_response text_response
  firebase_dependency_response-== =
      if_cases (λ (status : String). (status == "202 Accepted") ≡ false) ctx.firebase_healthy
        (λ _. refl) (λ _. refl)

  pub route_request-cases :
      (P : RenderedResponse × Backend S M D → Type 0) (request : Request) (backend : Backend S M D)
      → ((r : RenderedResponse) → (r.status == "202 Accepted") ≡ false → P (r, backend))
      → (IsCommand request → P (register_command_response json ctx request backend))
      → ((parse : String → VerifiedActorContext → Result MutationCommand MutationRequestError)
          → IsCommand request
          → P (mutation_response json ctx parse request backend))
      → P (route_request json ctx request backend)
  unfolding route_request text_response json_response
  route_request-cases P request backend fixed register mutation =
      let method = request.method in
      let path = request.path in
      if_cases P (method == "GET" && path == ctx.readiness_path) (λ _. fixed _ refl)
        (λ _.
          if_cases P (method == "GET" && path == "/dependencies/firebase")
            (λ _. fixed _ firebase_dependency_response-==)
            (λ _.
              if_cases P (method == "GET" && path == "/") (λ _. fixed _ refl)
                (λ _.
                  if_cases P (method == "POST")
                    (λ e.
                      let post = (eq_iff request.method "POST").0 e in
                      route_command-cases P request backend fixed (λ h. register (post, h))
                        (λ parse h. mutation parse (post, h)))
                    (λ _.
                      if_cases P (is_other_method method && is_command_path path)
                        (λ _. fixed _ refl) (λ _. fixed _ refl)))))

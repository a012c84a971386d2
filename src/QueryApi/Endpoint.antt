-- ===== src/QueryApi/Endpoint.antt =====
-- applications/backend/query-api/src/query_catalog_read/http/endpoint.rs: the routes. The JSON
-- writer is the fields of `Json`, and the report on the Firebase dependencies is part of the
-- context; a request comes in already read.
pub mod Laws
pub mod Guard
use text.Mathlib.Text.{◌==◌}
use vocastock.Prelude.{
  String, Bool, ◌||◌, ◌&&◌, Option, none, some, List, [], ◌∷◌, Result, ok, err, if◌then◌else◌,
}
use vocastock.TextMap.{lookup}
use vocastock.Text.{concat}
use vocastock.Auth.{
  TokenVerificationError, missing_token, invalid_token, reauth_required, TokenVerifier,
}
use vocastock.QueryApi.Contract.{
  service_name, root_message, vocabulary_catalog_path, vocabulary_expression_detail_path,
  explanation_detail_path, image_detail_path, subscription_status_path, actor_handoff_status_path,
}
use vocastock.QueryApi.Catalog as Catalog
use vocastock.QueryApi.Catalog.{
  CatalogSource, CatalogReadError, CatalogReadResponse, read_catalog_from_authorization_header,
}
use vocastock.QueryApi.Detail as Detail
use vocastock.QueryApi.Detail.{DetailError}
use vocastock.QueryApi.Explanation.{
  ExplanationDetailSource, ExplanationDetailView, read_explanation_detail_from_authorization_header,
}
use vocastock.QueryApi.Image.{
  ImageDetailSource, ImageDetailView, read_image_detail_from_authorization_header,
}
use vocastock.QueryApi.Vocabulary.{
  VocabularyExpressionDetailSource, VocabularyExpressionEntryView,
  read_vocabulary_expression_detail_from_authorization_header,
}
use vocastock.QueryApi.Subscription as Subscription
use vocastock.QueryApi.Subscription.{
  SubscriptionStatusSource, SubscriptionStatusError, SubscriptionStatusView,
  read_subscription_status_from_authorization_header,
}
use vocastock.QueryApi.Handoff as Handoff
use vocastock.QueryApi.Handoff.{
  ActorHandoffStatusError, ActorHandoffStatusView,
  read_actor_handoff_status_from_authorization_header,
}
use vocastock.QueryApi.Query.{split_path_and_query, require_identifier}

pub record Request : Type 0 where
  pub method : String
  pub path : String
  pub headers : List (String × String)

pub record RenderedResponse : Type 0 where
  pub status : String
  pub content_type : String
  pub body : String

-- `serde_json::to_string` at the types of this service; an `ErrorResponse` is its message.
pub record Json : Type 0 where
  pub write_error : String → String
  pub write_catalog : CatalogReadResponse → String
  pub write_vocabulary : VocabularyExpressionEntryView → String
  pub write_explanation : ExplanationDetailView → String
  pub write_image : ImageDetailView → String
  pub write_subscription : SubscriptionStatusView → String
  pub write_handoff : ActorHandoffStatusView → String

-- The source's `RouteContext`, and the report of `shared_runtime` with its health.
pub record RouteContext : Type 0 where
  pub readiness_path : String
  pub verifier : TokenVerifier
  pub catalog_source : CatalogSource
  pub vocabulary_expression_detail_source : Option VocabularyExpressionDetailSource
  pub explanation_detail_source : Option ExplanationDetailSource
  pub image_detail_source : Option ImageDetailSource
  pub subscription_status_source : Option SubscriptionStatusSource
  pub firebase_report : String
  pub firebase_healthy : Bool

unfoldable pub json_response : String → String → RenderedResponse
json_response status body = record {
  status = status;
  content_type = "application/json; charset=utf-8";
  body = body;
}

unfoldable pub text_response : String → String → RenderedResponse
text_response status body = record {
  status = status;
  content_type = "text/plain; charset=utf-8";
  body = body;
}

unfoldable pub detail_not_found_response : RenderedResponse
unfolding json_response
detail_not_found_response = json_response "200 OK" "null"

abbrev pub auth_status : TokenVerificationError → String
auth_status missing_token = "401 Unauthorized"
auth_status invalid_token = "401 Unauthorized"
auth_status reauth_required = "403 Forbidden"

unfoldable pub catalog_auth_error_status : CatalogReadError → String
catalog_auth_error_status (Catalog.auth error) = auth_status error
catalog_auth_error_status Catalog.inactive_session = "403 Forbidden"

-- The status of an error of the three details, whose functions have the same arms.
unfoldable pub detail_error_status : DetailError → String
detail_error_status (Detail.auth error) = auth_status error
detail_error_status Detail.inactive_session = "403 Forbidden"
detail_error_status Detail.missing_identifier = "400 Bad Request"

unfoldable pub subscription_status_error_status : SubscriptionStatusError → String
subscription_status_error_status (Subscription.auth error) = auth_status error
subscription_status_error_status Subscription.inactive_session = "403 Forbidden"

unfoldable pub actor_handoff_status_error_status : ActorHandoffStatusError → String
actor_handoff_status_error_status (Handoff.auth error) = auth_status error

abbrev pub is_data_path : String → Bool
is_data_path path =
    path == vocabulary_catalog_path
    || path == vocabulary_expression_detail_path
    || path == explanation_detail_path
    || path == image_detail_path
    || path == subscription_status_path
    || path == actor_handoff_status_path

abbrev pub is_writing_method : String → Bool
is_writing_method method =
    method == "POST" || method == "PUT" || method == "PATCH" || method == "DELETE"

module _ (json : Json) where
  unfoldable pub error_response : String → String → RenderedResponse
  unfolding json_response
  error_response status message = json_response status (json.write_error message)

  unfoldable pub missing_identifier_response : RenderedResponse
  unfolding error_response json_response
  missing_identifier_response = error_response "400 Bad Request" "identifier is required"

  unfoldable pub detail_source_unavailable : RenderedResponse
  unfolding error_response json_response
  detail_source_unavailable =
      error_response "503 Service Unavailable" "detail source not configured"

  unfoldable pub render_catalog : Result CatalogReadResponse CatalogReadError → RenderedResponse
  unfolding json_response error_response Catalog.user_message
  render_catalog (ok response) = json_response "200 OK" (json.write_catalog response)
  render_catalog (err error) =
      error_response (catalog_auth_error_status error) (Catalog.user_message error)

  unfoldable pub render_detail :
      {V : Type 0} → (V → String) → Result (Option V) DetailError → RenderedResponse
  unfolding json_response error_response Detail.user_message detail_not_found_response
  render_detail write (ok (some view)) = json_response "200 OK" (write view)
  render_detail write (ok none) = detail_not_found_response
  render_detail write (err error) =
      error_response (detail_error_status error) (Detail.user_message error)

  unfoldable pub render_subscription :
      Result SubscriptionStatusView SubscriptionStatusError → RenderedResponse
  unfolding json_response error_response Subscription.user_message
  render_subscription (ok view) = json_response "200 OK" (json.write_subscription view)
  render_subscription (err error) =
      error_response (subscription_status_error_status error) (Subscription.user_message error)

  unfoldable pub render_handoff :
      Result ActorHandoffStatusView ActorHandoffStatusError → RenderedResponse
  unfolding json_response error_response Handoff.user_message
  render_handoff (ok view) = json_response "200 OK" (json.write_handoff view)
  render_handoff (err error) =
      error_response (actor_handoff_status_error_status error) (Handoff.user_message error)

  -- The early returns that the three details share: no source, no identifier.
  unfoldable pub with_identifier :
      {Source : Type 0}
      → Option Source
      → Option String
      → (Source → String → RenderedResponse)
      → RenderedResponse
  with_identifier none identifier answer = detail_source_unavailable
  with_identifier (some source) none answer = missing_identifier_response
  with_identifier (some source) (some identifier) answer = answer source identifier

  module _ (ctx : RouteContext) (request : Request) where
    abbrev pub authorization : Option String
    authorization = lookup "authorization" request.headers

    unfoldable pub vocabulary_catalog_response : RenderedResponse
    vocabulary_catalog_response =
        render_catalog
          (read_catalog_from_authorization_header authorization ctx.verifier ctx.catalog_source)

    unfoldable pub vocabulary_expression_detail_response : Option String → RenderedResponse
    vocabulary_expression_detail_response query =
        with_identifier ctx.vocabulary_expression_detail_source (require_identifier query)
          (λ source identifier. render_detail json.write_vocabulary (
            read_vocabulary_expression_detail_from_authorization_header authorization identifier
              ctx.verifier source))

    unfoldable pub explanation_detail_response : Option String → RenderedResponse
    explanation_detail_response query =
        with_identifier ctx.explanation_detail_source (require_identifier query)
          (λ source identifier. render_detail json.write_explanation (
            read_explanation_detail_from_authorization_header authorization identifier ctx.verifier
              source))

    unfoldable pub image_detail_response : Option String → RenderedResponse
    image_detail_response query =
        with_identifier ctx.image_detail_source (require_identifier query) (λ source identifier.
          render_detail json.write_image (
            read_image_detail_from_authorization_header authorization identifier ctx.verifier
              source))

    abbrev pub subscription_with : Option SubscriptionStatusSource → RenderedResponse
    subscription_with none = detail_source_unavailable
    subscription_with (some source) =
        render_subscription
          (read_subscription_status_from_authorization_header authorization ctx.verifier source)

    unfoldable pub subscription_status_response : RenderedResponse
    subscription_status_response = subscription_with ctx.subscription_status_source

    unfoldable pub actor_handoff_status_response : RenderedResponse
    actor_handoff_status_response =
        render_handoff
          (read_actor_handoff_status_from_authorization_header authorization ctx.verifier)

    unfoldable pub firebase_dependency_response : RenderedResponse
    unfolding text_response
    firebase_dependency_response =
        text_response (if ctx.firebase_healthy then "200 OK" else "503 Service Unavailable")
          ctx.firebase_report

    -- `route_request` for the method GET.
    unfoldable pub route_get : String → Option String → RenderedResponse
    unfolding text_response
    route_get path query =
        if path == ctx.readiness_path
        then text_response "200 OK" (concat (service_name ∷ " ready" ∷ []))
        else if path == "/dependencies/firebase"
        then firebase_dependency_response
        else if path == "/"
        then text_response "200 OK" root_message
        else if path == vocabulary_catalog_path
        then vocabulary_catalog_response
        else if path == vocabulary_expression_detail_path
        then vocabulary_expression_detail_response query
        else if path == explanation_detail_path
        then explanation_detail_response query
        else if path == image_detail_path
        then image_detail_response query
        else if path == subscription_status_path
        then subscription_status_response
        else if path == actor_handoff_status_path
        then actor_handoff_status_response
        else text_response "404 Not Found" "not found"

    unfoldable pub route_request : RenderedResponse
    unfolding text_response
    route_request =
        let (path, query) = split_path_and_query request.path in
        if request.method == "GET"
        then route_get path query
        else if is_writing_method request.method && is_data_path path
        then error_response "405 Method Not Allowed" "method not allowed"
        else text_response "404 Not Found" "not found"

-- ===== src/QueryApi/Endpoint/Guard.antt =====
-- To whom a read is answered with data.
use text.Mathlib.Text.{◌==◌}
use vocastock.Prelude.{
  ◌≡◌, ◌≢◌, String, Bool, true, ◌&&◌, ◌||◌, Option, none, some, Result-cases, Bool-cases, inl, inr,
  eq_iff, if_cases,
}
use vocastock.TextMap.{lookup}
use vocastock.Auth.{
  VerifiedActorContext, is_active, TokenVerificationError, missing_token, invalid_token,
  reauth_required, TokenVerifier,
}
use vocastock.QueryApi.Contract.{
  vocabulary_catalog_path, vocabulary_expression_detail_path, explanation_detail_path,
  image_detail_path, subscription_status_path,
}
use vocastock.QueryApi.Authorization.{authenticate}
use vocastock.QueryApi.Catalog.{CatalogSource, read_catalog, read_catalog_from_authorization_header}
use vocastock.QueryApi.Detail.{read_detail, read_detail_from_authorization_header}
use vocastock.QueryApi.Explanation.{read_explanation_detail_from_authorization_header}
use vocastock.QueryApi.Image.{read_image_detail_from_authorization_header}
use vocastock.QueryApi.Vocabulary.{read_vocabulary_expression_detail_from_authorization_header}
use vocastock.QueryApi.Subscription.{
  SubscriptionStatusSource, read_subscription_status,
  read_subscription_status_from_authorization_header,
}
use vocastock.QueryApi.Vocabulary as Vocabulary
use vocastock.QueryApi.Explanation as Explanation
use vocastock.QueryApi.Image as Image
use vocastock.QueryApi.Query.{split_path_and_query, require_identifier}
use vocastock.QueryApi.Endpoint.{
  Request, RenderedResponse, Json, RouteContext, json_response, text_response, error_response,
  detail_source_unavailable, missing_identifier_response, auth_status, catalog_auth_error_status,
  detail_error_status, subscription_status_error_status, render_catalog, render_detail,
  render_subscription, with_identifier, vocabulary_catalog_response,
  vocabulary_expression_detail_response, explanation_detail_response, image_detail_response,
  subscription_with, subscription_status_response, route_get, route_request, is_data_path,
  is_writing_method, actor_handoff_status_response,
}
use vocastock.QueryApi.Endpoint.Laws.{IsActor}

-- A path whose data belong to an actor.
abbrev pub is_actor_path : String → Bool
is_actor_path path =
    path == vocabulary_catalog_path
    || path == vocabulary_expression_detail_path
    || path == explanation_detail_path
    || path == image_detail_path
    || path == subscription_status_path

auth_status-fails : (e : TokenVerificationError) → auth_status e ≢ "200 OK"
auth_status-fails missing_token h = absurd (cc ((eq_iff _ _).1 h))
auth_status-fails invalid_token h = absurd (cc ((eq_iff _ _).1 h))
auth_status-fails reauth_required h = absurd (cc ((eq_iff _ _).1 h))

forbidden-fails : ◌≢◌ {A = String} "403 Forbidden" "200 OK"
forbidden-fails h = absurd (cc ((eq_iff _ _).1 h))

module _ (json : Json) (header : Option String) (verifier : TokenVerifier) where
  -- A response with data is one to an actor in an active session.
  abbrev Guarded : RenderedResponse → Type 0
  Guarded r = r.status ≡ "200 OK" → (c : VerifiedActorContext) × IsActor header verifier c

  catalog-Guarded :
      (source : CatalogSource)
      → Guarded
          (render_catalog json (read_catalog_from_authorization_header header verifier source))
  unfolding render_catalog read_catalog_from_authorization_header read_catalog error_response
      json_response catalog_auth_error_status
  catalog-Guarded source h = elim (Result-cases (authenticate header verifier)) [
    | inr (e, refused) ↦ absurd (auth_status-fails e (rw refused at h))
    | inl (c, known) ↦ elim (Bool-cases (is_active c)) [
      | inl active ↦ (c, (known, active))
      | inr inactive ↦ absurd (forbidden-fails (rw (known, inactive) at h))
    ]
  ]

  detail-Guarded :
      {R V : Type 0} (view : R → V) (write : V → String) (i : String)
      (record_for : VerifiedActorContext → String → Option R)
      → Guarded (
          render_detail json write
            (read_detail_from_authorization_header view header i verifier record_for))
  unfolding render_detail read_detail_from_authorization_header read_detail error_response
      json_response detail_error_status
  detail-Guarded view write i record_for h = elim (Result-cases (authenticate header verifier)) [
    | inr (e, refused) ↦ absurd (auth_status-fails e (rw refused at h))
    | inl (c, known) ↦ elim (Bool-cases (is_active c)) [
      | inl active ↦ (c, (known, active))
      | inr inactive ↦ absurd (forbidden-fails (rw (known, inactive) at h))
    ]
  ]

  with_identifier-Guarded :
      {R V : Type 0} (view : R → V) (write : V → String)
      (source : Option (VerifiedActorContext → String → Option R)) (identifier : Option String)
      → Guarded (
          with_identifier json source identifier (λ record_for i.
            render_detail json write
              (read_detail_from_authorization_header view header i verifier record_for)))
  unfolding with_identifier detail_source_unavailable missing_identifier_response error_response
      json_response
  with_identifier-Guarded view write none identifier h = absurd (cc ((eq_iff _ _).1 h))
  with_identifier-Guarded view write (some f) none h = absurd (cc ((eq_iff _ _).1 h))
  with_identifier-Guarded view write (some f) (some i) h = detail-Guarded view write i f h

  status-Guarded :
      (source : SubscriptionStatusSource)
      → Guarded (
          render_subscription json
            (read_subscription_status_from_authorization_header header verifier source))
  unfolding render_subscription read_subscription_status_from_authorization_header
      read_subscription_status error_response json_response subscription_status_error_status
  status-Guarded source h = elim (Result-cases (authenticate header verifier)) [
    | inr (e, refused) ↦ absurd (auth_status-fails e (rw refused at h))
    | inl (c, known) ↦ elim (Bool-cases (is_active c)) [
      | inl active ↦ (c, (known, active))
      | inr inactive ↦ absurd (forbidden-fails (rw (known, inactive) at h))
    ]
  ]

elsewhere :
    (path : String) → is_actor_path path ≡ true → (path ≢ "/dependencies/firebase") × (path ≢ "/")
elsewhere path h = (λ e. absurd (cc (rw e at h)), λ e. absurd (cc (rw e at h)))

module _ (json : Json) (ctx : RouteContext) (request : Request) where
  subscription-Guarded :
      (source : Option SubscriptionStatusSource)
      → Guarded json
          (lookup "authorization" request.headers)
          ctx.verifier
          (subscription_with json ctx request source)
  unfolding detail_source_unavailable error_response json_response
  subscription-Guarded none h = absurd (cc ((eq_iff _ _).1 h))
  subscription-Guarded (some source) h =
      status-Guarded json (lookup "authorization" request.headers) ctx.verifier source h

  route_get-Guarded :
      (path : String) (query : Option String)
      → path ≢ ctx.readiness_path
      → is_actor_path path ≡ true
      → Guarded json
          (lookup "authorization" request.headers)
          ctx.verifier
          (route_get json ctx request path query)
  unfolding route_get vocabulary_catalog_response vocabulary_expression_detail_response
      explanation_detail_response image_detail_response subscription_status_response
      read_explanation_detail_from_authorization_header read_image_detail_from_authorization_header
      read_vocabulary_expression_detail_from_authorization_header text_response
      actor_handoff_status_response
  route_get-Guarded path query other data_path =
      let header = lookup "authorization" request.headers in
      let goal : RenderedResponse → Type 0 = Guarded json header ctx.verifier in
      let (not_firebase, not_root) = elsewhere path data_path in
      if_cases goal (path == ctx.readiness_path) (λ e. absurd (other ((eq_iff _ _).0 e)))
        (λ _.
          if_cases goal (path == "/dependencies/firebase")
            (λ e. absurd (not_firebase ((eq_iff _ _).0 e)))
            (λ _.
              if_cases goal (path == "/") (λ e. absurd (not_root ((eq_iff _ _).0 e)))
                (λ _.
                  if_cases goal (path == vocabulary_catalog_path)
                    (λ _. catalog-Guarded json header ctx.verifier ctx.catalog_source)
                    (λ a.
                      if_cases goal (path == vocabulary_expression_detail_path)
                        (λ _.
                          with_identifier-Guarded json header ctx.verifier Vocabulary.map_record
                            json.write_vocabulary ctx.vocabulary_expression_detail_source
                            (require_identifier query))
                        (λ b.
                          if_cases goal (path == explanation_detail_path)
                            (λ _.
                              with_identifier-Guarded json header ctx.verifier
                                Explanation.map_record json.write_explanation
                                ctx.explanation_detail_source (require_identifier query))
                            (λ c.
                              if_cases goal (path == image_detail_path)
                                (λ _.
                                  with_identifier-Guarded json header ctx.verifier Image.map_record
                                    json.write_image ctx.image_detail_source
                                    (require_identifier query))
                                (λ d.
                                  if_cases goal (path == subscription_status_path)
                                    (λ _. subscription-Guarded ctx.subscription_status_source)
                                    (λ e. absurd (cc (rw (a, b, c, d, e) at data_path))))))))))

  -- A request for the data of an actor, at a path that is not the readiness path, is only answered
  -- with 200 OK if its token is one that the verifier takes for an actor in an active session.
  pub route_request-Guarded :
      is_actor_path (split_path_and_query request.path).0 ≡ true
      → (split_path_and_query request.path).0 ≢ ctx.readiness_path
      → (route_request json ctx request).status ≡ "200 OK"
      → (c : VerifiedActorContext) × IsActor (lookup "authorization" request.headers) ctx.verifier c
  unfolding route_request text_response error_response json_response
  route_request-Guarded data_path other =
      let path = (split_path_and_query request.path).0 in
      let goal : RenderedResponse → Type 0 =
        Guarded json (lookup "authorization" request.headers) ctx.verifier in
      if_cases goal (request.method == "GET")
        (λ _. route_get-Guarded path (split_path_and_query request.path).1 other data_path)
        (λ _.
          if_cases goal (is_writing_method request.method && is_data_path path)
            (λ _ h. absurd (cc ((eq_iff _ _).1 h))) (λ _ h. absurd (cc ((eq_iff _ _).1 h))))

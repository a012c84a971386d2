-- ===== src/QueryApi/Endpoint/Laws.antt =====
-- What a response depends on, and whom it is given to.
use vocastock.Prelude.{
  ◌≡◌, refl, ap, String, true, Option, none, some, ok, Result-cases, Bool-cases, inl, inr,
}
use vocastock.TextMap.{lookup}
use vocastock.Auth.{VerifiedActorContext, is_active, TokenVerifier}
use vocastock.QueryApi.Authorization.{authenticate}
use vocastock.QueryApi.Catalog.{CatalogSource, read_catalog, read_catalog_from_authorization_header}
use vocastock.QueryApi.Detail.{read_detail, read_detail_from_authorization_header}
use vocastock.QueryApi.Explanation.{
  ExplanationDetailSource, ExplanationDetailView, read_explanation_detail_from_authorization_header,
}
use vocastock.QueryApi.Image.{
  ImageDetailSource, ImageDetailView, read_image_detail_from_authorization_header,
}
use vocastock.QueryApi.Vocabulary.{
  VocabularyExpressionDetailSource, VocabularyExpressionEntryView,
  read_vocabulary_expression_detail_from_authorization_header,
}
use vocastock.QueryApi.Subscription.{
  SubscriptionStatusSource, read_subscription_status,
  read_subscription_status_from_authorization_header,
}
use vocastock.QueryApi.Vocabulary as Vocabulary
use vocastock.QueryApi.Explanation as Explanation
use vocastock.QueryApi.Image as Image
use vocastock.QueryApi.Query.{split_path_and_query, require_identifier}
use vocastock.QueryApi.Endpoint.{
  Request, Json, RouteContext, render_catalog, render_detail, with_identifier,
  vocabulary_catalog_response, vocabulary_expression_detail_response, explanation_detail_response,
  image_detail_response, subscription_with, subscription_status_response,
  firebase_dependency_response, actor_handoff_status_response, route_get, route_request,
}

-- The sources of a context.
pub record Sources : Type 0 where
  pub catalog : CatalogSource
  pub vocabulary : Option VocabularyExpressionDetailSource
  pub explanation : Option ExplanationDetailSource
  pub image : Option ImageDetailSource
  pub subscription : Option SubscriptionStatusSource

abbrev pub with_sources : RouteContext → Sources → RouteContext
with_sources ctx s = record ctx {
  catalog_source = s.catalog;
  vocabulary_expression_detail_source = s.vocabulary;
  explanation_detail_source = s.explanation;
  image_detail_source = s.image;
  subscription_status_source = s.subscription;
}

module _ (header : Option String) (verifier : TokenVerifier) where
  -- The actor of the request, in an active session.
  abbrev pub IsActor : VerifiedActorContext → Type 0
  IsActor c = (authenticate header verifier ≡ ok c) × (is_active c ≡ true)

  abbrev pub AgreeOnDetail :
      {R : Type 0}
      → Option (VerifiedActorContext → String → Option R)
      → Option (VerifiedActorContext → String → Option R)
      → Type 0
  AgreeOnDetail none none = Unit
  AgreeOnDetail none (some g) = ⊥
  AgreeOnDetail (some f) none = ⊥
  AgreeOnDetail (some f) (some g) =
      (c : VerifiedActorContext) → IsActor c → (i : String) → f c i ≡ g c i

  abbrev pub AgreeOnStatus :
      Option SubscriptionStatusSource → Option SubscriptionStatusSource → Type 0
  AgreeOnStatus none none = Unit
  AgreeOnStatus none (some g) = ⊥
  AgreeOnStatus (some f) none = ⊥
  AgreeOnStatus (some f) (some g) = (c : VerifiedActorContext) → IsActor c → f c ≡ g c

  -- The same sources are there, and they hold the same for the actor of the request.
  abbrev pub Agree : Sources → Sources → Type 0
  Agree s t =
      ((c : VerifiedActorContext) → IsActor c → s.catalog c ≡ t.catalog c)
      × AgreeOnDetail s.vocabulary t.vocabulary
      × AgreeOnDetail s.explanation t.explanation
      × AgreeOnDetail s.image t.image
      × AgreeOnStatus s.subscription t.subscription

  catalog_agrees :
      (f g : CatalogSource)
      → ((c : VerifiedActorContext) → IsActor c → f c ≡ g c)
      → read_catalog_from_authorization_header header verifier f
        ≡ read_catalog_from_authorization_header header verifier g
  unfolding read_catalog_from_authorization_header read_catalog
  catalog_agrees f g h = elim (Result-cases (authenticate header verifier)) [
    | inr (e, refused) ↦ rw refused
    | inl (c, known) ↦ elim (Bool-cases (is_active c)) [
      | inl active ↦ rw (known, active, h c (known, active))
      | inr inactive ↦ rw (known, inactive)
    ]
  ]

  detail_agrees :
      {R V : Type 0} (view : R → V) (f g : VerifiedActorContext → String → Option R) (i : String)
      → ((c : VerifiedActorContext) → IsActor c → (j : String) → f c j ≡ g c j)
      → read_detail_from_authorization_header view header i verifier f
        ≡ read_detail_from_authorization_header view header i verifier g
  unfolding read_detail_from_authorization_header read_detail
  detail_agrees view f g i h = elim (Result-cases (authenticate header verifier)) [
    | inr (e, refused) ↦ rw refused
    | inl (c, known) ↦ elim (Bool-cases (is_active c)) [
      | inl active ↦ rw (known, active, h c (known, active) i)
      | inr inactive ↦ rw (known, inactive)
    ]
  ]

  status_agrees :
      (f g : SubscriptionStatusSource)
      → ((c : VerifiedActorContext) → IsActor c → f c ≡ g c)
      → read_subscription_status_from_authorization_header header verifier f
        ≡ read_subscription_status_from_authorization_header header verifier g
  unfolding read_subscription_status_from_authorization_header read_subscription_status
  status_agrees f g h = elim (Result-cases (authenticate header verifier)) [
    | inr (e, refused) ↦ rw refused
    | inl (c, known) ↦ elim (Bool-cases (is_active c)) [
      | inl active ↦ rw (known, active, h c (known, active))
      | inr inactive ↦ rw (known, inactive)
    ]
  ]

module _ (json : Json) (ctx : RouteContext) (request : Request) where
  abbrev pub given_header : Option String
  given_header = lookup "authorization" request.headers

  detail_response :
      {R V : Type 0} (view : R → V) (write : V → String) (identifier : Option String)
      (s t : Option (VerifiedActorContext → String → Option R))
      → AgreeOnDetail given_header ctx.verifier s t
      → with_identifier json s identifier (λ source i.
        render_detail json write
          (read_detail_from_authorization_header view given_header i ctx.verifier source))
        ≡ with_identifier json t identifier (λ source i.
          render_detail json write
            (read_detail_from_authorization_header view given_header i ctx.verifier source))
  unfolding with_identifier
  detail_response view write identifier none none h = refl
  detail_response view write identifier none (some g) h = absurd h
  detail_response view write identifier (some f) none h = absurd h
  detail_response view write none (some f) (some g) h = refl
  detail_response view write (some i) (some f) (some g) h =
      rw (detail_agrees given_header ctx.verifier view f g i h)

  status_response :
      (s t : Option SubscriptionStatusSource)
      → AgreeOnStatus given_header ctx.verifier s t
      → subscription_with json ctx request s ≡ subscription_with json ctx request t
  status_response none none h = refl
  status_response none (some g) h = absurd h
  status_response (some f) none h = absurd h
  status_response (some f) (some g) h = rw (status_agrees given_header ctx.verifier f g h)

  module _ (s t : Sources) where
    vocabulary_same :
        (query : Option String)
        → AgreeOnDetail given_header ctx.verifier s.vocabulary t.vocabulary
        → vocabulary_expression_detail_response json (with_sources ctx s) request query
          ≡ vocabulary_expression_detail_response json (with_sources ctx t) request query
    unfolding vocabulary_expression_detail_response
        read_vocabulary_expression_detail_from_authorization_header
    vocabulary_same query h =
        detail_response Vocabulary.map_record json.write_vocabulary (require_identifier query)
          s.vocabulary t.vocabulary h

    explanation_same :
        (query : Option String)
        → AgreeOnDetail given_header ctx.verifier s.explanation t.explanation
        → explanation_detail_response json (with_sources ctx s) request query
          ≡ explanation_detail_response json (with_sources ctx t) request query
    unfolding explanation_detail_response read_explanation_detail_from_authorization_header
    explanation_same query h =
        detail_response Explanation.map_record json.write_explanation (require_identifier query)
          s.explanation t.explanation h

    image_same :
        (query : Option String)
        → AgreeOnDetail given_header ctx.verifier s.image t.image
        → image_detail_response json (with_sources ctx s) request query
          ≡ image_detail_response json (with_sources ctx t) request query
    unfolding image_detail_response read_image_detail_from_authorization_header
    image_same query h =
        detail_response Image.map_record json.write_image (require_identifier query) s.image t.image
          h

    catalog_same :
        ((c : VerifiedActorContext)
          → IsActor given_header ctx.verifier c
          → s.catalog c ≡ t.catalog c)
        → vocabulary_catalog_response json (with_sources ctx s) request
          ≡ vocabulary_catalog_response json (with_sources ctx t) request
    unfolding vocabulary_catalog_response
    catalog_same h =
        ap (render_catalog json) (catalog_agrees given_header ctx.verifier s.catalog t.catalog h)

    subscription_same :
        AgreeOnStatus given_header ctx.verifier s.subscription t.subscription
        → subscription_status_response json (with_sources ctx s) request
          ≡ subscription_status_response json (with_sources ctx t) request
    unfolding subscription_status_response
    subscription_same h = status_response s.subscription t.subscription h

  -- Whatever else two sets of sources hold, a request is answered the same where they hold the same
  -- for the actor that its token proves, in an active session: the response depends on no other
  -- actor's records, and on none at all for a request without such an actor.
  pub route_request-Agree :
      (s t : Sources)
      → Agree given_header ctx.verifier s t
      → route_request json (with_sources ctx s) request
        ≡ route_request json (with_sources ctx t) request
  unfolding route_request route_get firebase_dependency_response actor_handoff_status_response
  route_request-Agree s t (catalog, vocabulary, explanation, image, subscription) =
      let query = (split_path_and_query request.path).1 in
      rw (
        catalog_same s t catalog,
        vocabulary_same s t query vocabulary,
        explanation_same s t query explanation,
        image_same s t query image,
        subscription_same s t subscription,
        route_request,
        route_get,
      )

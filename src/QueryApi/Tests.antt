-- ===== src/QueryApi/Tests.antt =====
-- Concrete requests to the read service.
use vocastock.Prelude.{
  All, ok_injective, if◌then◌else◌, ◌≡◌, refl, true, false, none, some, [], ◌∷◌, ok, pos,
}
use text.Mathlib.Text.{◌==◌}
use vocastock.TextMap.{lookup}
use vocastock.Text.{trim, is_empty, split_once, eq_ignore_ascii_case}
use vocastock.CommandApi.Endpoint.Failures as Failures
use vocastock.Auth.{VerifiedActorContext, is_active}
use vocastock.CommandApi.StubVerifier.{sample_actor_context}
use vocastock.QueryApi.Authorization.{stub_verify, authenticate, extract_bearer_token}
use vocastock.QueryApi.Catalog.{
  ProjectionSourceRecord, CatalogSource, CatalogReadResponse, succeeded, queued, items_of,
  populated, eventual, read_catalog, read_catalog_from_authorization_header,
}
use vocastock.QueryApi.Catalog.Laws.{ShowsAll, StateOf, read_catalog-ok}
use vocastock.QueryApi.Subscription.{
  SubscriptionRecord, SubscriptionStatusSource, map_record, view_of, read_subscription_status,
}
use vocastock.QueryApi.Subscription.Laws.{Earned, read_subscription_status-Earned}
use vocastock.Json.{Value, object, field, array, item, none_left, nil, string}
use vocastock.Firestore.Document.{FirestoreSource, Reader}
use vocastock.QueryApi.Documents.{catalog_records_for_actor}
use vocastock.QueryApi.Documents.Laws.{IsComplete, catalog_records_for_actor-AreComplete}
use vocastock.QueryApi.Query.{split_path_and_query}
use vocastock.QueryApi.Endpoint.{
  Request, Json, RouteContext, route_request, route_get, vocabulary_catalog_response,
  render_catalog, json_response,
}
use vocastock.QueryApi.Endpoint.Laws.{Sources, with_sources, IsActor, route_request-Agree}
use vocastock.QueryApi.Endpoint.Guard.{route_request-Guarded}

abbrev learner : VerifiedActorContext
learner = sample_actor_context "actor:learner"

abbrev coffee : ProjectionSourceRecord
coffee = record {
  vocabulary_expression = "vocabulary:coffee";
  registration_state = "registered";
  latest_workflow_state = succeeded;
  current_explanation_available = true;
  summary = some "A warm drink.";
}

abbrev orbit : ProjectionSourceRecord
orbit = record {
  vocabulary_expression = "vocabulary:orbit";
  registration_state = "registered";
  latest_workflow_state = queued;
  current_explanation_available = false;
  summary = none;
}

abbrev two_records : CatalogSource
two_records context = coffee ∷ orbit ∷ []

abbrev two_items : CatalogReadResponse
two_items = record {
  items = items_of (coffee ∷ orbit ∷ []);
  collection_state = populated;
  projection_freshness = eventual;
}

two_read : read_catalog learner two_records ≡ ok two_items
unfolding read_catalog items_of sample_actor_context is_active
two_read = refl

read_catalog-ok_example :
    (is_active learner ≡ true)
    × ShowsAll (coffee ∷ orbit ∷ []) two_items.items
    × StateOf populated (coffee ∷ orbit ∷ [])
read_catalog-ok_example = read_catalog-ok learner two_records two_items two_read

abbrev premium : SubscriptionRecord
premium = record {
  state = "active";
  plan = "proMonthly";
  entitlement = "premiumGeneration";
  allowance = record {
    remaining_explanation_generations = pos 5;
    remaining_image_generations = pos 2;
  };
}

abbrev subscribed : SubscriptionStatusSource
subscribed context = some premium

premium_read : read_subscription_status learner subscribed ≡ ok (map_record premium)
unfolding read_subscription_status sample_actor_context is_active map_record view_of
premium_read = refl

read_subscription_status-Earned_example :
    (is_active learner ≡ true) × Earned (some premium) (map_record premium)
read_subscription_status-Earned_example =
    read_subscription_status-Earned learner subscribed (map_record premium) premium_read

-- A writer that tells the kinds of body apart.
abbrev kinds : Json
kinds = record {
  write_error = λ message. message;
  write_catalog = λ response. "catalog";
  write_vocabulary = λ view. "vocabulary";
  write_explanation = λ view. "explanation";
  write_image = λ view. "image";
  write_subscription = λ view. "subscription";
  write_handoff = λ view. "handoff";
}

abbrev service : RouteContext
service = record {
  readiness_path = "/readyz";
  verifier = stub_verify;
  catalog_source = two_records;
  vocabulary_expression_detail_source = none;
  explanation_detail_source = none;
  image_detail_source = none;
  subscription_status_source = some subscribed;
  firebase_report = "";
  firebase_healthy = true;
}

abbrev catalog_request : Request
catalog_request = record {
  method = "GET";
  path = "/vocabulary-catalog";
  headers = ("authorization", "Bearer valid-learner-token") ∷ [];
}

catalog_answered : (route_request kinds service catalog_request).status ≡ "200 OK"
unfolding route_request route_get split_path_and_query split_once vocabulary_catalog_response
    render_catalog read_catalog_from_authorization_header authenticate extract_bearer_token
    Failures.extract_bearer_token lookup is_empty trim eq_ignore_ascii_case stub_verify read_catalog
    sample_actor_context is_active json_response
catalog_answered = refl

route_request-Guarded_example :
    (c : VerifiedActorContext) × IsActor
      (lookup "authorization" catalog_request.headers)
      stub_verify
      c
unfolding split_path_and_query split_once
route_request-Guarded_example =
    route_request-Guarded kinds service catalog_request refl (λ e. cc e) catalog_answered

abbrev two_sources : Sources
two_sources = record {
  catalog = two_records;
  vocabulary = none;
  explanation = none;
  image = none;
  subscription = some subscribed;
}

-- Other actors have no records here.
unfoldable learner_records : CatalogSource
learner_records context =
    if context.actor.as_str == "actor:learner" then coffee ∷ orbit ∷ [] else []

abbrev learner_only : Sources
learner_only = record two_sources { catalog = learner_records }

learner_asks :
    (c : VerifiedActorContext)
    → IsActor (lookup "authorization" catalog_request.headers) stub_verify c
    → two_records c ≡ learner_records c
unfolding authenticate extract_bearer_token Failures.extract_bearer_token lookup is_empty trim
    split_once eq_ignore_ascii_case stub_verify sample_actor_context learner_records
learner_asks c (known, active) = let same : learner ≡ c = ok_injective known in rw (← same) refl

route_request-Agree_example :
    route_request kinds (with_sources service two_sources) catalog_request
    ≡ route_request kinds (with_sources service learner_only) catalog_request
route_request-Agree_example =
    route_request-Agree kinds service catalog_request two_sources learner_only
      (learner_asks, tt, tt, tt, (λ c h. refl))

abbrev emulator : FirestoreSource
emulator = record { emulator_host = "127.0.0.1:18080"; project_id = "demo-vocastock" }

-- A listing with one document, which names no explanation.
abbrev listing : Reader Value
listing = record {
  execute_get = λ host path. ok (
      object (
        field "documents"
          (array (
            item
              (object (
                field "fields"
                  (object (
                    field "id" (object (field "stringValue" (string "v1") nil))
                      (field "text" (object (field "stringValue" (string "coffee") nil)) nil)))
                  nil))
              none_left))
          nil));
  from_str = λ body. some body;
}

catalog_records_for_actor-AreComplete_example :
    All IsComplete (catalog_records_for_actor listing emulator learner)
catalog_records_for_actor-AreComplete_example =
    catalog_records_for_actor-AreComplete listing emulator learner

-- ===== src/QueryApi/Catalog.antt =====
-- applications/backend/query-api/src/query_catalog_read/catalog: model.rs, source.rs and read.rs.
pub mod Laws
use vocastock.Prelude.{
  String, Bool, true, false, not, ◌&&◌, Option, none, some, List, [], ◌∷◌, Result, ok, err, ◌>>=◌,
  ◌>>◌, refuse_if, map_err, if◌then◌else◌,
}
use vocastock.TextMap.{lookup}
use vocastock.Auth.{
  VerifiedActorContext, is_active, TokenVerificationError, message as token_message, TokenVerifier,
}
use vocastock.QueryApi.Authorization.{authenticate}

pub data WorkflowState : Type 0 where
  queued running retry_scheduled succeeded timed_out failed_final dead_lettered : WorkflowState

unfoldable pub status_reason : WorkflowState → Bool → String
status_reason queued available = "explanation is queued"
status_reason running available = "explanation is running"
status_reason retry_scheduled available = "explanation is waiting for retry"
status_reason succeeded false = "completed explanation is not yet visible"
status_reason succeeded true = "completed explanation is available"
status_reason timed_out available = "explanation timed out before completion"
status_reason failed_final available = "explanation failed without additional retries"
status_reason dead_lettered available = "explanation moved to dead-letter handling"

pub data CatalogVisibility : Type 0 where
  completed_summary status_only : CatalogVisibility

pub data CollectionState : Type 0 where
  empty populated : CollectionState

pub data ProjectionFreshness : Type 0 where
  eventual : ProjectionFreshness

pub record VocabularyCatalogItem : Type 0 where
  pub vocabulary_expression : String
  pub registration_state : String
  pub explanation_state : WorkflowState
  pub visibility : CatalogVisibility
  pub summary : Option String
  pub reason : Option String

pub record CatalogReadResponse : Type 0 where
  pub items : List VocabularyCatalogItem
  pub collection_state : CollectionState
  pub projection_freshness : ProjectionFreshness

pub record ProjectionSourceRecord : Type 0 where
  pub vocabulary_expression : String
  pub registration_state : String
  pub latest_workflow_state : WorkflowState
  pub current_explanation_available : Bool
  pub summary : Option String

-- `CatalogProjectionSource`: the records of an actor.
abbrev pub CatalogSource : Type 0
CatalogSource = VerifiedActorContext → List ProjectionSourceRecord

pub data CatalogReadError : Type 0 where
  auth : TokenVerificationError → CatalogReadError
  inactive_session : CatalogReadError

unfoldable pub user_message : CatalogReadError → String
unfolding token_message
user_message (auth error) = token_message error
user_message inactive_session = "session is not active"

abbrev pub is_some : {A : Type 0} → Option A → Bool
is_some none = false
is_some (some a) = true

unfoldable pub completed_visibility : ProjectionSourceRecord → CatalogVisibility
completed_visibility r =
    if r.current_explanation_available && is_some r.summary then completed_summary else status_only

abbrev pub reason_of : CatalogVisibility → ProjectionSourceRecord → Option String
reason_of status_only r =
    some (status_reason r.latest_workflow_state r.current_explanation_available)
reason_of completed_summary r = none

abbrev pub summary_of : CatalogVisibility → ProjectionSourceRecord → Option String
summary_of completed_summary r = r.summary
summary_of status_only r = none

unfoldable pub map_projection_record : ProjectionSourceRecord → VocabularyCatalogItem
unfolding completed_visibility status_reason
map_projection_record r =
    let visibility = completed_visibility r in
    record {
      vocabulary_expression = r.vocabulary_expression;
      registration_state = r.registration_state;
      explanation_state = r.latest_workflow_state;
      visibility = visibility;
      summary = summary_of visibility r;
      reason = reason_of visibility r;
    }

unfoldable pub items_of : List ProjectionSourceRecord → List VocabularyCatalogItem
items_of [] = []
items_of (r ∷ records) = map_projection_record r ∷ items_of records

abbrev pub collection_state_of : List VocabularyCatalogItem → CollectionState
collection_state_of [] = empty
collection_state_of (item ∷ items) = populated

unfoldable pub read_catalog :
    VerifiedActorContext → CatalogSource → Result CatalogReadResponse CatalogReadError
read_catalog actor_context source = do
  refuse_if (not (is_active actor_context)) inactive_session
  let items = items_of (source actor_context)
  ok (record {
    items = items;
    collection_state = collection_state_of items;
    projection_freshness = eventual;
  })

unfoldable pub read_catalog_from_authorization_header :
    Option String → TokenVerifier → CatalogSource → Result CatalogReadResponse CatalogReadError
read_catalog_from_authorization_header authorization_header verifier source = do
  actor_context ← map_err auth (authenticate authorization_header verifier)
  read_catalog actor_context source

abbrev pub or_none : {A : Type 0} → Option (List A) → List A
or_none none = []
or_none (some records) = records

-- `InMemoryCatalogProjectionSource` over its map of actors.
unfoldable pub in_memory_catalog : List (String × List ProjectionSourceRecord) → CatalogSource
in_memory_catalog actor_records actor_context =
    or_none (lookup actor_context.actor.as_str actor_records)

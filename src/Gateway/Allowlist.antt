-- ===== src/Gateway/Allowlist.antt =====
-- applications/backend/graphql-gateway/src/gateway_routing/graphql/operation_allowlist.rs: what
-- `allowlisted_operation` decides about a document behind `parse_single_operation`.
pub mod Laws
use text.Mathlib.Text.{◌==◌}
use vocastock.Prelude.{
  String, Bool, true, false, Option, none, some, List, [], ◌∷◌, Result, ok, err, ◌>>=◌, ◌>>◌,
  refuse_if, not, ◌&&◌, if◌then◌else◌,
}
use vocastock.CommandApi.Contract.{
  service_name, register_vocabulary_expression_path, request_explanation_generation_path,
  request_image_generation_path, retry_generation_path, request_purchase_path,
  request_restore_purchase_path,
}
use vocastock.Gateway.Failure.{GatewayFailure, ambiguous_operation, unsupported_operation}

pub data GraphqlOperationKind : Type 0 where
  mutation query : GraphqlOperationKind

pub data VisibleGuarantee : Type 0 where
  accepted_only completed_or_status_only : VisibleGuarantee

pub record GatewayRoutingDecision : Type 0 where
  pub operation_kind : GraphqlOperationKind
  pub operation_name : String
  pub downstream_service : String
  pub downstream_route : String
  pub visible_guarantee : VisibleGuarantee

pub record ParsedOperation : Type 0 where
  pub operation_kind : GraphqlOperationKind
  pub operation_name : Option String
  pub root_fields : List String

unfoldable pub command_mutation : String → String → GatewayRoutingDecision
command_mutation operation_name downstream_route = record {
  operation_kind = mutation;
  operation_name = operation_name;
  downstream_service = service_name;
  downstream_route = downstream_route;
  visible_guarantee = accepted_only;
}

unfoldable pub query_decision : String → String → GatewayRoutingDecision
query_decision operation_name downstream_route = record {
  operation_kind = query;
  operation_name = operation_name;
  downstream_service = "query-api";
  downstream_route = downstream_route;
  visible_guarantee = completed_or_status_only;
}

-- The mutations of the allowlist, with the names of the source's constants written out.
abbrev pub mutation_routes : List (String × String)
mutation_routes =
    ("registerVocabularyExpression", register_vocabulary_expression_path)
    ∷ ("requestExplanationGeneration", request_explanation_generation_path)
    ∷ ("requestImageGeneration", request_image_generation_path)
    ∷ ("retryGeneration", retry_generation_path)
    ∷ ("requestPurchase", request_purchase_path)
    ∷ ("requestRestorePurchase", request_restore_purchase_path)
    ∷ []

abbrev pub query_routes : List (String × String)
query_routes =
    ("vocabularyCatalog", "/vocabulary-catalog")
    ∷ ("vocabularyExpressionDetail", "/vocabulary-expression-detail")
    ∷ ("explanationDetail", "/explanation-detail")
    ∷ ("imageDetail", "/image-detail")
    ∷ ("subscriptionStatus", "/subscription-status")
    ∷ ("actorHandoffStatus", "/actor-handoff-status")
    ∷ ("learningState", "/learning-state")
    ∷ []

-- The first arm of the source's `match` whose name is the field's.
unfoldable pub first_arm :
    (String → String → GatewayRoutingDecision)
    → List (String × String)
    → String
    → Result GatewayRoutingDecision GatewayFailure
first_arm decide [] field = err unsupported_operation
first_arm decide ((name, route) ∷ routes) field =
    let later = first_arm decide routes field in
    if field == name then ok (decide name route) else later

unfoldable pub decide_field :
    GraphqlOperationKind → String → Result GatewayRoutingDecision GatewayFailure
decide_field mutation field = first_arm command_mutation mutation_routes field
decide_field query field = first_arm query_decision query_routes field

-- `parsed.root_fields.len() != 1` is refused.
unfoldable pub decide_fields :
    GraphqlOperationKind → List String → Result GatewayRoutingDecision GatewayFailure
decide_fields kind [] = err ambiguous_operation
decide_fields kind (field ∷ []) = decide_field kind field
decide_fields kind (field ∷ _ ∷ _) = err ambiguous_operation

-- A request that names an operation must name the one of its document.
unfoldable pub names_agree : Option String → Option String → Bool
names_agree none document_name = true
names_agree (some request_name) none = false
names_agree (some request_name) (some document_name) = document_name == request_name

-- `allowlisted_operation` at the operation name of the request and the parsed document.
unfoldable pub allowlisted_parsed :
    Option String → ParsedOperation → Result GatewayRoutingDecision GatewayFailure
allowlisted_parsed request_operation_name parsed = do
  refuse_if (not (names_agree request_operation_name parsed.operation_name)) ambiguous_operation
  decide_fields parsed.operation_kind parsed.root_fields

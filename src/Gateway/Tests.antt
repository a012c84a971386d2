-- ===== src/Gateway/Tests.antt =====
-- Runs of the gateway's decisions, and the theorems at these runs.
use vocastock.Text.{trim, is_empty}
use vocastock.Text.Append.{Lacks, lacks, lacks-Lacks}
use vocastock.Json.{
  Value, Fields, string, bool, array, object, field, nil, item, none_left, as_object, as_array,
  as_str, get_field, items_of,
}
use vocastock.Gateway.Response.{
  catalog_success_response, require_string, require_array, require_items, require_item, member,
  text_member, wrap_data,
}
use vocastock.Gateway.Response.Laws.{IsPublicItem, catalog_success_response-ok}
use vocastock.Gateway.Request.{
  UnifiedGraphqlRequestEnvelope, UnifiedGraphqlRequest, variables_object,
}
use vocastock.Gateway.Relay.{RelayClient, DownstreamHttpResponse}
use vocastock.Gateway.Relay.Failures.{FailsDiscreetly}
use vocastock.Gateway.Relay.Failures.Services.{relays-FailsDiscreetly}
use vocastock.Gateway.Relay.Services.{translate_register_response, translate_catalog_response}
use vocastock.Gateway.Relay.Generic.{
  translate_query_response, translate_command_response, attach_variables_as_query_string,
}
use vocastock.Gateway.Endpoint.{Request, Context, unified_request}
use vocastock.QueryApi.Query.{split_path_and_query, require_identifier}
use vocastock.QueryApi.Query.Laws.{require_identifier-attach_variables_as_query_string}
use vocastock.Prelude.{
  List, All, ℕ, suc, ◌⊎◌, String, ◌≡◌, refl, true, false, none, some, [], ◌∷◌, ok,
}
use vocastock.CommandApi.Contract.{retry_generation_path}
use vocastock.Gateway.Allowlist.{
  mutation, ParsedOperation, GatewayRoutingDecision, first_arm, decide_field, decide_fields,
  names_agree, command_mutation, allowlisted_parsed,
}
use vocastock.Gateway.Document.Scan.{chars_of}
use vocastock.Gateway.Document.Parser.{parse_single_operation}
use vocastock.Gateway.Document.Ends.{Ends}
use vocastock.Gateway.Document.Parser.Ends.{IsOptionalName, AreFields, parse_single_operation-Ends}
use vocastock.Gateway.Allowlist.Laws.{IsNamed, Lists, routes_of, decision_of, allowlisted_parsed-ok}

abbrev again : ParsedOperation
again = record {
  operation_kind = mutation;
  operation_name = some "Again";
  root_fields = "retryGeneration" ∷ [];
}

abbrev again_route : GatewayRoutingDecision
again_route = decision_of mutation "retryGeneration" retry_generation_path

again_routed : allowlisted_parsed (some "Again") again ≡ ok again_route
unfolding allowlisted_parsed decide_fields decide_field first_arm names_agree command_mutation
again_routed = refl

allowlisted_parsed-ok_example :
    (field : String) × (route : String) × IsNamed (some "Again") again.operation_name
    × (again.root_fields ≡ field ∷ [])
    × Lists field route (routes_of mutation)
    × (again_route ≡ decision_of mutation field route)
allowlisted_parsed-ok_example = allowlisted_parsed-ok (some "Again") again again_route again_routed

parse_single_operation-Ends_example :
    Ends
      (λ parsed. IsOptionalName parsed.operation_name × AreFields parsed.root_fields)
      (parse_single_operation
        (chars_of "mutation M($a: [B!]) { again: retryGeneration { id } } # end"))
parse_single_operation-Ends_example =
    parse_single_operation-Ends
      (chars_of "mutation M($a: [B!]) { again: retryGeneration { id } } # end")

abbrev no_content : DownstreamHttpResponse
no_content = record { status_code = 204; headers = []; body = "" }

-- Services that count their requests.
abbrev counting_client : RelayClient ℕ
counting_client = record {
  command_base_url = "http://command:1";
  query_base_url = "http://query:2";
  execute_request = λ target sent n. (ok no_content, suc n);
  from_str = λ text. none;
  to_string = λ value. "{}";
}

abbrev image_envelope : UnifiedGraphqlRequestEnvelope
image_envelope = record {
  query = "query Q { imageDetail { id } }";
  operation_name = none;
  variables = some (object (field "identifier" (string "a b&c=d?") (field "n" (bool true) nil)));
}

abbrev counting : Context ℕ
counting = record {
  readiness_path = "/readyz";
  relay_client = counting_client;
  read_envelope = λ body. some image_envelope;
  json_body = λ failure. failure.envelope.code;
  generated_correlation = "gateway-0-1";
  firebase_report = "";
  firebase_healthy = true;
}

abbrev posted : Request
posted = record {
  method = "POST";
  path = "/graphql";
  headers = ("authorization", "Bearer t") ∷ [];
  body = "{}";
}

abbrev image_request : UnifiedGraphqlRequest
image_request = unified_request counting posted image_envelope

image_variables :
    variables_object image_request.envelope
    ≡ some (field "identifier" (string "a b&c=d?") (field "n" (bool true) nil))
unfolding unified_request variables_object as_object
image_variables = refl

identifier_given : is_empty (trim "a b&c=d?") ≡ false
unfolding is_empty trim
identifier_given = refl

image_detail_plain : Lacks b'?' "/image-detail"
unfolding lacks
image_detail_plain = lacks-Lacks b'?' "/image-detail" refl

require_identifier-attach_variables_as_query_string_example :
    ((split_path_and_query (attach_variables_as_query_string "/image-detail" image_request)).0
      ≡ "/image-detail")
    × (require_identifier
          (split_path_and_query (attach_variables_as_query_string "/image-detail" image_request)).1
        ≡ some "a b&c=d?")
require_identifier-attach_variables_as_query_string_example =
    require_identifier-attach_variables_as_query_string "/image-detail" "a b&c=d?"
      (field "n" (bool true) nil) image_request image_detail_plain identifier_given image_variables

abbrev listed_fields : Fields
listed_fields = field "vocabularyExpression" (string "v") (
    field "registrationState" (string "registered")
      (field "explanationState" (string "queued") (field "visibility" (string "status-only") nil)))

abbrev catalog_payload : Value
catalog_payload = object (
    field "collectionState" (string "populated")
      (field "items" (array (item (object listed_fields) none_left)) nil))

catalog_passed :
    catalog_success_response catalog_payload ≡ ok (wrap_data "vocabularyCatalog" catalog_payload)
unfolding catalog_success_response require_string require_array require_items require_item as_object
    as_array as_str get_field items_of
catalog_passed = refl

catalog_success_response-ok_example :
    (fields : Fields) × (items : List Value) × (as_object catalog_payload ≡ some fields)
    × (member as_array "items" fields ≡ some items)
    × ((text_member "collectionState" fields ≡ "empty")
        ⊎ (text_member "collectionState" fields ≡ "populated"))
    × All IsPublicItem items
    × (wrap_data "vocabularyCatalog" catalog_payload
        ≡ wrap_data "vocabularyCatalog" catalog_payload)
catalog_success_response-ok_example =
    catalog_success_response-ok catalog_payload (wrap_data "vocabularyCatalog" catalog_payload)
      catalog_passed

-- An answer of a service that names another one.
abbrev forbidden : DownstreamHttpResponse
forbidden = record { status_code = 403; headers = []; body = "see http://command-api" }

relays-FailsDiscreetly_example :
    FailsDiscreetly "command-api" (translate_register_response counting_client forbidden)
    × FailsDiscreetly "query-api" (translate_catalog_response counting_client forbidden)
    × FailsDiscreetly "query-api"
        (translate_query_response counting_client "imageDetail" "query-api" forbidden)
    × FailsDiscreetly "query-api"
        (translate_command_response counting_client "imageDetail" "query-api" forbidden)
relays-FailsDiscreetly_example =
    relays-FailsDiscreetly counting_client "imageDetail" "query-api" forbidden

-- ===== src/QueryApi/Contract.antt =====
-- applications/backend/query-api/src/query_catalog_read/runtime/service_contract.rs
use vocastock.Prelude.{String}

abbrev pub service_name : String
service_name = "query-api"

abbrev pub vocabulary_catalog_path : String
vocabulary_catalog_path = "/vocabulary-catalog"

abbrev pub vocabulary_expression_detail_path : String
vocabulary_expression_detail_path = "/vocabulary-expression-detail"

abbrev pub explanation_detail_path : String
explanation_detail_path = "/explanation-detail"

abbrev pub image_detail_path : String
image_detail_path = "/image-detail"

abbrev pub subscription_status_path : String
subscription_status_path = "/subscription-status"

abbrev pub actor_handoff_status_path : String
actor_handoff_status_path = "/actor-handoff-status"

abbrev pub learning_state_path : String
learning_state_path = "/learning-state"

abbrev pub root_message : String
root_message = "query-api returns completed summaries or status-only catalog items"

-- ===== src/CommandApi/Contract.antt =====
-- applications/backend/command-api/src/register_command_api/runtime/service_contract.rs
pub mod Laws
use vocastock.Prelude.{String, [], ◌∷◌}
use vocastock.Text.{concat, replace_char}

abbrev pub service_name : String
service_name = "command-api"

abbrev pub register_vocabulary_expression_path : String
register_vocabulary_expression_path = "/commands/register-vocabulary-expression"

abbrev pub request_explanation_generation_path : String
request_explanation_generation_path = "/commands/request-explanation-generation"

abbrev pub request_image_generation_path : String
request_image_generation_path = "/commands/request-image-generation"

abbrev pub retry_generation_path : String
retry_generation_path = "/commands/retry-generation"

abbrev pub request_purchase_path : String
request_purchase_path = "/commands/request-purchase"

abbrev pub request_restore_purchase_path : String
request_restore_purchase_path = "/commands/request-restore-purchase"

abbrev pub root_message : String
root_message =
    "command-api accepts register commands and returns accepted/reused-existing or failures without completed payloads"

abbrev pub registered_state : String
registered_state = "registered"

abbrev pub explanation_state_queued : String
explanation_state_queued = "queued"

abbrev pub explanation_state_not_started : String
explanation_state_not_started = "not-started"

abbrev pub explanation_state_failed_final : String
explanation_state_failed_final = "failed-final"

unfoldable pub vocabulary_expression_for : String → String
vocabulary_expression_for normalized_text =
    concat ("vocabulary:" ∷ replace_char b' ' "-" normalized_text ∷ [])

unfoldable pub status_handle_for : String → String → String
status_handle_for actor_reference vocabulary_expression =
    concat ("status" ∷ ":" ∷ actor_reference ∷ ":" ∷ vocabulary_expression ∷ [])

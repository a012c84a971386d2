-- ===== src/CommandApi/MutationResponse.antt =====
-- applications/backend/command-api/src/register_command_api/command/mutation_response.rs
use vocastock.Prelude.{String, Bool, true, false, Option, none, some, if◌then◌else◌}

pub data AcceptanceOutcomeCode : Type 0 where
  accepted reused_existing : AcceptanceOutcomeCode

pub data CommandErrorCategory : Type 0 where
  validation_failed target_missing target_not_ready : CommandErrorCategory
  dispatch_failed downstream_unavailable downstream_auth_failed : CommandErrorCategory

pub record UserFacingMessage : Type 0 where
  pub key : String
  pub text : String

pub record CommandResponseEnvelope : Type 0 where
  pub accepted : Bool
  pub outcome : Option AcceptanceOutcomeCode
  pub error_category : Option CommandErrorCategory
  pub message : UserFacingMessage

-- `CommandResponseEnvelope::accepted`
unfoldable pub accepted_envelope :
    AcceptanceOutcomeCode → UserFacingMessage → CommandResponseEnvelope
accepted_envelope outcome message = record {
  accepted = true;
  outcome = some outcome;
  error_category = none;
  message = message;
}

unfoldable pub rejected : CommandErrorCategory → UserFacingMessage → CommandResponseEnvelope
rejected category message = record {
  accepted = false;
  outcome = none;
  error_category = some category;
  message = message;
}

abbrev pub category_status : Option CommandErrorCategory → String
category_status (some validation_failed) = "400 Bad Request"
category_status (some target_missing) = "404 Not Found"
category_status (some target_not_ready) = "409 Conflict"
category_status (some dispatch_failed) = "503 Service Unavailable"
category_status (some downstream_unavailable) = "503 Service Unavailable"
category_status (some downstream_auth_failed) = "403 Forbidden"
category_status none = "500 Internal Server Error"

unfoldable pub http_status : CommandResponseEnvelope → String
http_status envelope =
    if envelope.accepted then "202 Accepted" else category_status envelope.error_category

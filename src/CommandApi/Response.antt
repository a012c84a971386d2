-- ===== src/CommandApi/Response.antt =====
-- applications/backend/command-api/src/register_command_api/command/response.rs
use text.Mathlib.Text.{◌==◌}
use vocastock.Prelude.{ℕ, String, Bool, true, false, ◌||◌, Option, none, [], ◌∷◌, if◌then◌else◌}
use vocastock.Text.{concat, decimal}

pub data AcceptanceOutcome : Type 0 where
  accepted reused_existing : AcceptanceOutcome

unfoldable pub as_str : AcceptanceOutcome → String
as_str accepted = "accepted"
as_str reused_existing = "reused-existing"

pub record TargetReference : Type 0 where
  pub vocabulary_expression : String

pub record StateSummary : Type 0 where
  pub registration : String
  pub explanation : String

pub record DuplicateReuseResult : Type 0 where
  pub registration_state : String
  pub explanation_state : String
  pub restart_decision : String
  pub restart_condition : String

pub record AcceptedCommandResult : Type 0 where
  pub acceptance : String
  pub target : TargetReference
  pub state : StateSummary
  pub status_handle : String
  pub message : String
  pub replayed_by_idempotency : Bool
  pub duplicate_reuse : Option DuplicateReuseResult

pub record AcceptedCommandFields : Type 0 where
  pub target : TargetReference
  pub state : StateSummary
  pub status_handle : String
  pub message : String
  pub replayed_by_idempotency : Bool
  pub duplicate_reuse : Option DuplicateReuseResult

-- `AcceptedCommandResult::new`
unfoldable pub accepted_result : AcceptanceOutcome → AcceptedCommandFields → AcceptedCommandResult
accepted_result acceptance fields = record {
  acceptance = as_str acceptance;
  target = fields.target;
  state = fields.state;
  status_handle = fields.status_handle;
  message = fields.message;
  replayed_by_idempotency = fields.replayed_by_idempotency;
  duplicate_reuse = fields.duplicate_reuse;
}

unfoldable pub replay : AcceptedCommandResult → AcceptedCommandResult
replay result = record result { replayed_by_idempotency = true }

pub record CommandFailure : Type 0 where
  pub code : String
  pub message : String
  pub retryable : Bool
  pub target : Option TargetReference
  pub state : Option StateSummary

-- `CommandFailure::new`, which `CommandFailure::auth` only calls.
abbrev pub command_failure : String → String → Bool → CommandFailure
command_failure code message retryable = record {
  code = code;
  message = message;
  retryable = retryable;
  target = none;
  state = none;
}

abbrev pub validation_failed : String → CommandFailure
validation_failed message = command_failure "validation-failed" message false

abbrev pub ownership_mismatch : CommandFailure
ownership_mismatch =
    command_failure "ownership-mismatch" "actor handoff does not match bearer token" false

abbrev pub idempotency_conflict : CommandFailure
idempotency_conflict =
    command_failure "idempotency-conflict"
      "same idempotencyKey was reused for a different normalized request" false

abbrev pub dispatch_failed : CommandFailure
dispatch_failed =
    command_failure "dispatch-failed"
      "workflow dispatch failed before the registration could be committed" true

unfoldable pub payload_too_large : ℕ → CommandFailure
payload_too_large max_length =
    command_failure "payload-too-large"
      (concat ("request body exceeds maximum size of " ∷ decimal max_length ∷ " bytes" ∷ [])) false

unfoldable pub http_status : CommandFailure → String
http_status failure =
    if failure.code == "missing-token" || failure.code == "invalid-token"
    then "401 Unauthorized"
    else if failure.code == "reauth-required" || failure.code == "ownership-mismatch"
    then "403 Forbidden"
    else if failure.code == "validation-failed"
    then "400 Bad Request"
    else if failure.code == "idempotency-conflict"
    then "409 Conflict"
    else if failure.code == "payload-too-large"
    then "413 Payload Too Large"
    else if failure.code == "dispatch-failed"
    then "503 Service Unavailable"
    else "500 Internal Server Error"

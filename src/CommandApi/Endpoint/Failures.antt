-- ===== src/CommandApi/Endpoint/Failures.antt =====
-- applications/backend/command-api/src/register_command_api/http/endpoint.rs: the bearer token,
-- and the failures and envelopes that requests are refused with.
use text.Mathlib.Text.{◌==◌}
use vocastock.Prelude.{
  String, true, false, not, ◌||◌, Option, none, some, [], ◌∷◌, Result, ok, ◌>>=◌, ◌>>◌, refuse_if,
  ok_or, map_err, if◌then◌else◌,
}
use vocastock.Text.{trim, is_empty, split_once, eq_ignore_ascii_case, concat, replace_char}
use vocastock.Auth.{
  VerifiedActorContext, TokenVerificationError, missing_token, invalid_token, reauth_required,
  message as token_message, TokenVerifier,
}
use vocastock.CommandApi.Response.{
  CommandFailure, command_failure, ownership_mismatch as ownership_failure,
}
use vocastock.CommandApi.Request.{
  RequestValidationError, ownership_mismatch as ownership_error, code, message,
}
use vocastock.CommandApi.MutationResponse.{
  CommandErrorCategory, validation_failed, downstream_auth_failed, downstream_unavailable,
  CommandResponseEnvelope, rejected,
}
use vocastock.CommandApi.MutationRequest.{
  MutationRequestError, invalid_json, missing_actor, ownership_mismatch, missing_idempotency_key,
  missing_vocabulary_expression, invalid_generation_target, missing_plan_code, invalid_plan_code,
  to_error_category, message as mutation_message,
}

-- `.map(str::trim).filter(|value| !value.is_empty())`
abbrev pub present : Option String → Option String
present none = none
present (some value) = if is_empty (trim value) then none else some (trim value)

unfoldable pub extract_bearer_token : Option String → Result String TokenVerificationError
extract_bearer_token authorization_header = do
  header_value ← ok_or (present authorization_header) missing_token
  parts ← ok_or (split_once b' ' header_value) invalid_token
  let (scheme, token) = parts
  refuse_if (not (eq_ignore_ascii_case scheme "bearer") || is_empty (trim token)) invalid_token
  ok (trim token)

unfoldable pub auth_failure_from_verification_error : TokenVerificationError → CommandFailure
unfolding token_message
auth_failure_from_verification_error missing_token =
    command_failure "missing-token" (token_message missing_token) false
auth_failure_from_verification_error invalid_token =
    command_failure "invalid-token" (token_message invalid_token) false
auth_failure_from_verification_error reauth_required =
    command_failure "reauth-required" (token_message reauth_required) true

unfoldable pub verify_actor_context :
    Option String → TokenVerifier → Result VerifiedActorContext CommandFailure
verify_actor_context authorization_header verifier = do
  bearer_token ←
      map_err auth_failure_from_verification_error (extract_bearer_token authorization_header)
  map_err auth_failure_from_verification_error (verifier bearer_token)

unfoldable pub validation_failure : RequestValidationError → CommandFailure
unfolding code message
validation_failure ownership_error = ownership_failure
validation_failure error = command_failure (code error) (message error) false

abbrev pub auth_category : String → CommandErrorCategory
auth_category code =
    if code == "missing-token" || code == "invalid-token" || code == "reauth-required"
    then downstream_auth_failed
    else if code == "ownership-mismatch"
    then downstream_auth_failed
    else validation_failed

unfoldable pub auth_failure_envelope : CommandFailure → CommandResponseEnvelope
auth_failure_envelope failure = rejected (auth_category failure.code) (record {
  key = concat ("command.auth." ∷ replace_char b'-' "_" failure.code ∷ []);
  text = failure.message;
})

unfoldable pub mutation_validation_key : MutationRequestError → String
mutation_validation_key invalid_json = "command.invalid_json"
mutation_validation_key missing_actor = "command.missing_actor"
mutation_validation_key ownership_mismatch = "command.ownership_mismatch"
mutation_validation_key missing_idempotency_key = "command.missing_idempotency_key"
mutation_validation_key missing_vocabulary_expression = "command.missing_vocabulary_expression"
mutation_validation_key invalid_generation_target = "command.invalid_generation_target"
mutation_validation_key missing_plan_code = "command.missing_plan_code"
mutation_validation_key invalid_plan_code = "command.invalid_plan_code"

unfoldable pub mutation_validation_envelope : MutationRequestError → CommandResponseEnvelope
mutation_validation_envelope error =
    rejected (to_error_category error)
      (record { key = mutation_validation_key error; text = mutation_message error })

unfoldable pub mutation_source_unavailable : CommandResponseEnvelope
mutation_source_unavailable = rejected downstream_unavailable (record {
  key = "command.mutation_store_unavailable";
  text =
      "mutation store is not configured; enable VOCAS_PRODUCTION_ADAPTERS and provide FIRESTORE_EMULATOR_HOST";
})

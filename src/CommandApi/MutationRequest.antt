-- ===== src/CommandApi/MutationRequest.antt =====
-- applications/backend/command-api/src/register_command_api/command/mutation_request.rs, up to the
-- trait `MutationCommand`. `serde_json::from_str` at each envelope is a parameter `from_json`.
use text.Mathlib.Text.{◌==◌}
use vocastock.Prelude.{
  String, not, ◌||◌, Option, none, some, Result, ok, ◌>>=◌, ◌>>◌, refuse_if, ok_or, false,
  if◌then◌else◌,
}
use vocastock.Text.{trim, is_empty}
use vocastock.Auth.{VerifiedActorContext}
use vocastock.CommandApi.Response.{
  CommandFailure, command_failure, ownership_mismatch as ownership_failure,
}
use vocastock.CommandApi.MutationResponse.{
  CommandErrorCategory, validation_failed, downstream_auth_failed,
}

pub data MutationRequestError : Type 0 where
  invalid_json missing_actor ownership_mismatch missing_idempotency_key : MutationRequestError
  missing_vocabulary_expression invalid_generation_target : MutationRequestError
  missing_plan_code invalid_plan_code : MutationRequestError

unfoldable pub code : MutationRequestError → String
code ownership_mismatch = "ownership-mismatch"
code _ = "validation-failed"

unfoldable pub message : MutationRequestError → String
message invalid_json = "request body must be valid JSON"
message missing_actor = "actor handoff is required"
message ownership_mismatch = "actor handoff does not match bearer token"
message missing_idempotency_key = "idempotencyKey is required"
message missing_vocabulary_expression = "vocabularyExpression is required"
message invalid_generation_target = "target must be EXPLANATION or IMAGE"
message missing_plan_code = "planCode is required"
message invalid_plan_code = "planCode must be FREE, STANDARD_MONTHLY, or PRO_MONTHLY"

unfoldable pub to_command_failure : MutationRequestError → CommandFailure
unfolding code message
to_command_failure ownership_mismatch = ownership_failure
to_command_failure error = command_failure (code error) (message error) false

unfoldable pub to_error_category : MutationRequestError → CommandErrorCategory
to_error_category ownership_mismatch = downstream_auth_failed
to_error_category _ = validation_failed

pub data GenerationTargetKind : Type 0 where
  explanation image : GenerationTargetKind

unfoldable pub parse_target : String → Option GenerationTargetKind
parse_target raw =
    if raw == "EXPLANATION" || raw == "explanation"
    then some explanation
    else if raw == "IMAGE" || raw == "image"
    then some image
    else none

unfoldable pub target_as_str : GenerationTargetKind → String
target_as_str explanation = "EXPLANATION"
target_as_str image = "IMAGE"

pub data PlanCode : Type 0 where
  free standard_monthly pro_monthly : PlanCode

unfoldable pub parse_plan : String → Option PlanCode
parse_plan raw =
    if raw == "FREE" || raw == "free"
    then some free
    else if raw == "STANDARD_MONTHLY" || raw == "standardMonthly"
    then some standard_monthly
    else if raw == "PRO_MONTHLY" || raw == "proMonthly"
    then some pro_monthly
    else none

unfoldable pub plan_as_str : PlanCode → String
plan_as_str free = "FREE"
plan_as_str standard_monthly = "STANDARD_MONTHLY"
plan_as_str pro_monthly = "PRO_MONTHLY"

pub record RequestExplanationGenerationCommand : Type 0 where
  pub actor : VerifiedActorContext
  pub idempotency_key : String
  pub vocabulary_expression : String

pub record RequestImageGenerationCommand : Type 0 where
  pub actor : VerifiedActorContext
  pub idempotency_key : String
  pub vocabulary_expression : String

pub record RetryGenerationCommand : Type 0 where
  pub actor : VerifiedActorContext
  pub idempotency_key : String
  pub vocabulary_expression : String
  pub target : GenerationTargetKind

pub record RequestPurchaseCommand : Type 0 where
  pub actor : VerifiedActorContext
  pub idempotency_key : String
  pub plan_code : PlanCode

pub record RequestRestorePurchaseCommand : Type 0 where
  pub actor : VerifiedActorContext
  pub idempotency_key : String

pub record GenerationRequestEnvelope : Type 0 where
  pub actor : String
  pub idempotency_key : String
  pub vocabulary_expression : String

pub record RetryRequestEnvelope : Type 0 where
  pub actor : String
  pub idempotency_key : String
  pub vocabulary_expression : String
  pub target : String

pub record PurchaseRequestEnvelope : Type 0 where
  pub actor : String
  pub idempotency_key : String
  pub plan_code : String

pub record RestorePurchaseRequestEnvelope : Type 0 where
  pub actor : String
  pub idempotency_key : String

unfoldable pub validate_actor_and_key :
    String
    → String
    → VerifiedActorContext
    → Result (VerifiedActorContext × String) MutationRequestError
validate_actor_and_key raw_actor raw_key actor_context = do
  let claimed_actor = trim raw_actor
  refuse_if (is_empty claimed_actor) missing_actor
  refuse_if (not (claimed_actor == actor_context.actor.as_str)) ownership_mismatch
  let idempotency_key = trim raw_key
  refuse_if (is_empty idempotency_key) missing_idempotency_key
  ok (actor_context, idempotency_key)

unfoldable pub validate_vocabulary_expression : String → Result String MutationRequestError
validate_vocabulary_expression raw = do
  let trimmed = trim raw
  refuse_if (is_empty trimmed) missing_vocabulary_expression
  ok trimmed

unfoldable pub parse_request_explanation_generation :
    (String → Option GenerationRequestEnvelope)
    → String
    → VerifiedActorContext
    → Result RequestExplanationGenerationCommand MutationRequestError
parse_request_explanation_generation from_json body actor_context = do
  envelope ← ok_or (from_json body) invalid_json
  checked ← validate_actor_and_key envelope.actor envelope.idempotency_key actor_context
  expression ← validate_vocabulary_expression envelope.vocabulary_expression
  ok (record { actor = checked.0; idempotency_key = checked.1; vocabulary_expression = expression })

unfoldable pub parse_request_image_generation :
    (String → Option GenerationRequestEnvelope)
    → String
    → VerifiedActorContext
    → Result RequestImageGenerationCommand MutationRequestError
parse_request_image_generation from_json body actor_context = do
  envelope ← ok_or (from_json body) invalid_json
  checked ← validate_actor_and_key envelope.actor envelope.idempotency_key actor_context
  expression ← validate_vocabulary_expression envelope.vocabulary_expression
  ok (record { actor = checked.0; idempotency_key = checked.1; vocabulary_expression = expression })

unfoldable pub parse_retry_generation :
    (String → Option RetryRequestEnvelope)
    → String
    → VerifiedActorContext
    → Result RetryGenerationCommand MutationRequestError
parse_retry_generation from_json body actor_context = do
  envelope ← ok_or (from_json body) invalid_json
  checked ← validate_actor_and_key envelope.actor envelope.idempotency_key actor_context
  expression ← validate_vocabulary_expression envelope.vocabulary_expression
  target ← ok_or (parse_target (trim envelope.target)) invalid_generation_target
  ok (record {
    actor = checked.0;
    idempotency_key = checked.1;
    vocabulary_expression = expression;
    target = target;
  })

unfoldable pub parse_request_purchase :
    (String → Option PurchaseRequestEnvelope)
    → String
    → VerifiedActorContext
    → Result RequestPurchaseCommand MutationRequestError
parse_request_purchase from_json body actor_context = do
  envelope ← ok_or (from_json body) invalid_json
  checked ← validate_actor_and_key envelope.actor envelope.idempotency_key actor_context
  let raw_plan = trim envelope.plan_code
  refuse_if (is_empty raw_plan) missing_plan_code
  plan_code ← ok_or (parse_plan raw_plan) invalid_plan_code
  ok (record { actor = checked.0; idempotency_key = checked.1; plan_code = plan_code })

unfoldable pub parse_request_restore_purchase :
    (String → Option RestorePurchaseRequestEnvelope)
    → String
    → VerifiedActorContext
    → Result RequestRestorePurchaseCommand MutationRequestError
parse_request_restore_purchase from_json body actor_context = do
  envelope ← ok_or (from_json body) invalid_json
  checked ← validate_actor_and_key envelope.actor envelope.idempotency_key actor_context
  ok (record { actor = checked.0; idempotency_key = checked.1 })

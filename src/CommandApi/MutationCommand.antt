-- ===== src/CommandApi/MutationCommand.antt =====
-- applications/backend/command-api/src/register_command_api/command/mutation_request.rs: the trait
-- `MutationCommand`, its five implementations and the helpers behind them. A command that is only
-- known by the trait is the record of what its methods answer.
pub mod Fingerprints
use vocastock.Prelude.{String, true, false, [], ◌∷◌}
use vocastock.Text.{concat}
use vocastock.CommandApi.Dispatch.{
  DispatchRequest, explanation_generation, image_generation, retry, purchase, restore_purchase,
  dispatch_request, with_kind, with_retry_target, with_plan_code,
}
use vocastock.CommandApi.MutationResponse.{
  UserFacingMessage, CommandResponseEnvelope, accepted, accepted_envelope,
}
use vocastock.CommandApi.MutationStore.{MutationFingerprint}
use vocastock.CommandApi.MutationRequest.{
  RequestExplanationGenerationCommand, RequestImageGenerationCommand, RetryGenerationCommand,
  RequestPurchaseCommand, RequestRestorePurchaseCommand, target_as_str, plan_as_str,
}

pub record MutationCommand : Type 0 where
  pub command_name : String
  pub actor_reference : String
  pub idempotency_key : String
  pub payload_hash : String
  pub request : DispatchRequest
  pub success_message : UserFacingMessage

unfoldable pub of_explanation : RequestExplanationGenerationCommand → MutationCommand
of_explanation command = record {
  command_name = "requestExplanationGeneration";
  actor_reference = command.actor.actor.as_str;
  idempotency_key = command.idempotency_key;
  payload_hash = concat ("vocab=" ∷ command.vocabulary_expression ∷ []);
  request =
      with_kind
        (dispatch_request command.actor.actor.as_str command.idempotency_key ""
          command.vocabulary_expression false)
        explanation_generation;
  success_message = record {
    key = "command.explanation_generation_queued";
    text = "explanation generation request accepted";
  };
}

unfoldable pub of_image : RequestImageGenerationCommand → MutationCommand
of_image command = record {
  command_name = "requestImageGeneration";
  actor_reference = command.actor.actor.as_str;
  idempotency_key = command.idempotency_key;
  payload_hash = concat ("vocab=" ∷ command.vocabulary_expression ∷ []);
  request =
      with_kind
        (dispatch_request command.actor.actor.as_str command.idempotency_key ""
          command.vocabulary_expression false)
        image_generation;
  success_message = record {
    key = "command.image_generation_queued";
    text = "image generation request accepted";
  };
}

unfoldable pub of_retry : RetryGenerationCommand → MutationCommand
of_retry command = record {
  command_name = "retryGeneration";
  actor_reference = command.actor.actor.as_str;
  idempotency_key = command.idempotency_key;
  payload_hash =
      concat
        ("vocab=" ∷ command.vocabulary_expression ∷ "|target=" ∷ target_as_str command.target ∷ []);
  request =
      with_retry_target
        (with_kind
          (dispatch_request command.actor.actor.as_str command.idempotency_key ""
            command.vocabulary_expression true)
          retry)
        (target_as_str command.target);
  success_message = record {
    key = "command.retry_generation_queued";
    text = "retry request accepted";
  };
}

unfoldable pub of_purchase : RequestPurchaseCommand → MutationCommand
of_purchase command = record {
  command_name = "requestPurchase";
  actor_reference = command.actor.actor.as_str;
  idempotency_key = command.idempotency_key;
  payload_hash = concat ("plan=" ∷ plan_as_str command.plan_code ∷ []);
  request =
      with_plan_code
        (with_kind (dispatch_request command.actor.actor.as_str command.idempotency_key "" "" false)
          purchase)
        (plan_as_str command.plan_code);
  success_message = record {
    key = "command.purchase_queued";
    text = "purchase request accepted for processing";
  };
}

unfoldable pub of_restore : RequestRestorePurchaseCommand → MutationCommand
of_restore command = record {
  command_name = "requestRestorePurchase";
  actor_reference = command.actor.actor.as_str;
  idempotency_key = command.idempotency_key;
  payload_hash = "restore";
  request =
      with_kind (dispatch_request command.actor.actor.as_str command.idempotency_key "" "" false)
        restore_purchase;
  success_message = record {
    key = "command.restore_purchase_queued";
    text = "restore purchase request accepted";
  };
}

unfoldable pub fingerprint_for : MutationCommand → MutationFingerprint
fingerprint_for command = record {
  command_name = command.command_name;
  payload_hash = command.payload_hash;
}

unfoldable pub success_envelope : MutationCommand → CommandResponseEnvelope
success_envelope command = accepted_envelope accepted command.success_message

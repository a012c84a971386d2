-- ===== src/CommandApi/MutationAcceptance.antt =====
-- applications/backend/command-api/src/register_command_api/command/mutation_acceptance.rs
pub mod Atomicity
pub mod Replay
use vocastock.Prelude.{String, Bool, if◌then◌else◌}
use vocastock.CommandApi.Dispatch.{DispatchPlan, DispatchPort, is_failed}
use vocastock.CommandApi.MutationResponse.{
  CommandResponseEnvelope, validation_failed, dispatch_failed, rejected,
}
use vocastock.CommandApi.MutationStore.{
  IdempotencyDecision, replay, conflict, fresh, MutationCommandStore,
}
use vocastock.CommandApi.MutationCommand.{MutationCommand, fingerprint_for, success_envelope}

-- What one command answers, and the states that it leaves.
pub record MutationOutcome (S D : Type 0) : Type 0 where
  pub answer : CommandResponseEnvelope
  pub store : S
  pub dispatcher : D

abbrev pub conflict_envelope : CommandResponseEnvelope
conflict_envelope = rejected validation_failed (record {
  key = "command.idempotency_conflict";
  text = "idempotency key was reused with a different payload";
})

abbrev pub undispatched_envelope : CommandResponseEnvelope
undispatched_envelope = rejected dispatch_failed (record {
  key = "command.dispatch_failed";
  text = "downstream workflow dispatch failed; request was not accepted";
})

module _ {S D : Type 0} (store : MutationCommandStore S) (dispatcher : DispatchPort D) where
  -- A failed dispatch commits nothing.
  unfoldable pub finish : MutationCommand → DispatchPlan × D → S → MutationOutcome S D
  finish command (plan, d') s =
      if is_failed plan.dispatch_outcome
      then record { answer = undispatched_envelope; store = s; dispatcher = d' }
      else record {
        answer = success_envelope command;
        store =
            store.commit_mutation command.actor_reference command.idempotency_key
              (fingerprint_for command) (success_envelope command) s;
        dispatcher = d';
      }

  -- The arms of the source's `match`.
  unfoldable pub act : MutationCommand → IdempotencyDecision → S → D → MutationOutcome S D
  act command (replay envelope) s d = record { answer = envelope; store = s; dispatcher = d }
  act command conflict s d = record { answer = conflict_envelope; store = s; dispatcher = d }
  act command fresh s d = finish command (dispatcher.dispatch command.request d) s

  unfoldable pub accept_mutation_command : MutationCommand → S → D → MutationOutcome S D
  accept_mutation_command command s d =
      act command
        (store.idempotency_decision command.actor_reference command.idempotency_key
          (fingerprint_for command) s)
        s d

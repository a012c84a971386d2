-- ===== src/CommandApi/Acceptance.antt =====
-- applications/backend/command-api/src/register_command_api/command/acceptance.rs
-- The store and the dispatcher are any implementations of their traits; their states are passed
-- on in the order of the calls.
pub mod Cases
pub mod Replay
pub mod Once
pub mod Atomicity
pub mod Registrations
use vocastock.Prelude.{
  String, Bool, true, false, Option, none, some, Result, ok, err, if◌then◌else◌,
}
use vocastock.CommandApi.Contract.{registered_state, status_handle_for}
use vocastock.CommandApi.Response.{
  AcceptanceOutcome, accepted, reused_existing, AcceptedCommandResult, CommandFailure,
  accepted_result, replay, idempotency_conflict, dispatch_failed,
}
use vocastock.CommandApi.Request.{RegisterVocabularyExpressionCommand}
use vocastock.CommandApi.Dispatch.{
  DispatchPlan, DispatchPort, DispatchRequest, dispatch_request, not_requested_plan, is_failed,
}
use vocastock.CommandApi.Store.{
  PlannedNewRegistration, PlannedReuseRegistration, StoreDecision, accept_new, replay_existing,
  reuse_existing, conflict, CommandStore,
}

unfoldable pub accepted_message : Bool → String
accepted_message start_explanation =
    if start_explanation
    then "registration accepted and queued for explanation dispatch"
    else "registration accepted without explanation dispatch"

unfoldable pub reused_existing_message : Bool → String
reused_existing_message restarted =
    if restarted
    then "existing registration reused and explanation restart accepted"
    else "existing registration reused without explanation restart"

-- The result that is committed and returned for a new registration.
unfoldable pub new_result :
    RegisterVocabularyExpressionCommand → PlannedNewRegistration → AcceptedCommandResult
new_result command plan = accepted_result accepted (record {
  target = record { vocabulary_expression = plan.vocabulary_expression };
  state = record { registration = registered_state; explanation = plan.explanation_state };
  status_handle = status_handle_for command.actor.actor.as_str plan.vocabulary_expression;
  message = accepted_message command.start_explanation;
  replayed_by_idempotency = false;
  duplicate_reuse = none;
})

-- The result that is committed and returned where a registration is reused.
unfoldable pub reuse_result :
    RegisterVocabularyExpressionCommand → PlannedReuseRegistration → AcceptedCommandResult
reuse_result command plan = accepted_result reused_existing (record {
  target = record { vocabulary_expression = plan.existing_registration.vocabulary_expression };
  state = record {
    registration = plan.existing_registration.registration_state;
    explanation = plan.resulting_explanation_state;
  };
  status_handle =
      status_handle_for command.actor.actor.as_str plan.existing_registration.vocabulary_expression;
  message = reused_existing_message plan.dispatch_required;
  replayed_by_idempotency = false;
  duplicate_reuse = some plan.duplicate_reuse;
})

unfoldable pub request_of : RegisterVocabularyExpressionCommand → String → Bool → DispatchRequest
request_of command vocabulary_expression restart_requested =
    dispatch_request command.actor.actor.as_str command.idempotency_key command.normalized_text
      vocabulary_expression restart_requested

-- What one command answers, and the states that it leaves.
pub record Outcome (S D : Type 0) : Type 0 where
  pub answer : Result AcceptedCommandResult CommandFailure
  pub store : S
  pub dispatcher : D

module _ {S D : Type 0} (store : CommandStore S) (dispatcher : DispatchPort D) where
  abbrev pub dispatch_if : Bool → DispatchRequest → D → DispatchPlan × D
  dispatch_if required request d =
      if required then dispatcher.dispatch request d else (not_requested_plan, d)

  -- A failed dispatch commits nothing; otherwise `result` is returned and `s'` is the new state.
  unfoldable pub settle : DispatchPlan × D → S → AcceptedCommandResult → S → Outcome S D
  settle (dispatch_plan, d') s result s' =
      if is_failed dispatch_plan.dispatch_outcome
      then record { answer = err dispatch_failed; store = s; dispatcher = d' }
      else record { answer = ok result; store = s'; dispatcher = d' }

  -- The arms of the source's `match`.
  unfoldable pub carry_out :
      RegisterVocabularyExpressionCommand → StoreDecision → S → D → Outcome S D
  carry_out command (replay_existing result) s d = record {
    answer = ok (replay result);
    store = s;
    dispatcher = d;
  }
  carry_out command conflict s d = record {
    answer = err idempotency_conflict;
    store = s;
    dispatcher = d;
  }
  carry_out command (accept_new plan) s d =
      settle
        (dispatch_if plan.dispatch_required (request_of command plan.vocabulary_expression false) d)
        s (new_result command plan) (store.commit_new command plan (new_result command plan) s)
  carry_out command (reuse_existing plan) s d =
      settle
        (dispatch_if plan.dispatch_required
          (request_of command plan.existing_registration.vocabulary_expression true) d)
        s (reuse_result command plan)
        (store.commit_reuse command plan (reuse_result command plan) s)

  unfoldable pub accept_register_command : RegisterVocabularyExpressionCommand → S → D → Outcome S D
  accept_register_command command s d = carry_out command (store.plan command s) s d

-- ===== src/CommandApi/Store.antt =====
-- applications/backend/command-api/src/register_command_api/runtime/command_store.rs
-- A store with state `S` is read at a state and gives the new state where it is written. The
-- mutex is held for a whole call, so a call is one step.
mod Keys
pub mod Laws
unfoldable pub use Keys.{length_prefixed, scoped_key}
pub use Keys.{scoped_key_injective}
use text.Mathlib.Text.{◌==◌}
use vocastock.Prelude.{
  String, Bool, true, false, not, ◌&&◌, ◌||◌, Option, none, some, List, [], if◌then◌else◌,
}
use vocastock.TextMap.{lookup, insert}
use vocastock.CommandApi.Contract.{
  registered_state, explanation_state_queued, explanation_state_not_started,
  explanation_state_failed_final, vocabulary_expression_for,
}
use vocastock.CommandApi.Response.{DuplicateReuseResult, AcceptedCommandResult}
use vocastock.CommandApi.Request.{RegisterVocabularyExpressionCommand}

pub record StoredRegistration : Type 0 where
  pub vocabulary_expression : String
  pub registration_state : String
  pub explanation_state : String

pub record PlannedNewRegistration : Type 0 where
  pub vocabulary_expression : String
  pub explanation_state : String
  pub dispatch_required : Bool

pub record PlannedReuseRegistration : Type 0 where
  pub existing_registration : StoredRegistration
  pub resulting_explanation_state : String
  pub duplicate_reuse : DuplicateReuseResult
  pub dispatch_required : Bool

pub data StoreDecision : Type 0 where
  accept_new : PlannedNewRegistration → StoreDecision
  replay_existing : AcceptedCommandResult → StoreDecision
  reuse_existing : PlannedReuseRegistration → StoreDecision
  conflict : StoreDecision

pub record RequestFingerprint : Type 0 where
  pub normalized_text : String
  pub start_explanation : Bool

pub record StoredIdempotencyRecord : Type 0 where
  pub fingerprint : RequestFingerprint
  pub result : AcceptedCommandResult

pub record StoreState : Type 0 where
  pub registrations : List (String × StoredRegistration)
  pub idempotency_records : List (String × StoredIdempotencyRecord)

-- The trait `CommandStore`.
pub record CommandStore (S : Type 0) : Type 0 where
  pub plan : RegisterVocabularyExpressionCommand → S → StoreDecision
  pub commit_new :
      RegisterVocabularyExpressionCommand → PlannedNewRegistration → AcceptedCommandResult → S → S
  pub commit_reuse :
      RegisterVocabularyExpressionCommand → PlannedReuseRegistration → AcceptedCommandResult → S → S

unfoldable pub fingerprint_for : RegisterVocabularyExpressionCommand → RequestFingerprint
fingerprint_for command = record {
  normalized_text = command.normalized_text;
  start_explanation = command.start_explanation;
}

abbrev pub same_bool : Bool → Bool → Bool
same_bool true b = b
same_bool false b = not b

-- The derived `==` of `RequestFingerprint`.
unfoldable pub same_fingerprint : RequestFingerprint → RequestFingerprint → Bool
same_fingerprint a b =
    a.normalized_text == b.normalized_text && same_bool a.start_explanation b.start_explanation

unfoldable pub duplicate_reuse_plan :
    StoredRegistration → Bool → Bool × String × DuplicateReuseResult
duplicate_reuse_plan existing start_explanation =
    let answer : String → String → DuplicateReuseResult = λ decision condition. record {
      registration_state = existing.registration_state;
      explanation_state = existing.explanation_state;
      restart_decision = decision;
      restart_condition = condition;
    } in
    if not start_explanation
    then (
      false,
      existing.explanation_state,
      answer "restart-suppressed" "startExplanation was explicitly disabled",
    )
    else if existing.explanation_state == explanation_state_not_started
        || existing.explanation_state == explanation_state_failed_final
    then (
      true,
      explanation_state_queued,
      answer "restart-accepted" "existing explanation can be restarted",
    )
    else (
      false,
      existing.explanation_state,
      answer "restart-suppressed" "existing explanation does not need restart",
    )

abbrev pub registration_key : RegisterVocabularyExpressionCommand → String
registration_key command = scoped_key command.actor.actor.as_str command.normalized_text

abbrev pub record_key : RegisterVocabularyExpressionCommand → String
record_key command = scoped_key command.actor.actor.as_str command.idempotency_key

-- The part of `plan` behind the lookup of the idempotency record.
unfoldable pub plan_registration :
    RegisterVocabularyExpressionCommand → Option StoredRegistration → StoreDecision
plan_registration command (some existing_registration) =
    let (dispatch_required, resulting_explanation_state, duplicate_reuse) =
      duplicate_reuse_plan existing_registration command.start_explanation in
    reuse_existing (record {
      existing_registration = existing_registration;
      resulting_explanation_state = resulting_explanation_state;
      duplicate_reuse = duplicate_reuse;
      dispatch_required = dispatch_required;
    })
plan_registration command none = accept_new (record {
  vocabulary_expression = vocabulary_expression_for command.normalized_text;
  explanation_state =
      if command.start_explanation then explanation_state_queued else explanation_state_not_started;
  dispatch_required = command.start_explanation;
})

-- The answer to a stored idempotency record; without one, the registration decides.
unfoldable pub plan_record :
    RegisterVocabularyExpressionCommand
    → Option StoredIdempotencyRecord
    → StoreDecision
    → StoreDecision
plan_record command (some stored) fresh =
    if same_fingerprint stored.fingerprint (fingerprint_for command)
    then replay_existing stored.result
    else conflict
plan_record command none fresh = fresh

unfoldable pub plan : RegisterVocabularyExpressionCommand → StoreState → StoreDecision
plan command state =
    plan_record command (lookup (record_key command) state.idempotency_records)
      (plan_registration command (lookup (registration_key command) state.registrations))

abbrev pub commit :
    RegisterVocabularyExpressionCommand
    → StoredRegistration
    → AcceptedCommandResult
    → StoreState
    → StoreState
commit command registration result state = record {
  registrations = insert (registration_key command) registration state.registrations;
  idempotency_records =
      insert (record_key command)
        (record { fingerprint = fingerprint_for command; result = result })
        state.idempotency_records;
}

unfoldable pub commit_new :
    RegisterVocabularyExpressionCommand
    → PlannedNewRegistration
    → AcceptedCommandResult
    → StoreState
    → StoreState
commit_new command planned result state =
    commit command
      (record {
        vocabulary_expression = planned.vocabulary_expression;
        registration_state = registered_state;
        explanation_state = planned.explanation_state;
      })
      result state

unfoldable pub commit_reuse :
    RegisterVocabularyExpressionCommand
    → PlannedReuseRegistration
    → AcceptedCommandResult
    → StoreState
    → StoreState
commit_reuse command planned result state =
    commit command
      (record {
        vocabulary_expression = planned.existing_registration.vocabulary_expression;
        registration_state = planned.existing_registration.registration_state;
        explanation_state = planned.resulting_explanation_state;
      })
      result state

-- `InMemoryCommandStore`, its empty state, and what it is asked from outside.
abbrev pub in_memory_command_store : CommandStore StoreState
in_memory_command_store = record {
  plan = plan;
  commit_new = commit_new;
  commit_reuse = commit_reuse;
}

abbrev pub empty_store : StoreState
empty_store = record { registrations = []; idempotency_records = [] }

unfoldable pub registration_for : StoreState → String → String → Option StoredRegistration
registration_for state actor_reference normalized_text =
    lookup (scoped_key actor_reference normalized_text) state.registrations

abbrev record_result : Option StoredIdempotencyRecord → Option AcceptedCommandResult
record_result none = none
record_result (some stored) = some stored.result

unfoldable pub idempotency_result_for : StoreState → String → String → Option AcceptedCommandResult
idempotency_result_for state actor_reference idempotency_key =
    record_result (lookup (scoped_key actor_reference idempotency_key) state.idempotency_records)

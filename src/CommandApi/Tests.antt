-- ===== src/CommandApi/Tests.antt =====
-- Runs of the register command over the in-memory store, and its theorems at these runs.
use vocastock.Prelude.{Option}
use vocastock.Text.{trim, is_empty, any_char, is_control, split_whitespace, join_spaces}
use vocastock.CommandApi.Contract.Laws.{vocabulary_expression_for-hyphenated}
use vocastock.CommandApi.Request.{
  RegisterVocabularyCommandEnvelope, parse_register_command, validate_register_envelope,
  normalize_text, is_forbidden,
}
use vocastock.CommandApi.Request.Laws.{IsAcceptable, parse_register_command-ok}
use vocastock.Prelude.{
  ◌≤◌, String, ◌≡◌, ◌≢◌, ◌⊎◌, refl, ap, Bool, true, false, none, some, List, [], ◌∷◌, ok, err,
}
use vocastock.Auth.{VerifiedActorContext, active}
use vocastock.CommandApi.Contract.{
  explanation_state_queued, registered_state, vocabulary_expression_for, status_handle_for,
}
use vocastock.CommandApi.Response.{
  AcceptedCommandResult, accepted, replay, idempotency_conflict, dispatch_failed, accepted_result,
}
use vocastock.CommandApi.Request.{RegisterVocabularyExpressionCommand}
use vocastock.CommandApi.Dispatch.{
  DispatchPort, dispatch_request, DispatchRequest, in_memory_dispatch, in_memory_dispatch_port,
}
use vocastock.CommandApi.Store.{
  StoredRegistration, StoreState, RequestFingerprint, empty_store, length_prefixed, fingerprint_for,
  scoped_key, registration_for, plan, commit_new, in_memory_command_store, plan_record,
  plan_registration, duplicate_reuse_plan, scoped_key_injective,
}
use vocastock.CommandApi.Store.Laws.{Refines, in_memory_store-Refines}
use vocastock.TextMap.{lookup, insert}
use vocastock.Text.{concat, decimal, contains, replace_char}
use vocastock.CommandApi.Acceptance.{
  accepted_message, accept_register_command, carry_out, settle, new_result, request_of,
}
use vocastock.CommandApi.Acceptance.Cases.{accept, Reports}
use vocastock.CommandApi.Acceptance.Replay.{run, accept_again, accept_other}
use vocastock.CommandApi.Acceptance.Once.{fresh_acceptances, fresh_acceptances-le-one}
use vocastock.CommandApi.Acceptance.Atomicity.{accept-err_keeps_store, accept_without_explanation}
use vocastock.CommandApi.Acceptance.Registrations.{
  IsSound, empty_store-IsSound, run-IsSound, accept-registration_for, run-keeps_queued,
}

abbrev alice : VerifiedActorContext
alice = record {
  actor = record { as_str = "actor:alice" };
  auth_account = record { as_str = "auth:alice" };
  session = record { as_str = "session:alice" };
  session_state = active;
}

abbrev register : String → String → Bool → RegisterVocabularyExpressionCommand
register key text start = record {
  actor = alice;
  idempotency_key = key;
  normalized_text = text;
  start_explanation = start;
}

abbrev coffee : RegisterVocabularyExpressionCommand
coffee = register "k1" "coffee" true

abbrev tea : RegisterVocabularyExpressionCommand
tea = register "k1" "tea" true

abbrev coffee_later : RegisterVocabularyExpressionCommand
coffee_later = register "k2" "coffee" false

abbrev undeliverable : RegisterVocabularyExpressionCommand
undeliverable = register "dispatch-fail" "milk" true

abbrev port : DispatchPort (List DispatchRequest)
port = in_memory_dispatch_port

-- What `coffee` answers on the empty store.
abbrev coffee_result : AcceptedCommandResult
coffee_result = accepted_result accepted (record {
  target = record { vocabulary_expression = "vocabulary:coffee" };
  state = record { registration = registered_state; explanation = explanation_state_queued };
  status_handle = "status:actor:alice:vocabulary:coffee";
  message = "registration accepted and queued for explanation dispatch";
  replayed_by_idempotency = false;
  duplicate_reuse = none;
})

abbrev coffee_registration : StoredRegistration
coffee_registration = record {
  vocabulary_expression = "vocabulary:coffee";
  registration_state = registered_state;
  explanation_state = explanation_state_queued;
}

abbrev after_coffee : StoreState
after_coffee = (accept port coffee empty_store []).store

coffee_answer : (accept port coffee empty_store []).answer ≡ ok coffee_result
unfolding accept_register_command carry_out settle plan plan_record plan_registration commit_new
    new_result accepted_result request_of in_memory_dispatch lookup insert scoped_key
    length_prefixed concat decimal contains vocabulary_expression_for status_handle_for replace_char
    accepted_message dispatch_request
coffee_answer = refl

coffee_fresh : coffee_result.replayed_by_idempotency ≡ false
unfolding accepted_result
coffee_fresh = refl

coffee_registered : registration_for after_coffee "actor:alice" "coffee" ≡ some coffee_registration
unfolding accept_register_command carry_out settle plan plan_record plan_registration commit_new
    in_memory_dispatch lookup insert registration_for scoped_key length_prefixed concat decimal
    vocabulary_expression_for replace_char dispatch_request request_of contains
coffee_registered = refl

fingerprints_differ : fingerprint_for tea ≢ fingerprint_for coffee
unfolding fingerprint_for
fingerprints_differ e = cc (ap (λ (p : RequestFingerprint). p.normalized_text) e)

undeliverable_answer : (accept port undeliverable empty_store []).answer ≡ err dispatch_failed
unfolding accept_register_command carry_out settle plan plan_record plan_registration commit_new
    new_result request_of in_memory_dispatch lookup insert scoped_key length_prefixed concat decimal
    contains dispatch_request
undeliverable_answer = refl

abbrev odd_actor : String
odd_actor = "a:1"

abbrev odd_text : String
odd_text = "b|1:c"

scoped_key_injective_example : (odd_actor ≡ odd_actor) × (odd_text ≡ odd_text)
scoped_key_injective_example = scoped_key_injective odd_actor odd_actor odd_text odd_text refl

in_memory_store-Refines_example :
    Refines coffee after_coffee coffee_result
      (record {
        vocabulary_expression = "vocabulary:coffee";
        explanation_state = explanation_state_queued;
        dispatch_required = true;
      })
      (record {
        existing_registration = coffee_registration;
        resulting_explanation_state = explanation_state_queued;
        duplicate_reuse = (duplicate_reuse_plan coffee_registration true).2;
        dispatch_required = false;
      })
in_memory_store-Refines_example = in_memory_store-Refines coffee after_coffee coffee_result _ _

accept_again_example :
    let (s, d) = run port (coffee ∷ tea ∷ coffee_later ∷ []) empty_store [] in
    accept port coffee s d
    ≡ record { answer = ok (replay coffee_result); store = s; dispatcher = d }
accept_again_example =
    accept_again port coffee (tea ∷ coffee_later ∷ []) empty_store [] coffee_result coffee_answer

accept_other_example :
    let (s, d) = run port (coffee ∷ coffee_later ∷ []) empty_store [] in
    accept port tea s d ≡ record { answer = err idempotency_conflict; store = s; dispatcher = d }
accept_other_example =
    accept_other port coffee tea (coffee_later ∷ []) empty_store [] coffee_result coffee_answer refl
      refl fingerprints_differ

fresh_acceptances-le-one_example :
    fresh_acceptances port "actor:alice" "k1" (coffee ∷ tea ∷ coffee ∷ []) empty_store [] ≤ 1
fresh_acceptances-le-one_example =
    fresh_acceptances-le-one port "actor:alice" "k1" (coffee ∷ tea ∷ coffee ∷ []) empty_store []

accept-err_keeps_store_example :
    ((dispatch_failed ≡ idempotency_conflict) ⊎ (dispatch_failed ≡ dispatch_failed))
    × ((accept port undeliverable empty_store []).store ≡ empty_store)
accept-err_keeps_store_example =
    accept-err_keeps_store in_memory_command_store port undeliverable empty_store [] dispatch_failed
      undeliverable_answer

accept_without_explanation_example :
    ((accept port coffee_later after_coffee []).dispatcher ≡ [])
    × ((accept port coffee_later after_coffee []).answer ≢ err dispatch_failed)
accept_without_explanation_example =
    accept_without_explanation port coffee_later after_coffee [] refl

run-IsSound_example :
    IsSound (run port (coffee ∷ tea ∷ undeliverable ∷ coffee_later ∷ []) empty_store []).0
run-IsSound_example =
    run-IsSound port (coffee ∷ tea ∷ undeliverable ∷ coffee_later ∷ []) empty_store []
      empty_store-IsSound

accept-registration_for_example :
    (r : StoredRegistration) × (registration_for after_coffee "actor:alice" "coffee" ≡ some r)
    × Reports coffee r coffee_result
accept-registration_for_example =
    accept-registration_for port coffee empty_store [] coffee_result coffee_answer coffee_fresh

run-keeps_queued_example :
    (r : StoredRegistration) × (registration_for
        (run port (tea ∷ coffee_later ∷ []) after_coffee []).0
        "actor:alice"
        "coffee"
      ≡ some r)
    × (r.vocabulary_expression ≡ "vocabulary:coffee")
    × (r.explanation_state ≡ explanation_state_queued)
run-keeps_queued_example =
    run-keeps_queued port "actor:alice" "coffee" coffee_registration (tea ∷ coffee_later ∷ [])
      after_coffee [] coffee_registered refl

-- A reader whose every body is this envelope.
abbrev coffee_envelope : RegisterVocabularyCommandEnvelope
coffee_envelope = record {
  command = "registerVocabularyExpression";
  actor = " actor:alice";
  idempotency_key = "k1 ";
  body = record { text = "  ice  cream "; start_explanation = none };
}

abbrev read_coffee : String → Option RegisterVocabularyCommandEnvelope
read_coffee body = some coffee_envelope

abbrev same_case : String → String
same_case s = s

coffee_parsed :
    parse_register_command same_case read_coffee "{}" alice ≡ ok (register "k1" "ice cream" true)
unfolding parse_register_command validate_register_envelope normalize_text trim is_empty any_char
    is_forbidden is_control split_whitespace join_spaces
coffee_parsed = refl

parse_register_command-ok_example :
    (envelope : RegisterVocabularyCommandEnvelope) × (read_coffee "{}" ≡ some envelope)
    × IsAcceptable same_case envelope alice (register "k1" "ice cream" true)
parse_register_command-ok_example =
    parse_register_command-ok same_case read_coffee "{}" alice (register "k1" "ice cream" true)
      coffee_parsed

vocabulary_expression_for-hyphenated_example :
    vocabulary_expression_for (replace_char b' ' "-" "ice cream")
    ≡ vocabulary_expression_for "ice cream"
vocabulary_expression_for-hyphenated_example = vocabulary_expression_for-hyphenated "ice cream"

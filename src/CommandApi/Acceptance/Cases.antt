-- ===== src/CommandApi/Acceptance/Cases.antt =====
-- What one command does to the in-memory store, case by case.
use vocastock.Prelude.{
  ◌≡◌, ◌∙◌, arith, if◌then◌else◌, refl, true, false, Option, none, some, ok, err, Option-cases,
  Bool-cases, inl, inr,
}
use vocastock.CommandApi.Contract.{
  registered_state, explanation_state_queued, explanation_state_not_started,
  vocabulary_expression_for, status_handle_for,
}
use vocastock.TextMap.{lookup}
use vocastock.CommandApi.Response.{
  AcceptedCommandResult, accepted_result, replay, idempotency_conflict, dispatch_failed,
}
use vocastock.CommandApi.Request.{RegisterVocabularyExpressionCommand}
use vocastock.CommandApi.Dispatch.{DispatchPort, DispatchPlan, is_failed}
use vocastock.CommandApi.Store.{
  StoredRegistration, StoredIdempotencyRecord, StoreState, fingerprint_for, same_fingerprint,
  duplicate_reuse_plan, plan_registration, plan_record, plan, commit_new, commit_reuse, commit,
  record_key, registration_key, in_memory_command_store,
}
use vocastock.CommandApi.Acceptance.{
  Outcome, accept_register_command, carry_out, settle, new_result, reuse_result,
}

-- What is registered where the plan found this registration of the text, or none.
abbrev pub Planned :
    RegisterVocabularyExpressionCommand → Option StoredRegistration → StoredRegistration → Type 0
Planned command none r =
    (r.vocabulary_expression ≡ vocabulary_expression_for command.normalized_text)
    × (r.registration_state ≡ registered_state)
    × (r.explanation_state ≡ (
        if command.start_explanation
        then explanation_state_queued
        else explanation_state_not_started))
Planned command (some existing) r =
    (r.vocabulary_expression ≡ existing.vocabulary_expression)
    × (r.registration_state ≡ existing.registration_state)
    × (r.explanation_state ≡ (duplicate_reuse_plan existing command.start_explanation).1)

-- The result tells what is registered.
abbrev pub Reports :
    RegisterVocabularyExpressionCommand → StoredRegistration → AcceptedCommandResult → Type 0
Reports command r result =
    (result.target.vocabulary_expression ≡ r.vocabulary_expression)
    × (result.state.registration ≡ r.registration_state)
    × (result.state.explanation ≡ r.explanation_state)
    × (result.status_handle ≡ status_handle_for command.actor.actor.as_str r.vocabulary_expression)

module _ {D : Type 0} (port : DispatchPort D) where
  abbrev pub accept : RegisterVocabularyExpressionCommand → StoreState → D → Outcome StoreState D
  accept = accept_register_command in_memory_command_store port

  pub data AcceptCase (command : RegisterVocabularyExpressionCommand) (s : StoreState) (d : D)
      (o : Outcome StoreState D) : Type 0 where
    replayed :
        (stored : StoredIdempotencyRecord)
        → lookup (record_key command) s.idempotency_records ≡ some stored
        → same_fingerprint stored.fingerprint (fingerprint_for command) ≡ true
        → o ≡ record { answer = ok (replay stored.result); store = s; dispatcher = d }
        → AcceptCase command s d o
    conflicted :
        (stored : StoredIdempotencyRecord)
        → lookup (record_key command) s.idempotency_records ≡ some stored
        → same_fingerprint stored.fingerprint (fingerprint_for command) ≡ false
        → o ≡ record { answer = err idempotency_conflict; store = s; dispatcher = d }
        → AcceptCase command s d o
    undispatched :
        lookup (record_key command) s.idempotency_records ≡ none
        → o.answer ≡ err dispatch_failed
        → o.store ≡ s
        → AcceptCase command s d o
    committed :
        (registration : StoredRegistration) (result : AcceptedCommandResult)
        → lookup (record_key command) s.idempotency_records ≡ none
        → Planned command (lookup (registration_key command) s.registrations) registration
        → Reports command registration result
        → o.answer ≡ ok result
        → result.replayed_by_idempotency ≡ false
        → o.store ≡ commit command registration result s
        → AcceptCase command s d o

  module _ (command : RegisterVocabularyExpressionCommand) (s : StoreState) (d : D) where
    -- With a record of its key, a command is answered from the record.
    pub accept_recorded :
        (stored : StoredIdempotencyRecord)
        → lookup (record_key command) s.idempotency_records ≡ some stored
        → accept command s d ≡ (
            if same_fingerprint stored.fingerprint (fingerprint_for command)
            then record { answer = ok (replay stored.result); store = s; dispatcher = d }
            else record { answer = err idempotency_conflict; store = s; dispatcher = d })
    unfolding accept_register_command plan plan_record carry_out
    accept_recorded stored e = rw e (ground arith)

    recorded_case :
        (stored : StoredIdempotencyRecord)
        → lookup (record_key command) s.idempotency_records ≡ some stored
        → AcceptCase command s d (accept command s d)
    recorded_case stored e =
        let o = accept_recorded stored e in
        elim (Bool-cases (same_fingerprint stored.fingerprint (fingerprint_for command))) [
          | inl same ↦ replayed stored e same (o ∙ rw same)
          | inr other ↦ conflicted stored e other (o ∙ rw other)
        ]

    settle_case :
        (p : DispatchPlan × D) (registration : StoredRegistration) (result : AcceptedCommandResult)
        → lookup (record_key command) s.idempotency_records ≡ none
        → Planned command (lookup (registration_key command) s.registrations) registration
        → Reports command registration result
        → result.replayed_by_idempotency ≡ false
        → AcceptCase command s d
            (settle in_memory_command_store port p s result (commit command registration result s))
    unfolding settle
    settle_case p registration result e from report fresh =
        elim (Bool-cases (is_failed p.0.dispatch_outcome)) [
          | inl failed ↦ rw failed (undispatched e refl refl)
          | inr done ↦ rw done (committed registration result e from report refl fresh refl)
        ]

    planned_case :
        lookup (record_key command) s.idempotency_records ≡ none
        → (found : Option StoredRegistration)
        → lookup (registration_key command) s.registrations ≡ found
        → AcceptCase command s d
            (carry_out in_memory_command_store port command (plan_registration command found) s d)
    unfolding carry_out plan_registration commit_new commit_reuse new_result reuse_result
        accepted_result
    planned_case e none f =
        settle_case _ _ _ e (rw f (refl, refl, refl)) (refl, refl, refl, refl) refl
    planned_case e (some existing) f =
        settle_case _ _ _ e (rw f (refl, refl, refl)) (refl, refl, refl, refl) refl

    pub accept_cases : AcceptCase command s d (accept command s d)
    unfolding accept_register_command plan plan_record
    accept_cases = elim (Option-cases (lookup (record_key command) s.idempotency_records)) [
      | inr (stored, e) ↦ recorded_case stored e
      | inl e ↦ rw e (planned_case e (lookup (registration_key command) s.registrations) refl)
    ]

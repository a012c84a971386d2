-- ===== src/CommandApi/Acceptance/Registrations.antt =====
-- What is registered after any sequence of register commands.
use text.Mathlib.Text.{◌==◌}
use vocastock.Prelude.{
  String, ◌≡◌, ◌⊎◌, refl, ap, ◌∙◌, Bool, false, Option, none, some, List, [], ◌∷◌, arith, ok,
  eq_iff, inl, inr, Bool-cases, eq_refl,
}
use vocastock.TextMap.{lookup, lookup-insert}
use vocastock.CommandApi.Contract.{
  registered_state, explanation_state_queued, explanation_state_not_started,
  vocabulary_expression_for,
}
use vocastock.CommandApi.Response.{AcceptedCommandResult, replay}
use vocastock.CommandApi.Request.{RegisterVocabularyExpressionCommand}
use vocastock.CommandApi.Dispatch.{DispatchPort}
use vocastock.CommandApi.Store.{
  StoredRegistration, StoreState, duplicate_reuse_plan, registration_key, scoped_key,
  scoped_key_injective, registration_for, empty_store,
}
use vocastock.CommandApi.Acceptance.{Outcome}
use vocastock.CommandApi.Acceptance.Cases.{
  accept, AcceptCase, replayed, conflicted, undispatched, committed, accept_cases, Planned, Reports,
}
use vocastock.CommandApi.Acceptance.Replay.{run}

-- A registration of `text` as the service makes them.
pub record IsSoundFor (text : String) (r : StoredRegistration) : Type 0 where
  pub identifier : r.vocabulary_expression ≡ vocabulary_expression_for text
  pub state : r.registration_state ≡ registered_state
  pub explanation :
      (r.explanation_state ≡ explanation_state_queued)
      ⊎ (r.explanation_state ≡ explanation_state_not_started)

pub record IsSound (s : StoreState) : Type 0 where
  pub at :
      (actor text : String) (r : StoredRegistration)
      → registration_for s actor text ≡ some r
      → IsSoundFor text r

pub empty_store-IsSound : IsSound empty_store
unfolding registration_for lookup
empty_store-IsSound = record { at = λ actor text r found. absurd (cc found) }

Planned-IsSoundFor :
    (command : RegisterVocabularyExpressionCommand) (found : Option StoredRegistration)
    (r : StoredRegistration)
    → ((e : StoredRegistration) → found ≡ some e → IsSoundFor command.normalized_text e)
    → Planned command found r
    → IsSoundFor command.normalized_text r
unfolding duplicate_reuse_plan
Planned-IsSoundFor command none r sound h = record {
  identifier = h.0;
  state = h.1;
  explanation = ground arith;
}
Planned-IsSoundFor command (some existing) r sound h =
    let v = sound existing refl in
    record {
      identifier = h.0 ∙ v.identifier;
      state = h.1 ∙ v.state;
      explanation = ground (arith, v.explanation);
    }

reuse_queued :
    (existing : StoredRegistration) (start_explanation : Bool)
    → existing.explanation_state ≡ explanation_state_queued
    → (duplicate_reuse_plan existing start_explanation).1 ≡ explanation_state_queued
unfolding duplicate_reuse_plan
reuse_queued existing start_explanation q = ground arith

module _ {D : Type 0} (port : DispatchPort D) where
  case-IsSound :
      (command : RegisterVocabularyExpressionCommand) (s : StoreState) (d : D)
      (o : Outcome StoreState D)
      → AcceptCase port command s d o
      → IsSound s
      → IsSound o.store
  unfolding registration_for
  case-IsSound command s d o (replayed _ _ _ e) h = rw e h
  case-IsSound command s d o (conflicted _ _ _ e) h = rw e h
  case-IsSound command s d o (undispatched _ _ e) h = rw e h
  case-IsSound command s d o (committed registration result _ from _ _ _ e) h = record {
    at = λ actor text r found.
        let found' =
          rw
            (
              e,
              lookup-insert (registration_key command) (scoped_key actor text) registration
                  s.registrations,
            )
            at found in
        elim (Bool-cases (registration_key command == scoped_key actor text)) [
          | inl same ↦
              let (_, text_eq) =
                scoped_key_injective command.actor.actor.as_str actor command.normalized_text text
                  ((eq_iff _ _).0 same) in
              let now : some registration ≡ some r = rw same at found' in
              let r_eq : registration ≡ r = cc now in
              rw (← text_eq, ← r_eq)
                (Planned-IsSoundFor command (lookup (registration_key command) s.registrations)
                  registration (h.at command.actor.actor.as_str command.normalized_text) from)
          | inr other ↦ h.at actor text r (rw other at found')
        ];
  }

  -- From a store whose registrations are sound, as those of the empty store are, and after any
  -- commands, whatever the dispatcher answers: each registration has the identifier of its text,
  -- is "registered", and its explanation is queued or not started.
  pub run-IsSound :
      (commands : List RegisterVocabularyExpressionCommand) (s : StoreState) (d : D)
      → IsSound s
      → IsSound (run port commands s d).0
  unfolding run
  run-IsSound [] s d h = h
  run-IsSound (command ∷ commands) s d h =
      let o = accept port command s d in
      run-IsSound commands o.store o.dispatcher
        (case-IsSound command s d o (accept_cases port command s d) h)

  case-registration_for :
      (command : RegisterVocabularyExpressionCommand) (s : StoreState) (d : D)
      (o : Outcome StoreState D) (result : AcceptedCommandResult)
      → AcceptCase port command s d o
      → o.answer ≡ ok result
      → result.replayed_by_idempotency ≡ false
      → (r : StoredRegistration) × (registration_for o.store command.actor.actor.as_str
            command.normalized_text
          ≡ some r)
        × Reports command r result
  unfolding registration_for replay
  case-registration_for command s d o result (replayed stored _ _ e) h fresh =
      let given : replay stored.result ≡ result =
        cc (ap (λ (p : Outcome StoreState D). p.answer) e) in
      absurd (cc (ap (λ (p : AcceptedCommandResult). p.replayed_by_idempotency) given))
  case-registration_for command s d o result (conflicted _ _ _ e) h fresh =
      absurd (cc (ap (λ (p : Outcome StoreState D). p.answer) e))
  case-registration_for command s d o result (undispatched _ e _) h fresh = absurd (cc (e, h))
  case-registration_for command s d o result (committed registration result' _ _ report e _ e') h
        fresh =
      let same : result' ≡ result = cc (e, h) in
      (
        registration,
        rw
            (
              e',
              lookup-insert (registration_key command) (registration_key command) registration
                  s.registrations,
            )
            (rw eq_refl),
        rw (← same) report,
      )

  case-keeps_queued :
      (actor text : String) (r : StoredRegistration) (command : RegisterVocabularyExpressionCommand)
      (s : StoreState) (d : D) (o : Outcome StoreState D)
      → AcceptCase port command s d o
      → registration_for s actor text ≡ some r
      → r.explanation_state ≡ explanation_state_queued
      → (r' : StoredRegistration) × (registration_for o.store actor text ≡ some r')
        × (r'.vocabulary_expression ≡ r.vocabulary_expression)
        × (r'.explanation_state ≡ explanation_state_queued)
  unfolding registration_for
  case-keeps_queued actor text r command s d o (replayed _ _ _ e) h q = (r, rw e h, refl, q)
  case-keeps_queued actor text r command s d o (conflicted _ _ _ e) h q = (r, rw e h, refl, q)
  case-keeps_queued actor text r command s d o (undispatched _ _ e) h q = (r, rw e h, refl, q)
  case-keeps_queued actor text r command s d o (committed registration _ _ from _ _ _ e) h q =
      elim (Bool-cases (registration_key command == scoped_key actor text)) [
        | inl same ↦
            let key = (eq_iff (registration_key command) (scoped_key actor text)).0 same in
            let before : lookup (registration_key command) s.registrations ≡ some r = rw key h in
            let from' : Planned command (some r) registration = rw before at from in
            (
              registration,
              rw
                  (
                    e,
                    lookup-insert (registration_key command) (scoped_key actor text) registration
                        s.registrations,
                  )
                  (rw same),
              from'.0,
              from'.2 ∙ reuse_queued r command.start_explanation q,
            )
        | inr other ↦ (
          r,
          rw
              (
                e,
                lookup-insert (registration_key command) (scoped_key actor text) registration
                    s.registrations,
              )
              (rw other h),
          refl,
          q,
        )
      ]

  -- A command that is accepted anew answers with what is then registered under its text.
  pub accept-registration_for :
      (command : RegisterVocabularyExpressionCommand) (s : StoreState) (d : D)
      (result : AcceptedCommandResult)
      → (accept port command s d).answer ≡ ok result
      → result.replayed_by_idempotency ≡ false
      → (r : StoredRegistration) × (registration_for
            (accept port command s d).store
            command.actor.actor.as_str
            command.normalized_text
          ≡ some r)
        × Reports command r result
  accept-registration_for command s d result h fresh =
      case-registration_for command s d (accept port command s d) result
        (accept_cases port command s d) h fresh

  -- Once the explanation of a registration is queued, no later command changes its identifier or
  -- takes it out of the queue.
  pub run-keeps_queued :
      (actor text : String) (r : StoredRegistration)
      (commands : List RegisterVocabularyExpressionCommand) (s : StoreState) (d : D)
      → registration_for s actor text ≡ some r
      → r.explanation_state ≡ explanation_state_queued
      → (r' : StoredRegistration) × (registration_for (run port commands s d).0 actor text
          ≡ some r')
        × (r'.vocabulary_expression ≡ r.vocabulary_expression)
        × (r'.explanation_state ≡ explanation_state_queued)
  unfolding run
  run-keeps_queued actor text r [] s d h q = (r, h, refl, q)
  run-keeps_queued actor text r (command ∷ commands) s d h q =
      let o = accept port command s d in
      let (r₁, h₁, v₁, q₁) =
        case-keeps_queued actor text r command s d o (accept_cases port command s d) h q in
      let (r₂, h₂, v₂, q₂) = run-keeps_queued actor text r₁ commands o.store o.dispatcher h₁ q₁ in
      (r₂, h₂, v₂ ∙ v₁, q₂)

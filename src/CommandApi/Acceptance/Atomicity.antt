-- ===== src/CommandApi/Acceptance/Atomicity.antt =====
-- What a failing command leaves behind, and which commands reach the dispatcher.
use vocastock.Prelude.{
  ◌≡◌, ◌⊎◌, ◌≢◌, refl, false, Option, none, some, arith, err, inl, inr, Bool-cases,
}
use vocastock.TextMap.{lookup}
use vocastock.CommandApi.Response.{
  AcceptedCommandResult, CommandFailure, idempotency_conflict, dispatch_failed,
}
use vocastock.CommandApi.Request.{RegisterVocabularyExpressionCommand}
use vocastock.CommandApi.Dispatch.{DispatchPort, DispatchPlan}
use vocastock.CommandApi.Store.{
  in_memory_command_store, StoredIdempotencyRecord, StoredRegistration, StoreDecision, accept_new,
  replay_existing, reuse_existing, conflict, CommandStore, StoreState, plan, plan_record,
  plan_registration, duplicate_reuse_plan, registration_key, record_key, same_fingerprint,
  fingerprint_for,
}
use vocastock.CommandApi.Acceptance.{accept_register_command, carry_out, settle}
use vocastock.CommandApi.Acceptance.Cases.{accept}

module _ {S D : Type 0} (store : CommandStore S) (port : DispatchPort D) where
  settle-err :
      (p : DispatchPlan × D) (s s' : S) (result : AcceptedCommandResult) (e : CommandFailure)
      → (settle store port p s result s').answer ≡ err e
      → (e ≡ dispatch_failed) × ((settle store port p s result s').store ≡ s)
  unfolding settle
  settle-err p s s' result e h = ground arith

  carry_out-err :
      (command : RegisterVocabularyExpressionCommand) (decision : StoreDecision) (s : S) (d : D)
      (e : CommandFailure)
      → (carry_out store port command decision s d).answer ≡ err e
      → ((e ≡ idempotency_conflict) ⊎ (e ≡ dispatch_failed))
        × ((carry_out store port command decision s d).store ≡ s)
  unfolding carry_out
  carry_out-err command (replay_existing result) s d e h = absurd (cc)
  carry_out-err command conflict s d e h = (inl (cc), refl)
  carry_out-err command (accept_new plan) s d e h =
      let (f, kept) = settle-err _ s _ _ e h in (inr f, kept)
  carry_out-err command (reuse_existing plan) s d e h =
      let (f, kept) = settle-err _ s _ _ e h in (inr f, kept)

  -- Whatever the store and the dispatcher: a command that fails is a conflict or a failed
  -- dispatch, and leaves the store as it was.
  pub accept-err_keeps_store :
      (command : RegisterVocabularyExpressionCommand) (s : S) (d : D) (e : CommandFailure)
      → (accept_register_command store port command s d).answer ≡ err e
      → ((e ≡ idempotency_conflict) ⊎ (e ≡ dispatch_failed))
        × ((accept_register_command store port command s d).store ≡ s)
  unfolding accept_register_command
  accept-err_keeps_store command s d e h = carry_out-err command (store.plan command s) s d e h

conflict-ne-dispatch_failed : idempotency_conflict ≢ dispatch_failed
conflict-ne-dispatch_failed e = cc

module _ {D : Type 0} (port : DispatchPort D) where
  quiet_decision :
      (command : RegisterVocabularyExpressionCommand) (recorded : Option StoredIdempotencyRecord)
      (found : Option StoredRegistration) (s : StoreState) (d : D)
      → command.start_explanation ≡ false
      → let decision = plan_record command recorded (plan_registration command found) in
        let o = carry_out in_memory_command_store port command decision s d in
        (o.dispatcher ≡ d) × (o.answer ≢ err dispatch_failed)
  unfolding carry_out settle plan_record plan_registration duplicate_reuse_plan
  quiet_decision command (some stored) found s d h =
      elim (Bool-cases (same_fingerprint stored.fingerprint (fingerprint_for command))) [
        | inl same ↦ rw same (refl, λ p. cc p)
        | inr other ↦ rw other (refl, λ p. conflict-ne-dispatch_failed (cc p))
      ]
  quiet_decision command none none s d h = rw h (refl, λ p. cc p)
  quiet_decision command none (some existing) s d h = rw h (refl, λ p. cc p)

  -- A command that asks for no explanation reaches no dispatcher, whatever is stored, and never
  -- fails by a dispatch.
  pub accept_without_explanation :
      (command : RegisterVocabularyExpressionCommand) (s : StoreState) (d : D)
      → command.start_explanation ≡ false
      → ((accept port command s d).dispatcher ≡ d)
        × ((accept port command s d).answer ≢ err dispatch_failed)
  unfolding accept_register_command plan
  accept_without_explanation command s d h =
      quiet_decision command (lookup (record_key command) s.idempotency_records)
        (lookup (registration_key command) s.registrations) s d h

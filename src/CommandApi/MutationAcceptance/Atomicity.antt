-- ===== src/CommandApi/MutationAcceptance/Atomicity.antt =====
-- When a mutation command changes the store or reaches the dispatcher, for any of both.
use vocastock.Prelude.{◌≡◌, ◌⊎◌, refl, inl, inr, false, Bool-cases}
use vocastock.CommandApi.Dispatch.{DispatchPort, is_failed}
use vocastock.CommandApi.MutationStore.{
  MutationCommandStore, IdempotencyDecision, replay, conflict, fresh,
}
use vocastock.CommandApi.MutationCommand.{MutationCommand, fingerprint_for, success_envelope}
use vocastock.CommandApi.MutationAcceptance.{
  MutationOutcome, conflict_envelope, undispatched_envelope, finish, act, accept_mutation_command,
}

module _ {S D : Type 0} (store : MutationCommandStore S) (port : DispatchPort D) where
  -- The dispatcher took the command, and the acceptance is recorded with its envelope.
  abbrev pub IsAcceptance : MutationCommand → S → D → MutationOutcome S D → Type 0
  IsAcceptance command s d o =
      (o.answer ≡ success_envelope command)
      × (o.store
          ≡ store.commit_mutation command.actor_reference command.idempotency_key
              (fingerprint_for command) o.answer s)
      × (is_failed (port.dispatch command.request d).0.dispatch_outcome ≡ false)
      × (o.dispatcher ≡ (port.dispatch command.request d).1)

  -- Nothing is recorded: an earlier envelope, a conflict or a failed dispatch is answered.
  abbrev pub IsRefusal : MutationCommand → S → MutationOutcome S D → Type 0
  IsRefusal command s o =
      (o.store ≡ s)
      × ((store.idempotency_decision command.actor_reference command.idempotency_key
              (fingerprint_for command) s
            ≡ replay o.answer)
          ⊎ (o.answer ≡ conflict_envelope)
          ⊎ (o.answer ≡ undispatched_envelope))

  act_cases :
      (command : MutationCommand) (decision : IdempotencyDecision) (s : S) (d : D)
      → store.idempotency_decision command.actor_reference command.idempotency_key
          (fingerprint_for command)
          s
        ≡ decision
      → IsAcceptance command s d (act store port command decision s d)
        ⊎ IsRefusal command s (act store port command decision s d)
  unfolding act finish
  act_cases command (replay envelope) s d e = inr (refl, inl e)
  act_cases command conflict s d e = inr (refl, inr (inl refl))
  act_cases command fresh s d e =
      elim (Bool-cases (is_failed (port.dispatch command.request d).0.dispatch_outcome)) [
        | inl failed ↦ rw failed (inr (refl, inr (inr refl)))
        | inr done ↦ rw done (inl (refl, refl, refl, refl))
      ]

  -- Whatever the store and the dispatcher: a mutation command is either accepted anew, dispatched
  -- and recorded with the envelope that it is answered with, or it leaves the store as it was and
  -- is answered with the recorded envelope, a conflict or a failed dispatch.
  pub accept_mutation_cases :
      (command : MutationCommand) (s : S) (d : D)
      → let o = accept_mutation_command store port command s d in
        IsAcceptance command s d o ⊎ IsRefusal command s o
  unfolding accept_mutation_command
  accept_mutation_cases command s d = act_cases command _ s d refl

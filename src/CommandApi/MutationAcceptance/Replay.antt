-- ===== src/CommandApi/MutationAcceptance/Replay.antt =====
-- Idempotency of the mutation commands, over any sequence of them and any store that keeps its
-- records.
use text.Mathlib.Text.{◌==◌}
use vocastock.Prelude.{
  String, ◌≡◌, ◌≢◌, ◌↔◌, ◌⊎◌, ◌&&◌, if_cases, refl, sym, ◌∙◌, true, false, some, List, [], ◌∷◌,
  arith, eq_iff, eq_refl, inl, inr, Bool-cases, if◌then◌else◌,
}
use vocastock.CommandApi.Dispatch.{DispatchPort, is_failed}
use vocastock.CommandApi.MutationResponse.{CommandResponseEnvelope, rejected}
use vocastock.CommandApi.MutationStore.{
  IdempotencyDecision, replay, conflict, fresh, MutationFingerprint, same_fingerprint,
  MutationCommandStore, MutationRecord, decide, KeepsRecords,
}
use vocastock.CommandApi.MutationCommand.{MutationCommand, fingerprint_for, success_envelope}
use vocastock.CommandApi.MutationAcceptance.{
  MutationOutcome, conflict_envelope, finish, act, accept_mutation_command,
}

same_fingerprint_iff : (a b : MutationFingerprint) → (same_fingerprint a b ≡ true) ↔ (a ≡ b)
unfolding same_fingerprint
same_fingerprint_iff a b =
    ground (arith, eq_iff a.command_name b.command_name, eq_iff a.payload_hash b.payload_hash)

both_same : (a b s t : String) → (a == b && s == t) ≡ true → (a ≡ b) × (s ≡ t)
both_same a b s t h =
    (ground (arith, h, eq_iff a b, eq_iff s t), ground (arith, h, eq_iff a b, eq_iff s t))

decision-cases :
    (decision : IdempotencyDecision)
    → ((envelope : CommandResponseEnvelope) × (decision ≡ replay envelope))
      ⊎ ((decision ≡ conflict) ⊎ (decision ≡ fresh))
decision-cases (replay envelope) = inl (envelope, refl)
decision-cases conflict = inr (inl refl)
decision-cases fresh = inr (inr refl)

-- A record never decides that a command is fresh.
pub decide-fresh :
    (stored : MutationRecord) (asked : MutationFingerprint) → decide (some stored) asked ≢ fresh
unfolding decide
decide-fresh stored asked h = elim (Bool-cases (same_fingerprint stored.fingerprint asked)) [
  | inl e ↦ absurd (cc (rw e at h))
  | inr e ↦ absurd (cc (rw e at h))
]

module _ {S D : Type 0} (store : MutationCommandStore S) (keeps : KeepsRecords store)
    (port : DispatchPort D) where
  abbrev pub accept : MutationCommand → S → D → MutationOutcome S D
  accept = accept_mutation_command store port

  -- The states behind a sequence of commands, whatever each of them answered.
  unfoldable pub run : List MutationCommand → S → D → S × D
  run [] s d = (s, d)
  run (command ∷ commands) s d = let o = accept command s d in run commands o.store o.dispatcher

  -- The key of the actor decides from the record.
  abbrev pub Recorded : String → String → MutationRecord → S → Type 0
  Recorded actor key stored s =
      (asked : MutationFingerprint)
      → store.idempotency_decision actor key asked s ≡ decide (some stored) asked

  abbrev pub record_of : MutationCommand → MutationRecord
  record_of command = record {
    fingerprint = fingerprint_for command;
    envelope = success_envelope command;
  }

  -- Where the command is fresh and its dispatch does not fail, its commit is written.
  abbrev pub Writes : MutationCommand → S → D → Type 0
  Writes command s d =
      store.idempotency_decision command.actor_reference command.idempotency_key
          (fingerprint_for command) s
        ≡ fresh
      → is_failed (port.dispatch command.request d).0.dispatch_outcome ≡ false
      → keeps.is_written command.actor_reference command.idempotency_key (record_of command) s

  -- The commits of a sequence of commands are written.
  unfoldable pub WritesAll : List MutationCommand → S → D → Type 0
  WritesAll [] s d = Unit
  WritesAll (command ∷ commands) s d =
      Writes command s d × (let o = accept command s d in WritesAll commands o.store o.dispatcher)

  -- With a record of its key, a command is answered from the record.
  pub accept-answer :
      (command : MutationCommand) (s : S) (d : D) (stored : MutationRecord)
      → Recorded command.actor_reference command.idempotency_key stored s
      → accept command s d ≡ (
          if same_fingerprint stored.fingerprint (fingerprint_for command)
          then record { answer = stored.envelope; store = s; dispatcher = d }
          else record { answer = conflict_envelope; store = s; dispatcher = d })
  unfolding accept_mutation_command act decide
  accept-answer command s d stored h =
      rw (h (fingerprint_for command))
        (elim (Bool-cases (same_fingerprint stored.fingerprint (fingerprint_for command))) [
          | inl same ↦ rw same refl
          | inr other ↦ rw other refl
        ])

  -- A record of a key outlives a command.
  accept-Recorded :
      (command : MutationCommand) (s : S) (d : D) (actor key : String) (stored : MutationRecord)
      → keeps.is_name actor
      → keeps.is_name key
      → Writes command s d
      → Recorded actor key stored s
      → Recorded actor key stored (accept command s d).store
  unfolding accept_mutation_command act finish
  accept-Recorded command s d actor key stored is_actor is_key writes h asked =
      let own = command.actor_reference in
      let own_key = command.idempotency_key in
      elim (decision-cases (store.idempotency_decision own own_key (fingerprint_for command) s)) [
        | inl (envelope, e) ↦ rw e (h asked)
        | inr (inl e) ↦ rw e (h asked)
        | inr (inr e) ↦
            elim (Bool-cases (is_failed (port.dispatch command.request d).0.dispatch_outcome)) [
              | inl failed ↦ rw (e, failed) (h asked)
              | inr done ↦
                  rw
                    (
                      e,
                      done,
                      keeps.commits own own_key (fingerprint_for command) (success_envelope command)
                          s (writes e done) actor key is_actor is_key asked,
                    )
                    (if_cases (λ v. v ≡ decide (some stored) asked) (own == actor && own_key == key)
                      (λ same.
                        let (actors, keys) = both_same own actor own_key key same in
                        let unrecorded : store.idempotency_decision actor key
                              (fingerprint_for command) s
                            ≡ fresh =
                          rw (← actors, ← keys) e in
                        absurd (
                          decide-fresh stored (fingerprint_for command)
                            (sym (h (fingerprint_for command)) ∙ unrecorded)))
                      (λ _. h asked))
            ]
      ]

  run-Recorded :
      (commands : List MutationCommand) (s : S) (d : D) (actor key : String)
      (stored : MutationRecord)
      → keeps.is_name actor
      → keeps.is_name key
      → WritesAll commands s d
      → Recorded actor key stored s
      → Recorded actor key stored (run commands s d).0
  unfolding run WritesAll
  run-Recorded [] s d actor key stored is_actor is_key writes h = h
  run-Recorded (command ∷ commands) s d actor key stored is_actor is_key (first, later) h =
      let o = accept command s d in
      run-Recorded commands o.store o.dispatcher actor key stored is_actor is_key later
        (accept-Recorded command s d actor key stored is_actor is_key first h)

  -- What an accepted command leaves under its key.
  pub accept-accepted :
      (command : MutationCommand) (s : S) (d : D)
      → keeps.is_name command.actor_reference
      → keeps.is_name command.idempotency_key
      → Writes command s d
      → (accept command s d).answer.accepted ≡ true
      → let o = accept command s d in
        Recorded command.actor_reference command.idempotency_key
          (record { fingerprint = fingerprint_for command; envelope = o.answer })
          o.store
  unfolding accept_mutation_command act finish rejected
  accept-accepted command s d is_actor is_key writes h asked =
      let actor = command.actor_reference in
      let key = command.idempotency_key in
      let fingerprint = fingerprint_for command in
      elim (decision-cases (store.idempotency_decision actor key fingerprint s)) [
        | inl (envelope, e) ↦ rw e (keeps.replays actor key fingerprint s envelope e asked)
        | inr (inl e) ↦ absurd (cc (rw e at h))
        | inr (inr e) ↦
            elim (Bool-cases (is_failed (port.dispatch command.request d).0.dispatch_outcome)) [
              | inl failed ↦ absurd (cc (rw (e, failed) at h))
              | inr done ↦
                  rw
                    (
                      e,
                      done,
                      keeps.commits actor key fingerprint (success_envelope command) s
                          (writes e done) actor key is_actor is_key asked,
                    )
                    (rw (eq_refl, eq_refl))
            ]
      ]

  -- What an accepted command has left behind a sequence of commands.
  run-accepted :
      (command : MutationCommand) (between : List MutationCommand) (s : S) (d : D)
      → keeps.is_name command.actor_reference
      → keeps.is_name command.idempotency_key
      → WritesAll (command ∷ between) s d
      → (accept command s d).answer.accepted ≡ true
      → Recorded command.actor_reference command.idempotency_key
          (record { fingerprint = fingerprint_for command; envelope = (accept command s d).answer })
          (run (command ∷ between) s d).0
  unfolding run WritesAll
  run-accepted command between s d is_actor is_key (first, later) h =
      let o = accept command s d in
      run-Recorded between o.store o.dispatcher command.actor_reference command.idempotency_key _
        is_actor is_key later (accept-accepted command s d is_actor is_key first h)

  -- A mutation command that was accepted once is answered with the same envelope again, whatever
  -- commands came in between, and changes neither the store nor the dispatcher, where the commits of
  -- it and of these commands are written and its actor and key are told apart by the store.
  pub accept_mutation_again :
      (command : MutationCommand) (between : List MutationCommand) (s : S) (d : D)
      → keeps.is_name command.actor_reference
      → keeps.is_name command.idempotency_key
      → WritesAll (command ∷ between) s d
      → (accept command s d).answer.accepted ≡ true
      → let (s', d') = run (command ∷ between) s d in
        accept command s' d'
        ≡ record { answer = (accept command s d).answer; store = s'; dispatcher = d' }
  accept_mutation_again command between s d is_actor is_key writes h =
      let (s', d') = run (command ∷ between) s d in
      accept-answer command s' d' _ (run-accepted command between s d is_actor is_key writes h)
      ∙ rw ((same_fingerprint_iff _ _).1 refl)

  -- A later command of the same actor under the same key, with another name or another payload,
  -- is refused as a conflict, and changes neither the store nor the dispatcher, where the commits of
  -- the first command and of those in between are written and its actor and key are told apart by
  -- the store.
  pub accept_mutation_other :
      (command other : MutationCommand) (between : List MutationCommand) (s : S) (d : D)
      → keeps.is_name command.actor_reference
      → keeps.is_name command.idempotency_key
      → WritesAll (command ∷ between) s d
      → (accept command s d).answer.accepted ≡ true
      → other.actor_reference ≡ command.actor_reference
      → other.idempotency_key ≡ command.idempotency_key
      → fingerprint_for other ≢ fingerprint_for command
      → let (s', d') = run (command ∷ between) s d in
        accept other s' d' ≡ record { answer = conflict_envelope; store = s'; dispatcher = d' }
  accept_mutation_other command other between s d is_actor is_key writes h actor key differs =
      let (s', d') = run (command ∷ between) s d in
      let stored : MutationRecord = record {
        fingerprint = fingerprint_for command;
        envelope = (accept command s d).answer;
      } in
      let unlike : same_fingerprint (fingerprint_for command) (fingerprint_for other) ≡ false =
        ground (arith, same_fingerprint_iff (fingerprint_for command) (fingerprint_for other)) in
      let found : Recorded other.actor_reference other.idempotency_key stored s' =
        rw (actor, key) (run-accepted command between s d is_actor is_key writes h) in
      accept-answer other s' d' stored found ∙ rw unlike

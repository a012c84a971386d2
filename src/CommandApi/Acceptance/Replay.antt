-- ===== src/CommandApi/Acceptance/Replay.antt =====
-- Idempotency of the register command, over any sequence of commands.
use vocastock.Prelude.{
  String, ◌≡◌, ◌≢◌, refl, sym, ap, ◌∙◌, false, some, List, [], ◌∷◌, arith, ok, err, eq_iff, eq_refl,
}
use vocastock.TextMap.{lookup, lookup-insert}
use vocastock.CommandApi.Response.{AcceptedCommandResult, replay, idempotency_conflict}
use vocastock.CommandApi.Request.{RegisterVocabularyExpressionCommand}
use vocastock.CommandApi.Dispatch.{DispatchPort}
use vocastock.CommandApi.Store.{
  StoredIdempotencyRecord, StoreState, fingerprint_for, same_fingerprint, record_key,
}
use vocastock.CommandApi.Store.Laws.{same_fingerprint_iff}
use vocastock.CommandApi.Acceptance.{Outcome}
use vocastock.CommandApi.Acceptance.Cases.{
  accept, AcceptCase, replayed, conflicted, undispatched, committed, accept_cases, accept_recorded,
}

replay_idem : (result : AcceptedCommandResult) → replay (replay result) ≡ replay result
unfolding replay
replay_idem result = refl

module _ {D : Type 0} (port : DispatchPort D) where
  -- The states behind a sequence of commands, whatever each of them answered.
  unfoldable pub run : List RegisterVocabularyExpressionCommand → StoreState → D → StoreState × D
  run [] s d = (s, d)
  run (command ∷ commands) s d =
      let o = accept port command s d in run commands o.store o.dispatcher

  pub case-recorded :
      (key : String) (stored : StoredIdempotencyRecord)
      (command : RegisterVocabularyExpressionCommand) (s : StoreState) (d : D)
      (o : Outcome StoreState D)
      → AcceptCase port command s d o
      → lookup key s.idempotency_records ≡ some stored
      → lookup key o.store.idempotency_records ≡ some stored
  case-recorded key stored command s d o (replayed _ _ _ e) h = rw e h
  case-recorded key stored command s d o (conflicted _ _ _ e) h = rw e h
  case-recorded key stored command s d o (undispatched _ _ e) h = rw e h
  case-recorded key stored command s d o (committed _ result absent _ _ _ _ e) h =
      rw (e, lookup-insert (record_key command) key _ s.idempotency_records)
        (ground (arith, eq_iff (record_key command) key))

  -- A record is never overwritten or removed, by any sequence of commands.
  pub run-recorded :
      (key : String) (stored : StoredIdempotencyRecord)
      (commands : List RegisterVocabularyExpressionCommand) (s : StoreState) (d : D)
      → lookup key s.idempotency_records ≡ some stored
      → lookup key (run commands s d).0.idempotency_records ≡ some stored
  unfolding run
  run-recorded key stored [] s d h = h
  run-recorded key stored (command ∷ commands) s d h =
      let o = accept port command s d in
      run-recorded key stored commands o.store o.dispatcher
        (case-recorded key stored command s d o (accept_cases port command s d) h)

  -- What a successful command leaves in the store.
  pub case-ok :
      (command : RegisterVocabularyExpressionCommand) (s : StoreState) (d : D)
      (o : Outcome StoreState D) (result : AcceptedCommandResult)
      → AcceptCase port command s d o
      → o.answer ≡ ok result
      → (stored : StoredIdempotencyRecord) × (lookup
            (record_key command)
            o.store.idempotency_records
          ≡ some stored)
        × (stored.fingerprint ≡ fingerprint_for command)
        × (replay stored.result ≡ replay result)
  case-ok command s d o result (replayed stored found same e) h =
      let given : replay stored.result ≡ result =
        cc (ap (λ (p : Outcome StoreState D). p.answer) e) in
      (stored, rw e found, (same_fingerprint_iff _ _).0 same, rw (← given) (sym (replay_idem _)))
  case-ok command s d o result (conflicted _ _ _ e) h =
      absurd (cc (ap (λ (p : Outcome StoreState D). p.answer) e))
  case-ok command s d o result (undispatched _ e _) h = absurd (cc (e, h))
  case-ok command s d o result (committed _ result' absent _ _ e fresh e') h = (
    record { fingerprint = fingerprint_for command; result = result' },
    rw (e', lookup-insert (record_key command) (record_key command) _ s.idempotency_records)
        (rw eq_refl),
    refl,
    ap replay (cc (e, h)),
  )

  -- The record of a successful command is still there after any later commands.
  record_stays :
      (command : RegisterVocabularyExpressionCommand)
      (between : List RegisterVocabularyExpressionCommand) (s : StoreState) (d : D)
      (result : AcceptedCommandResult)
      → (accept port command s d).answer ≡ ok result
      → (stored : StoredIdempotencyRecord) × (lookup
            (record_key command)
            (run (command ∷ between) s d).0.idempotency_records
          ≡ some stored)
        × (stored.fingerprint ≡ fingerprint_for command)
        × (replay stored.result ≡ replay result)
  unfolding run
  record_stays command between s d result h =
      let o = accept port command s d in
      let (stored, found, fingerprint, same) =
        case-ok command s d o result (accept_cases port command s d) h in
      (
        stored,
        run-recorded (record_key command) stored between o.store o.dispatcher found,
        fingerprint,
        same,
      )

  -- A command that succeeded once succeeds again with the same result marked as a replay,
  -- whatever commands came in between, and changes neither the store nor the dispatcher.
  pub accept_again :
      (command : RegisterVocabularyExpressionCommand)
      (between : List RegisterVocabularyExpressionCommand) (s : StoreState) (d : D)
      (result : AcceptedCommandResult)
      → (accept port command s d).answer ≡ ok result
      → let (s', d') = run (command ∷ between) s d in
        accept port command s' d'
        ≡ record { answer = ok (replay result); store = s'; dispatcher = d' }
  accept_again command between s d result h =
      let (stored, found, fingerprint, same) = record_stays command between s d result h in
      let (s', d') = run (command ∷ between) s d in
      accept_recorded port command s' d' stored found
      ∙ rw ((same_fingerprint_iff _ _).1 fingerprint, same)

  -- A later command of the same actor under the same key, with another text or another choice of
  -- `startExplanation`, is a conflict, and changes neither the store nor the dispatcher.
  pub accept_other :
      (command other : RegisterVocabularyExpressionCommand)
      (between : List RegisterVocabularyExpressionCommand) (s : StoreState) (d : D)
      (result : AcceptedCommandResult)
      → (accept port command s d).answer ≡ ok result
      → other.actor.actor.as_str ≡ command.actor.actor.as_str
      → other.idempotency_key ≡ command.idempotency_key
      → fingerprint_for other ≢ fingerprint_for command
      → let (s', d') = run (command ∷ between) s d in
        accept port other s' d'
        ≡ record { answer = err idempotency_conflict; store = s'; dispatcher = d' }
  accept_other command other between s d result h actor key differs =
      let (stored, found, fingerprint, same) = record_stays command between s d result h in
      let (s', d') = run (command ∷ between) s d in
      let found' : lookup (record_key other) s'.idempotency_records ≡ some stored =
        rw (actor, key) found in
      let unlike : same_fingerprint stored.fingerprint (fingerprint_for other) ≡ false =
        ground (arith, same_fingerprint_iff stored.fingerprint (fingerprint_for other)) in
      accept_recorded port other s' d' stored found' ∙ rw unlike

-- ===== src/CommandApi/Acceptance/Once.antt =====
-- How often one idempotency key of one actor is accepted anew.
use text.Mathlib.Text.{◌==◌}
use vocastock.Prelude.{
  ℕ, ◌+◌, ◌≤◌, String, ◌≡◌, refl, Bool, true, false, not, ◌&&◌, some, List, [], ◌∷◌, arith, Result,
  ok, err, eq_iff, Bool-cases, inl, inr,
}
use vocastock.TextMap.{lookup}
use vocastock.CommandApi.Response.{AcceptedCommandResult, CommandFailure, replay}
use vocastock.CommandApi.Request.{RegisterVocabularyExpressionCommand}
use vocastock.CommandApi.Dispatch.{DispatchPort}
use vocastock.CommandApi.Store.{StoredIdempotencyRecord, StoreState, record_key, scoped_key}
use vocastock.CommandApi.Acceptance.Cases.{accept, accept_cases, accept_recorded}
use vocastock.CommandApi.Acceptance.Replay.{case-ok, case-recorded}

-- The command carries this key of this actor.
abbrev pub is_under : String → String → RegisterVocabularyExpressionCommand → Bool
is_under actor key command = command.actor.actor.as_str == actor && command.idempotency_key == key

abbrev pub is_fresh : Result AcceptedCommandResult CommandFailure → Bool
is_fresh (ok result) = not result.replayed_by_idempotency
is_fresh (err failure) = false

abbrev pub one_if : Bool → ℕ
one_if true = 1
one_if false = 0

module _ {D : Type 0} (port : DispatchPort D) (actor key : String) where
  -- How many of the commands carry the key and are accepted without being replays.
  unfoldable pub fresh_acceptances : List RegisterVocabularyExpressionCommand → StoreState → D → ℕ
  fresh_acceptances [] s d = 0
  fresh_acceptances (command ∷ commands) s d =
      let o = accept port command s d in
      one_if (is_under actor key command && is_fresh o.answer)
      + fresh_acceptances commands o.store o.dispatcher

  is_under-key :
      (command : RegisterVocabularyExpressionCommand)
      → is_under actor key command ≡ true
      → record_key command ≡ scoped_key actor key
  is_under-key command h =
      let a : command.actor.actor.as_str ≡ actor =
        ground (arith, eq_iff command.actor.actor.as_str actor) in
      let k : command.idempotency_key ≡ key = ground (arith, eq_iff command.idempotency_key key) in
      rw (a, k)

  stale :
      (command : RegisterVocabularyExpressionCommand) (s : StoreState) (d : D)
      (stored : StoredIdempotencyRecord)
      → lookup (scoped_key actor key) s.idempotency_records ≡ some stored
      → one_if (is_under actor key command && is_fresh (accept port command s d).answer) ≡ 0
  unfolding replay
  stale command s d stored h = elim (Bool-cases (is_under actor key command)) [
    | inr other ↦ rw other
    | inl under ↦
        let found : lookup (record_key command) s.idempotency_records ≡ some stored =
          rw (is_under-key command under) h in
        rw (accept_recorded port command s d stored found) (ground arith)
  ]

  none_later :
      (commands : List RegisterVocabularyExpressionCommand) (s : StoreState) (d : D)
      (stored : StoredIdempotencyRecord)
      → lookup (scoped_key actor key) s.idempotency_records ≡ some stored
      → fresh_acceptances commands s d ≡ 0
  unfolding fresh_acceptances
  none_later [] s d stored h = refl
  none_later (command ∷ commands) s d stored h =
      let o = accept port command s d in
      let kept =
        case-recorded port (scoped_key actor key) stored command s d o
          (accept_cases port command s d) h in
      omega
        (arith, stale command s d stored h, none_later commands o.store o.dispatcher stored kept)

  recorded_if_fresh :
      (command : RegisterVocabularyExpressionCommand) (s : StoreState) (d : D)
      → is_under actor key command ≡ true
      → (answer : Result AcceptedCommandResult CommandFailure)
      → (accept port command s d).answer ≡ answer
      → is_fresh answer ≡ true
      → (stored : StoredIdempotencyRecord) × (lookup
            (scoped_key actor key)
            (accept port command s d).store.idempotency_records
          ≡ some stored)
  recorded_if_fresh command s d under (ok result) e fresh =
      let (stored, found, _, _) =
        case-ok port command s d (accept port command s d) result (accept_cases port command s d)
          e in
      (stored, rw (is_under-key command under) at found)
  recorded_if_fresh command s d under (err failure) e fresh = absurd (cc)

  -- From any state and for any dispatcher, at most one command of a sequence is accepted under
  -- one key of one actor without being a replay.
  pub fresh_acceptances-le-one :
      (commands : List RegisterVocabularyExpressionCommand) (s : StoreState) (d : D)
      → fresh_acceptances commands s d ≤ 1
  unfolding fresh_acceptances
  fresh_acceptances-le-one [] s d = omega arith
  fresh_acceptances-le-one (command ∷ commands) s d =
      let o = accept port command s d in
      elim (Bool-cases (is_under actor key command && is_fresh o.answer)) [
        | inr other ↦
            rw other (omega (arith, fresh_acceptances-le-one commands o.store o.dispatcher))
        | inl fresh ↦
            let (stored, found) =
              recorded_if_fresh command s d (ground arith) o.answer refl (ground arith) in
            rw fresh (omega (arith, none_later commands o.store o.dispatcher stored found))
      ]

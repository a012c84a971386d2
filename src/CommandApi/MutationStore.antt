-- ===== src/CommandApi/MutationStore.antt =====
-- applications/backend/command-api/src/register_command_api/runtime/mutation_command_store.rs
-- The trait of the store, and the contract that its documentation gives.
use text.Mathlib.Text.{◌==◌}
use vocastock.Prelude.{String, ◌≡◌, Bool, ◌&&◌, Option, none, some, if◌then◌else◌}
use vocastock.CommandApi.MutationResponse.{CommandResponseEnvelope}

pub record MutationFingerprint : Type 0 where
  pub command_name : String
  pub payload_hash : String

-- The derived `==` of `MutationFingerprint`.
unfoldable pub same_fingerprint : MutationFingerprint → MutationFingerprint → Bool
same_fingerprint a b = a.command_name == b.command_name && a.payload_hash == b.payload_hash

pub data IdempotencyDecision : Type 0 where
  replay : CommandResponseEnvelope → IdempotencyDecision
  conflict fresh : IdempotencyDecision

-- The trait `MutationCommandStore`, for a store with state `S`.
pub record MutationCommandStore (S : Type 0) : Type 0 where
  pub idempotency_decision : String → String → MutationFingerprint → S → IdempotencyDecision
  pub commit_mutation : String → String → MutationFingerprint → CommandResponseEnvelope → S → S

pub record MutationRecord : Type 0 where
  pub fingerprint : MutationFingerprint
  pub envelope : CommandResponseEnvelope

-- What a record of the key, or its absence, decides.
unfoldable pub decide : Option MutationRecord → MutationFingerprint → IdempotencyDecision
decide none fingerprint = fresh
decide (some stored) fingerprint =
    if same_fingerprint stored.fingerprint fingerprint then replay stored.envelope else conflict

-- A store that decides from one record per actor and key. A commit can fail without a word: what is
-- said of it holds where it is written.
pub record KeepsRecords {S : Type 0} (store : MutationCommandStore S) : Type 1 where
  -- A commit of the record for the actor and the key is written in the state.
  pub is_written : String → String → MutationRecord → S → Type 0
  -- The actors and the keys that are told apart.
  pub is_name : String → Type 0
  -- What is replayed stands in the one record that decides for the actor and the key.
  pub replays :
      (actor key : String) (fingerprint : MutationFingerprint) (s : S)
      (envelope : CommandResponseEnvelope)
      → store.idempotency_decision actor key fingerprint s ≡ replay envelope
      → (asked : MutationFingerprint)
      → store.idempotency_decision actor key asked s
        ≡ decide (some (record { fingerprint = fingerprint; envelope = envelope })) asked
  pub commits :
      (actor key : String) (fingerprint : MutationFingerprint) (envelope : CommandResponseEnvelope)
      (s : S)
      → is_written actor key (record { fingerprint = fingerprint; envelope = envelope }) s
      → (b t : String) → is_name b
      → is_name t
      → (asked : MutationFingerprint)
      → store.idempotency_decision b t asked
          (store.commit_mutation actor key fingerprint envelope s)
        ≡ (if actor == b && key == t
            then decide (some (record { fingerprint = fingerprint; envelope = envelope })) asked
            else store.idempotency_decision b t asked s)

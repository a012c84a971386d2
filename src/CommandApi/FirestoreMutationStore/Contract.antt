-- ===== src/CommandApi/FirestoreMutationStore/Contract.antt =====
-- The store over Firestore keeps its records.
use text.Mathlib.Text.{◌==◌}
use vocastock.Prelude.{◌≡◌, String, ◌&&◌, Option, none, some, Bool-cases, inl, inr, eq_iff, arith}
use vocastock.Firestore.Document.{FirestoreSource}
use vocastock.CommandApi.MutationResponse.{CommandResponseEnvelope}
use vocastock.CommandApi.MutationStore.{
  MutationFingerprint, MutationRecord, same_fingerprint, replay, decide, KeepsRecords,
}
use vocastock.CommandApi.FirestoreServer.{Server, StoresDocuments, IsName}
use vocastock.CommandApi.FirestoreMutationStore.{
  MutationIdempotencyDocument, EnvelopeJson, decision_of, replay_or_conflict, fetch,
  idempotency_decision, firestore_mutation_store,
}
use vocastock.CommandApi.FirestoreMutationStore.Laws.{
  IsWritten, idempotency_decision-commit_mutation,
}

module _ (json : EnvelopeJson) where
  replayed :
      (o : Option CommandResponseEnvelope) (envelope : CommandResponseEnvelope)
      → replay_or_conflict o ≡ replay envelope
      → o ≡ some envelope
  replayed none envelope h = absurd (cc h)
  replayed (some other) envelope h = cc h

  decision_of-replay :
      (o : Option MutationIdempotencyDocument) (fingerprint asked : MutationFingerprint)
      (envelope : CommandResponseEnvelope)
      → decision_of json o fingerprint ≡ replay envelope
      → decision_of json o asked
        ≡ decide (some (record { fingerprint = fingerprint; envelope = envelope })) asked
  unfolding decide same_fingerprint
  decision_of-replay none fingerprint asked envelope h = absurd (cc h)
  decision_of-replay (some document) fingerprint asked envelope h =
      elim (Bool-cases (
        document.command_name == fingerprint.command_name
        && document.payload_hash == fingerprint.payload_hash)) [
          | inr e ↦ absurd (cc (rw e at h))
          | inl e ↦
              let read = replayed (json.read document.response_json) envelope (rw e at h) in
              let name : document.command_name ≡ fingerprint.command_name =
                ground (arith, e, eq_iff document.command_name fingerprint.command_name) in
              let hash : document.payload_hash ≡ fingerprint.payload_hash =
                ground (arith, e, eq_iff document.payload_hash fingerprint.payload_hash) in
              rw (name, hash, read)
        ]

-- The store keeps its records where the document of a commit is created and the envelope is read
-- from what was written of it; it tells actors and keys with a name apart.
pub firestore_mutation_store-KeepsRecords :
    {S B : Type 0} (server : Server S B) (json : EnvelopeJson) (source : FirestoreSource)
    → StoresDocuments server source
    → KeepsRecords (firestore_mutation_store server json source)
unfolding firestore_mutation_store idempotency_decision
firestore_mutation_store-KeepsRecords {B = B} server json source stores = record {
  is_written = λ actor key stored s.
      (reply : B) × (json.read (json.write stored.envelope) ≡ some stored.envelope)
      × IsWritten server json source stores actor key stored.fingerprint stored.envelope s reply;
  is_name = IsName;
  replays = λ actor key fingerprint s envelope h asked.
      decision_of-replay json (fetch server json source actor key s) fingerprint asked envelope h;
  commits = λ actor key fingerprint envelope s (reply, reads, written) b t is_name is_other asked.
      idempotency_decision-commit_mutation server json source stores actor key fingerprint envelope
        s reply reads written b t is_name is_other asked;
}

module _ {S B : Type 0} (server : Server S B) (json : EnvelopeJson) (source : FirestoreSource)
    (stores : StoresDocuments server source) where
  abbrev pub keeps : KeepsRecords (firestore_mutation_store server json source)
  keeps = firestore_mutation_store-KeepsRecords server json source stores

  pub is_name-IsName : (name : String) → IsName name → keeps.is_name name
  unfolding firestore_mutation_store-KeepsRecords
  is_name-IsName name h = h

  pub is_written-IsWritten :
      (actor key : String) (stored : MutationRecord) (s : S) (reply : B)
      → json.read (json.write stored.envelope) ≡ some stored.envelope
      → IsWritten server json source stores actor key stored.fingerprint stored.envelope s reply
      → keeps.is_written actor key stored s
  unfolding firestore_mutation_store-KeepsRecords
  is_written-IsWritten actor key stored s reply reads written = (reply, reads, written)

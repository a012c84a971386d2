-- ===== src/CommandApi/FirestoreMutationStore/Laws.antt =====
-- What the store decides behind a commit.
use text.Mathlib.Text.{◌==◌}
use vocastock.Prelude.{◌≡◌, refl, String, ◌&&◌, some, Bool-cases, inl, inr, if◌then◌else◌}
use vocastock.Json.{get_field, as_str, as_object}
use vocastock.Firestore.Value.{read_string_field}
use vocastock.Firestore.Document.{FirestoreSource}
use vocastock.CommandApi.MutationResponse.{CommandResponseEnvelope}
use vocastock.CommandApi.MutationStore.{MutationFingerprint, same_fingerprint, decide}
use vocastock.CommandApi.Store.Laws.{set_at}
use vocastock.CommandApi.FirestoreServer.Laws.{Respects, IsCreated, read-put}
use vocastock.CommandApi.FirestoreServer.{Server, StoresDocuments, IsName, IsCollection, ArePlain}
use vocastock.Text.Append.{lacks, lacks-Lacks}
use vocastock.CommandApi.FirestoreMutationStore.{
  MutationIdempotencyDocument, parse_mutation_fields, mutation_fields, EnvelopeJson, fetch,
  idempotency_decision, mutation_document, put_mutation, commit_mutation,
}

parse_mutation_fields-mutation_fields :
    (doc : MutationIdempotencyDocument) → parse_mutation_fields (mutation_fields doc) ≡ some doc
unfolding parse_mutation_fields mutation_fields read_string_field get_field as_str as_object
parse_mutation_fields-mutation_fields doc = refl

parse_mutation_fields-Respects : Respects parse_mutation_fields
unfolding parse_mutation_fields read_string_field
parse_mutation_fields-Respects got sent agree =
    rw (agree "commandName", agree "payloadHash", agree "responseJson")

mutation_fields-ArePlain : (doc : MutationIdempotencyDocument) → ArePlain (mutation_fields doc)
unfolding mutation_fields get_field
mutation_fields-ArePlain doc = (
  inl (doc.command_name, refl),
  refl,
  (inl (doc.payload_hash, refl), refl, (inl (doc.response_json, refl), refl, tt)),
)

plain-IsCollection : IsCollection "mutationIdempotency"
unfolding lacks
plain-IsCollection =
    (lacks-Lacks b'?' "mutationIdempotency" refl, lacks-Lacks b'/' "mutationIdempotency" refl)

module _ {S B : Type 0} (server : Server S B) (json : EnvelopeJson) (source : FirestoreSource)
    (stores : StoresDocuments server source) (actor key : String)
    (fingerprint : MutationFingerprint) (envelope : CommandResponseEnvelope) (s : S) where
  document : MutationIdempotencyDocument
  document = mutation_document json fingerprint envelope

  -- The document of the commit is created.
  abbrev pub IsWritten : B → Type 0
  IsWritten reply =
      IsCreated server source stores "mutationIdempotency" actor key
        (mutation_fields (mutation_document json fingerprint envelope)) s reply

  fetch-commit_mutation :
      (reply : B)
      → IsWritten reply
      → (b t : String) → IsName b
      → IsName t
      → fetch server json source b t
          (commit_mutation server json source actor key fingerprint envelope s)
        ≡ set_at actor key document (λ c u. fetch server json source c u s) b t
  unfolding fetch commit_mutation put_mutation document
  fetch-commit_mutation reply written b t is_name is_other =
      read-put server source stores "mutationIdempotency" actor key (mutation_fields document) s
        parse_mutation_fields document reply _ parse_mutation_fields-Respects
        (parse_mutation_fields-mutation_fields document) (mutation_fields-ArePlain document)
        plain-IsCollection written b t is_name is_other

  -- Behind a commit whose document is created in Firestore between states in which it can be
  -- reached, the key decides from the record of the commit, as the contract of the trait asks: the
  -- same fingerprint is answered by the envelope, and another one is in conflict; every other key of
  -- every actor decides as before. The actors and the keys are not empty and have no slash, and the
  -- envelope is read from what was written of it.
  pub idempotency_decision-commit_mutation :
      (reply : B)
      → json.read (json.write envelope) ≡ some envelope
      → IsWritten reply
      → (b t : String) → IsName b
      → IsName t
      → (asked : MutationFingerprint)
      → idempotency_decision server json source b t asked
          (commit_mutation server json source actor key fingerprint envelope s)
        ≡ (if actor == b && key == t
            then decide (some (record { fingerprint = fingerprint; envelope = envelope })) asked
            else idempotency_decision server json source b t asked s)
  unfolding idempotency_decision decide same_fingerprint document
  idempotency_decision-commit_mutation reply reads written b t is_name is_other asked =
      elim (Bool-cases (actor == b && key == t)) [
        | inl e ↦ rw (fetch-commit_mutation reply written b t is_name is_other, e, reads)
        | inr e ↦ rw (fetch-commit_mutation reply written b t is_name is_other, e)
      ]

-- ===== src/CommandApi/FirestoreTests.antt =====
-- Commits to the stores over Firestore, with the server in memory.
use vocastock.Prelude.{All, ◌≡◌, refl, String, true, false, none, some, List, [], ◌∷◌, arith}
use vocastock.TextMap.{lookup}
use vocastock.Text.{concat, is_empty, as_bytes, char_of_byte}
use vocastock.Text.Utf8.{utf8_char}
use vocastock.Percent.{percent_encode_path, percent_encode_bytes, is_unreserved, hex_upper}
use vocastock.Json.{Value}
use vocastock.Firestore.Document.{FirestoreSource, document_path}
use vocastock.Firestore.Document.Laws.{document_path_injective}
use vocastock.CommandApi.Contract.{explanation_state_queued, registered_state}
use vocastock.CommandApi.Response.{AcceptedCommandResult, accepted, accepted_result}
use vocastock.CommandApi.MutationResponse.{CommandResponseEnvelope, rejected, dispatch_failed}
use vocastock.CommandApi.Request.{RegisterVocabularyExpressionCommand}
use vocastock.CommandApi.Store.{StoredRegistration, plan_record, fingerprint_for, conflict}
use vocastock.CommandApi.StubVerifier.{sample_actor_context}
use vocastock.CommandApi.MutationStore.{MutationFingerprint, decide}
use vocastock.CommandApi.FirestoreServer.{create_path, document_of, StoresDocuments, post, IsName}
use vocastock.Text.Append.{lacks, lacks-Lacks}
use vocastock.CommandApi.FirestoreServer.Memory.{
  Documents, memory, Creates, memory-StoresDocuments, memory-is_reachable,
}
use vocastock.CommandApi.FirestoreMutationStore.{
  EnvelopeJson, idempotency_decision, commit_mutation, mutation_fields, mutation_document,
}
use vocastock.CommandApi.FirestoreMutationStore.Laws.{
  IsWritten, idempotency_decision-commit_mutation,
}
use vocastock.CommandApi.FirestoreCommandStore.{
  ResultJson, firestore_plan, firestore_commit, registration_fields, idempotency_fields,
  for_register,
}
use vocastock.CommandApi.FirestoreCommandStore.Laws.{AreCreated, firestore_plan-firestore_commit}

abbrev source : FirestoreSource
source = record { emulator_host = "127.0.0.1:18080"; project_id = "demo-vocastock" }

abbrev created_pair : String → String → String × String
created_pair collection identifier = (
  create_path "demo-vocastock" "actor:learner" collection identifier,
  document_path "demo-vocastock" "actor:learner" collection identifier,
)

abbrev known : List (String × String)
known =
    created_pair "mutationIdempotency" "k1"
    ∷ created_pair "registrations" "coffee"
    ∷ created_pair "commandIdempotency" "k1"
    ∷ []

plain-IsName : (name : String) → is_empty name ≡ false → lacks b'/' name ≡ true → IsName name
plain-IsName name h k = (h, lacks-Lacks b'/' name k)

learner-IsName : IsName "actor:learner"
unfolding lacks is_empty
learner-IsName = plain-IsName "actor:learner" refl refl

key-IsName : IsName "k1"
unfolding lacks is_empty
key-IsName = plain-IsName "k1" refl refl

coffee-IsName : IsName "coffee"
unfolding lacks is_empty
coffee-IsName = plain-IsName "coffee" refl refl

tea-IsName : IsName "tea"
unfolding lacks is_empty
tea-IsName = plain-IsName "tea" refl refl

creates : All (Creates known source) known
creates = (
  (("mutationIdempotency", "actor:learner", "k1", ground arith, refl, refl)),
  (
    (("registrations", "actor:learner", "coffee", ground arith, refl, refl)),
    ((("commandIdempotency", "actor:learner", "k1", ground arith, refl, refl)), tt),
  ),
)

abbrev stores : StoresDocuments (memory known) source
stores = memory-StoresDocuments known source creates

reachable : (s : Documents) → stores.is_reachable s
reachable s = memory-is_reachable known source creates s

abbrev buy : MutationFingerprint
buy = record { command_name = "requestPurchase"; payload_hash = "free" }

abbrev answer : CommandResponseEnvelope
answer = rejected dispatch_failed (record { key = "k"; text = "t" })

abbrev answer_json : EnvelopeJson
answer_json = record { write = λ envelope. "answer"; read = λ text. some answer }

answer-IsWritten :
    IsWritten
      (memory known)
      answer_json
      source
      stores
      "actor:learner"
      "k1"
      buy
      answer
      []
      (document_of (mutation_fields (mutation_document answer_json buy answer)))
unfolding post memory lookup create_path concat percent_encode_path percent_encode_bytes as_bytes
    utf8_char is_unreserved char_of_byte hex_upper
answer-IsWritten = (refl, learner-IsName, key-IsName, reachable _, reachable _)

idempotency_decision-commit_mutation_example :
    idempotency_decision
      (memory known)
      answer_json
      source
      "actor:learner"
      "k1"
      buy
      (commit_mutation (memory known) answer_json source "actor:learner" "k1" buy answer [])
    ≡ decide (some (record { fingerprint = buy; envelope = answer })) buy
idempotency_decision-commit_mutation_example =
    idempotency_decision-commit_mutation (memory known) answer_json source stores "actor:learner"
      "k1" buy answer [] (document_of (mutation_fields (mutation_document answer_json buy answer)))
      refl answer-IsWritten "actor:learner" "k1" learner-IsName key-IsName buy

abbrev coffee : RegisterVocabularyExpressionCommand
coffee = record {
  actor = sample_actor_context "actor:learner";
  idempotency_key = "k1";
  normalized_text = "coffee";
  start_explanation = true;
}

abbrev registration : StoredRegistration
registration = record {
  vocabulary_expression = "vocabulary:coffee";
  registration_state = registered_state;
  explanation_state = explanation_state_queued;
}

abbrev result : AcceptedCommandResult
result = accepted_result accepted (record {
  target = record { vocabulary_expression = "vocabulary:coffee" };
  state = record { registration = registered_state; explanation = explanation_state_queued };
  status_handle = "status:actor:learner:vocabulary:coffee";
  message = "registration accepted and queued for explanation dispatch";
  replayed_by_idempotency = false;
  duplicate_reuse = none;
})

abbrev result_json : ResultJson
result_json = record { write = λ r. "result"; read = λ text. some result }

abbrev coffee_document : Value
coffee_document = document_of (registration_fields registration)

abbrev key_document : Value
key_document = document_of (idempotency_fields (for_register result_json "coffee" true result))

coffee-AreCreated :
    AreCreated
      (memory known)
      result_json
      source
      stores
      coffee
      registration
      result
      []
      coffee_document
      key_document
unfolding post memory lookup create_path concat percent_encode_path percent_encode_bytes as_bytes
    utf8_char is_unreserved char_of_byte hex_upper sample_actor_context
coffee-AreCreated = (
  (refl, learner-IsName, coffee-IsName, reachable _, reachable _),
  (refl, learner-IsName, key-IsName, reachable _, reachable _),
)

abbrev tea : RegisterVocabularyExpressionCommand
tea = record coffee { normalized_text = "tea" }

-- The key of `coffee` is taken for another text.
firestore_plan-firestore_commit_example :
    firestore_plan
      (memory known)
      result_json
      source
      tea
      (firestore_commit (memory known) result_json source coffee registration result [])
    ≡ plan_record tea
        (some (record { fingerprint = fingerprint_for coffee; result = result }))
        conflict
unfolding sample_actor_context
firestore_plan-firestore_commit_example =
    firestore_plan-firestore_commit (memory known) result_json source stores coffee registration
      result [] coffee_document key_document refl coffee-AreCreated tea
      (learner-IsName, key-IsName, tea-IsName)

document_path_injective_example :
    ◌≡◌ {A = String} "actor:a/b" "actor:a/b" × (◌≡◌ {A = String} "k 1" "k 1")
document_path_injective_example =
    document_path_injective "demo-vocastock" "mutationIdempotency" "actor:a/b" "actor:a/b" "k 1"
      "k 1" refl

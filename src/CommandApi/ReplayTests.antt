-- ===== src/CommandApi/ReplayTests.antt =====
-- Mutation commands over the store in Firestore, with the server in memory, and the theorems on their
-- repetition at this run.
use vocastock.Prelude.{
  ◌≡◌, ◌≢◌, refl, sym, ap, ◌∙◌, String, true, false, some, List, [], ◌∷◌, All, arith, eq_iff,
}
use text.Mathlib.Text.{◌==◌}
use vocastock.TextMap.{lookup}
use vocastock.Text.{concat, contains, is_empty, as_bytes, char_of_byte}
use vocastock.Text.Append.{lacks, lacks-Lacks}
use vocastock.Text.Utf8.{utf8_char}
use vocastock.Percent.{percent_encode_path, percent_encode_bytes, is_unreserved, hex_upper}
use vocastock.Json.{Value}
use vocastock.Firestore.Document.{FirestoreSource, document_path, fetch_value}
use vocastock.Auth.{VerifiedActorContext}
use vocastock.CommandApi.StubVerifier.{sample_actor_context}
use vocastock.CommandApi.Dispatch.{
  DispatchPort, DispatchRequest, dispatch_request, with_kind, with_plan_code, in_memory_dispatch,
  in_memory_dispatch_port,
}
use vocastock.CommandApi.MutationRequest.{plan_as_str, free, pro_monthly}
use vocastock.CommandApi.MutationResponse.{CommandResponseEnvelope, accepted_envelope}
use vocastock.CommandApi.MutationStore.{
  MutationFingerprint, MutationCommandStore, KeepsRecords, decide,
}
use vocastock.CommandApi.MutationCommand.{
  MutationCommand, of_purchase, of_explanation, fingerprint_for, success_envelope,
}
use vocastock.CommandApi.MutationAcceptance.{
  MutationOutcome, accept_mutation_command, act, finish, conflict_envelope,
}
use vocastock.CommandApi.MutationAcceptance.Replay.{
  accept, run, record_of, Writes, WritesAll, decide-fresh, accept-accepted, accept_mutation_again,
  accept_mutation_other,
}
use vocastock.CommandApi.FirestoreServer.{create_path, document_of, StoresDocuments, post, IsName}
use vocastock.CommandApi.FirestoreServer.Memory.{
  Documents, memory, Creates, memory-StoresDocuments, memory-is_reachable,
}
use vocastock.CommandApi.FirestoreMutationStore.{
  EnvelopeJson, firestore_mutation_store, idempotency_decision, fetch, mutation_fields,
  mutation_document,
}
use vocastock.CommandApi.FirestoreMutationStore.Contract.{
  keeps, is_name-IsName, is_written-IsWritten,
}
use vocastock.CommandApi.FirestoreMutationStore.Laws.{IsWritten}

abbrev source : FirestoreSource
source = record { emulator_host = "127.0.0.1:18080"; project_id = "demo-vocastock" }

abbrev created_pair : String → String × String
created_pair identifier = (
  create_path "demo-vocastock" "actor:learner" "mutationIdempotency" identifier,
  document_path "demo-vocastock" "actor:learner" "mutationIdempotency" identifier,
)

abbrev known : List (String × String)
known = created_pair "k1" ∷ created_pair "k2" ∷ []

creates : All (Creates known source) known
creates = (
  (("mutationIdempotency", "actor:learner", "k1", ground arith, refl, refl)),
  ((("mutationIdempotency", "actor:learner", "k2", ground arith, refl, refl)), tt),
)

abbrev stores : StoresDocuments (memory known) source
stores = memory-StoresDocuments known source creates

reachable : (s : Documents) → stores.is_reachable s
reachable s = memory-is_reachable known source creates s

plain-IsName : (name : String) → is_empty name ≡ false → lacks b'/' name ≡ true → IsName name
plain-IsName name h k = (h, lacks-Lacks b'/' name k)

learner-IsName : IsName "actor:learner"
unfolding lacks is_empty
learner-IsName = plain-IsName "actor:learner" refl refl

k1-IsName : IsName "k1"
unfolding lacks is_empty
k1-IsName = plain-IsName "k1" refl refl

k2-IsName : IsName "k2"
unfolding lacks is_empty
k2-IsName = plain-IsName "k2" refl refl

abbrev learner : VerifiedActorContext
learner = sample_actor_context "actor:learner"

abbrev buy_free : MutationCommand
buy_free = of_purchase (record { actor = learner; idempotency_key = "k1"; plan_code = free })

abbrev buy_pro : MutationCommand
buy_pro = of_purchase (record { actor = learner; idempotency_key = "k1"; plan_code = pro_monthly })

abbrev explain : MutationCommand
explain = of_explanation (record {
  actor = learner;
  idempotency_key = "k2";
  vocabulary_expression = "vocabulary:coffee";
})

-- An envelope is written as the key of its message, and read for the two commands.
abbrev read_envelope : String → CommandResponseEnvelope
read_envelope text = elim (text == (success_envelope buy_free).message.key) [
  | true ↦ success_envelope buy_free
  | false ↦ success_envelope explain
]

abbrev json : EnvelopeJson
json = record { write = λ envelope. envelope.message.key; read = λ text. some (read_envelope text) }

abbrev store : MutationCommandStore Documents
store = firestore_mutation_store (memory known) json source

abbrev kept : KeepsRecords store
kept = keeps (memory known) json source stores

abbrev port : DispatchPort (List DispatchRequest)
port = in_memory_dispatch_port

-- The document of a command.
abbrev document : MutationCommand → Value
document command =
    document_of (
      mutation_fields (mutation_document json (fingerprint_for command) (success_envelope command)))

buy_free_reads :
    json.read (json.write (success_envelope buy_free)) ≡ some (success_envelope buy_free)
unfolding success_envelope accepted_envelope of_purchase
buy_free_reads = refl

explain_reads : json.read (json.write (success_envelope explain)) ≡ some (success_envelope explain)
unfolding success_envelope accepted_envelope of_purchase of_explanation
explain_reads = refl

buy_free-IsWritten :
    IsWritten
      (memory known)
      json
      source
      stores
      "actor:learner"
      "k1"
      (fingerprint_for buy_free)
      (success_envelope buy_free)
      []
      (document buy_free)
unfolding post memory lookup create_path concat percent_encode_path percent_encode_bytes as_bytes
    utf8_char is_unreserved char_of_byte hex_upper
buy_free-IsWritten = (refl, learner-IsName, k1-IsName, reachable _, reachable _)

-- The document of `explain` is created in every state.
explain-IsWritten :
    (s : Documents)
    → IsWritten
        (memory known)
        json
        source
        stores
        "actor:learner"
        "k2"
        (fingerprint_for explain)
        (success_envelope explain)
        s
        (document explain)
unfolding post memory lookup create_path concat percent_encode_path percent_encode_bytes as_bytes
    utf8_char is_unreserved char_of_byte hex_upper
explain-IsWritten s = (refl, learner-IsName, k2-IsName, reachable _, reachable _)

buy_free_accepted : (accept store kept port buy_free [] []).answer.accepted ≡ true
unfolding accept_mutation_command act decide lookup finish in_memory_dispatch of_purchase contains
    success_envelope accepted_envelope sample_actor_context with_plan_code with_kind
    dispatch_request firestore_mutation_store idempotency_decision fetch fetch_value memory
buy_free_accepted = refl

buy_free_named : kept.is_name buy_free.actor_reference × kept.is_name buy_free.idempotency_key
unfolding of_purchase sample_actor_context
buy_free_named = (
  is_name-IsName (memory known) json source stores "actor:learner" learner-IsName,
  is_name-IsName (memory known) json source stores "k1" k1-IsName,
)

buy_free-Writes : Writes store kept port buy_free [] []
unfolding of_purchase sample_actor_context
buy_free-Writes new done =
    is_written-IsWritten (memory known) json source stores "actor:learner" "k1"
      (record_of store kept port buy_free) [] (document buy_free) buy_free_reads buy_free-IsWritten

explain-Writes : (s : Documents) (d : List DispatchRequest) → Writes store kept port explain s d
unfolding of_explanation sample_actor_context
explain-Writes s d new done =
    is_written-IsWritten (memory known) json source stores "actor:learner" "k2"
      (record_of store kept port explain) s (document explain) explain_reads (explain-IsWritten s)

abbrev bought : MutationOutcome Documents (List DispatchRequest)
bought = accept store kept port buy_free [] []

-- The key of `buy_pro` is taken.
buy_pro-Writes : Writes store kept port buy_pro bought.store bought.dispatcher
unfolding of_purchase sample_actor_context
buy_pro-Writes new done = absurd (
    decide-fresh _ (fingerprint_for buy_pro) (
      sym (
        accept-accepted store kept port buy_free [] [] buy_free_named.0 buy_free_named.1
          buy_free-Writes buy_free_accepted (fingerprint_for buy_pro))
      ∙ new))

again-WritesAll : WritesAll store kept port (buy_free ∷ buy_pro ∷ explain ∷ []) [] []
unfolding WritesAll
again-WritesAll = (buy_free-Writes, (buy_pro-Writes, (explain-Writes _ _, tt)))

other-WritesAll : WritesAll store kept port (buy_free ∷ explain ∷ []) [] []
unfolding WritesAll
other-WritesAll = (buy_free-Writes, (explain-Writes _ _, tt))

buy_pro_differs : fingerprint_for buy_pro ≢ fingerprint_for buy_free
unfolding fingerprint_for of_purchase concat plan_as_str
buy_pro_differs e = cc ((eq_iff _ _).1 (ap (λ (p : MutationFingerprint). p.payload_hash) e))

accept_mutation_again_example :
    let (s, d) = run store kept port (buy_free ∷ buy_pro ∷ explain ∷ []) [] [] in
    accept store kept port buy_free s d
    ≡ record { answer = (accept store kept port buy_free [] []).answer; store = s; dispatcher = d }
accept_mutation_again_example =
    accept_mutation_again store kept port buy_free (buy_pro ∷ explain ∷ []) [] [] buy_free_named.0
      buy_free_named.1 again-WritesAll buy_free_accepted

accept_mutation_other_example :
    let (s, d) = run store kept port (buy_free ∷ explain ∷ []) [] [] in
    accept store kept port buy_pro s d
    ≡ record { answer = conflict_envelope; store = s; dispatcher = d }
unfolding of_purchase
accept_mutation_other_example =
    accept_mutation_other store kept port buy_free buy_pro (explain ∷ []) [] [] buy_free_named.0
      buy_free_named.1 other-WritesAll buy_free_accepted refl refl buy_pro_differs

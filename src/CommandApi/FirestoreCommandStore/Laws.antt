-- ===== src/CommandApi/FirestoreCommandStore/Laws.antt =====
-- What the store over Firestore plans behind a commit.
use text.Mathlib.Text.{◌==◌}
use text.Mathlib.TextLemmas.{append_cancel_left}
use vocastock.Prelude.{
  ◌≡◌, ◌≢◌, refl, sym, ap, ◌∙◌, String, Bool, true, false, ◌&&◌, Option, some, Bool-cases, inl, inr,
  eq_iff, arith, if◌then◌else◌,
}
use vocastock.Text.{concat}
use vocastock.Json.{Fields, get_field, as_str, as_bool, as_object, ◌>>=◌}
use vocastock.Firestore.Value.{read_string_field}
use vocastock.Firestore.Document.{FirestoreSource}
use vocastock.CommandApi.Response.{AcceptedCommandResult}
use vocastock.CommandApi.Request.{RegisterVocabularyExpressionCommand}
use vocastock.CommandApi.Store.{
  StoredRegistration, replay_existing, conflict, same_fingerprint, fingerprint_for, plan_record,
}
use vocastock.CommandApi.Store.Laws.{set_at}
use vocastock.CommandApi.FirestoreServer.Laws.{
  Respects, IsCreated, read-put, fields_at-put_elsewhere,
}
use vocastock.CommandApi.FirestoreServer.{Server, StoresDocuments, IsName, IsCollection, ArePlain}
use vocastock.Text.Append.{lacks, lacks-Lacks}
use vocastock.CommandApi.FirestoreCommandStore.{
  IdempotencyDocument, ResultJson, bool_text, register_fingerprint_hash, for_register,
  matches_fingerprint, parse_registration_fields, read_bool_field, parse_idempotency_fields,
  registration_fields, idempotency_fields, replay_or_conflict, plan_fetched, fetch_registration,
  fetch_idempotency, put_registration, put_idempotency, firestore_plan, firestore_commit,
}

parse_registration_fields-registration_fields :
    (r : StoredRegistration) → parse_registration_fields (registration_fields r) ≡ some r
unfolding parse_registration_fields registration_fields read_string_field get_field as_str as_object
parse_registration_fields-registration_fields r = refl

parse_idempotency_fields-idempotency_fields :
    (doc : IdempotencyDocument) → parse_idempotency_fields (idempotency_fields doc) ≡ some doc
unfolding parse_idempotency_fields idempotency_fields read_string_field read_bool_field get_field
    as_str as_bool as_object
parse_idempotency_fields-idempotency_fields doc = refl

hash_injective :
    (flag : Bool) (s t : String)
    → register_fingerprint_hash s flag ≡ register_fingerprint_hash t flag
    → s ≡ t
unfolding register_fingerprint_hash concat
hash_injective flag s t e = append_cancel_left "|" _ _ (append_cancel_left (bool_text flag) _ _ e)

hash_same :
    (flag : Bool) (s t : String)
    → (register_fingerprint_hash s flag == register_fingerprint_hash t flag) ≡ (s == t)
hash_same flag s t = ground (
  arith,
  hash_injective flag s t,
  eq_iff s t,
  eq_iff (register_fingerprint_hash s flag) (register_fingerprint_hash t flag),
)

-- The fingerprint of a document is that of the in-memory store.
matches_fingerprint-for_register :
    (json : ResultJson) (s t : String) (f g : Bool) (result : AcceptedCommandResult)
    → matches_fingerprint (for_register json s f result) t g
      ≡ same_fingerprint
          (record { normalized_text = s; start_explanation = f })
          (record { normalized_text = t; start_explanation = g })
unfolding matches_fingerprint for_register same_fingerprint
matches_fingerprint-for_register json s t true true result = rw (hash_same true s t) (ground arith)
matches_fingerprint-for_register json s t false false result =
    rw (hash_same false s t) (ground arith)
matches_fingerprint-for_register json s t true false result = ground arith
matches_fingerprint-for_register json s t false true result = ground arith

names_differ : ◌≢◌ {A = String} "commandIdempotency" "registrations"
names_differ e = absurd (cc ((eq_iff _ _).1 e))

parse_registration_fields-Respects : Respects parse_registration_fields
unfolding parse_registration_fields read_string_field
parse_registration_fields-Respects got sent agree =
    rw (agree "vocabularyExpression", agree "registrationState", agree "explanationState")

parse_idempotency_fields-Respects : Respects parse_idempotency_fields
unfolding parse_idempotency_fields read_string_field read_bool_field
parse_idempotency_fields-Respects got sent agree =
    rw
      (agree "commandName", agree "fingerprintHash", agree "responseJson", agree "startExplanation")

registration_fields-ArePlain : (r : StoredRegistration) → ArePlain (registration_fields r)
unfolding registration_fields get_field
registration_fields-ArePlain r = (
  inl (r.vocabulary_expression, refl),
  refl,
  (inl (r.registration_state, refl), refl, (inl (r.explanation_state, refl), refl, tt)),
)

idempotency_fields-ArePlain : (doc : IdempotencyDocument) → ArePlain (idempotency_fields doc)
unfolding idempotency_fields get_field
idempotency_fields-ArePlain doc = (
  inl (doc.command_name, refl),
  refl,
  (
    inl (doc.fingerprint_hash, refl),
    refl,
    (inr (doc.start_explanation, refl), refl, (inl (doc.response_json, refl), refl, tt)),
  ),
)

registrations-IsCollection : IsCollection "registrations"
unfolding lacks
registrations-IsCollection =
    (lacks-Lacks b'?' "registrations" refl, lacks-Lacks b'/' "registrations" refl)

idempotency-IsCollection : IsCollection "commandIdempotency"
unfolding lacks
idempotency-IsCollection =
    (lacks-Lacks b'?' "commandIdempotency" refl, lacks-Lacks b'/' "commandIdempotency" refl)

-- What the paths of a command are made of.
abbrev pub HasNames : RegisterVocabularyExpressionCommand → Type 0
HasNames command =
    IsName command.actor.actor.as_str
    × IsName command.idempotency_key
    × IsName command.normalized_text

module _ {S B : Type 0} (server : Server S B) (json : ResultJson) (source : FirestoreSource)
    (stores : StoresDocuments server source) (command : RegisterVocabularyExpressionCommand)
    (registration : StoredRegistration) (result : AcceptedCommandResult) (s : S) where
  abbrev actor : String
  actor = command.actor.actor.as_str

  document : IdempotencyDocument
  document = for_register json command.normalized_text command.start_explanation result

  replayed :
      json.read (json.write result) ≡ some result
      → replay_or_conflict (json.read document.response_json) ≡ replay_existing result
  unfolding document for_register
  replayed reads = rw reads

  -- The state behind the first write.
  abbrev pub registered : S
  registered = (put_registration server json source actor command.normalized_text registration s).1

  -- Both documents of the commit are created.
  abbrev pub AreCreated : B → B → Type 0
  AreCreated reply answer =
      IsCreated server source stores "registrations" actor command.normalized_text
        (registration_fields registration) s reply
      × IsCreated server source stores "commandIdempotency" actor command.idempotency_key
          (idempotency_fields
            (for_register json command.normalized_text command.start_explanation result))
          registered answer

  abbrev committed : S
  committed = firestore_commit server json source command registration result s

  fetch_idempotency-commit :
      (reply answer : B)
      → AreCreated reply answer
      → (b t : String) → IsName b
      → IsName t
      → fetch_idempotency server json source b t committed
        ≡ set_at actor command.idempotency_key document
            (λ c u. fetch_idempotency server json source c u s)
            b
            t
  unfolding fetch_idempotency firestore_commit put_idempotency put_registration document
  fetch_idempotency-commit reply answer (first, last) b t is_name is_other =
      let read = λ (fields : Fields). parse_idempotency_fields fields in
      read-put server source stores "commandIdempotency" actor command.idempotency_key
        (idempotency_fields document) registered parse_idempotency_fields document answer _
        parse_idempotency_fields-Respects (parse_idempotency_fields-idempotency_fields document)
        (idempotency_fields-ArePlain document) idempotency-IsCollection last b t is_name is_other
      ∙ ap
          (λ (o : Option Fields).
            if actor == b && command.idempotency_key == t then some document else (o >>= read))
          (fields_at-put_elsewhere server source stores "registrations" actor
            command.normalized_text (registration_fields registration) s reply _
            "commandIdempotency" b t registrations-IsCollection idempotency-IsCollection first
            is_name is_other names_differ)

  fetch_registration-commit :
      (reply answer : B)
      → AreCreated reply answer
      → (b t : String) → IsName b
      → IsName t
      → fetch_registration server json source b t committed
        ≡ set_at actor command.normalized_text registration
            (λ c u. fetch_registration server json source c u s)
            b
            t
  unfolding fetch_registration firestore_commit put_idempotency put_registration document
  fetch_registration-commit reply answer (first, last) b t is_name is_other =
      let read = λ (fields : Fields). parse_registration_fields fields in
      ap (λ (o : Option Fields). o >>= read)
        (fields_at-put_elsewhere server source stores "commandIdempotency" actor
          command.idempotency_key (idempotency_fields document) registered answer _ "registrations"
          b t idempotency-IsCollection registrations-IsCollection last is_name is_other
          (λ e. names_differ (sym e)))
      ∙ read-put server source stores "registrations" actor command.normalized_text
          (registration_fields registration) s parse_registration_fields registration reply _
          parse_registration_fields-Respects
          (parse_registration_fields-registration_fields registration)
          (registration_fields-ArePlain registration) registrations-IsCollection first b t is_name
          is_other

  -- Behind a commit whose two documents are created in Firestore between states in which it can be
  -- reached, a command of the same actor under the same key is planned as the in-memory store plans
  -- it at the record of the commit: the same text and flag are answered by the result, and others are
  -- in conflict. Any other command is planned as before, but that the registration of the actor and
  -- the text is the one of the commit. The actors, the keys and the texts of the commands are not
  -- empty and have no slash, and the result is read from what was written of it.
  pub firestore_plan-firestore_commit :
      (reply answer : B)
      → json.read (json.write result) ≡ some result
      → AreCreated reply answer
      → (later : RegisterVocabularyExpressionCommand) → HasNames later
      → firestore_plan server json source later
          (firestore_commit server json source command registration result s)
        ≡ (if command.actor.actor.as_str == later.actor.actor.as_str
              && command.idempotency_key == later.idempotency_key
            then plan_record later
                (some (record { fingerprint = fingerprint_for command; result = result }))
                conflict
            else plan_fetched json later
                (fetch_idempotency server json source later.actor.actor.as_str later.idempotency_key
                  s)
                (set_at command.actor.actor.as_str command.normalized_text registration
                  (λ c u. fetch_registration server json source c u s)
                  later.actor.actor.as_str
                  later.normalized_text))
  unfolding firestore_plan plan_fetched plan_record document fingerprint_for
  firestore_plan-firestore_commit reply answer reads created later (is_actor, is_key, is_text) =
      let b = later.actor.actor.as_str in
      let k = later.idempotency_key in
      let same =
        matches_fingerprint-for_register json command.normalized_text later.normalized_text
          command.start_explanation later.start_explanation result in
      elim (Bool-cases (actor == b && command.idempotency_key == k)) [
        | inl e ↦
            rw (fetch_idempotency-commit reply answer created b k is_actor is_key, e)
              (rw (same, replayed reads))
        | inr e ↦ rw (
          fetch_idempotency-commit reply answer created b k is_actor is_key,
          fetch_registration-commit reply answer created b later.normalized_text is_actor is_text,
          e,
        )
      ]

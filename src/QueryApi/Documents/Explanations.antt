-- ===== src/QueryApi/Documents/Explanations.antt =====
-- applications/backend/query-api/src/query_catalog_read/explanation_detail/firestore_source.rs
use vocastock.Prelude.{String, pos, Option, none, some, List, []}
use vocastock.Auth.{VerifiedActorContext}
use vocastock.Json.{Value, Fields, ◌>>=◌, unwrap_or, filter_map}
use vocastock.Firestore.Value.{
  read_string_field, read_nullable_string_field, read_integer_field, read_map_field,
  read_array_field, value_as_map,
}
use vocastock.Firestore.Document.{FirestoreSource, Reader, document_path, fetch_value, fields_of}
use vocastock.QueryApi.Explanation.{
  PronunciationRecord, SimilarityRecord, SenseExampleRecord, CollocationRecord, SenseRecord,
  ExplanationDetailRecord,
}

-- A text field, empty where it is missing.
abbrev pub text_field : Fields → String → String
text_field fields key = unwrap_or (read_string_field fields key) ""

unfoldable pub parse_pronunciation : Fields → Option PronunciationRecord
parse_pronunciation fields = do
  pronunciation ← read_map_field fields "pronunciation"
  some (record {
    weak = text_field pronunciation "weak";
    strong = text_field pronunciation "strong";
  })

-- The entries of an array that are maps, each read by `read`.
abbrev pub entries_of : {A : Type 0} → (Fields → A) → Option (List Value) → List A
entries_of read none = []
entries_of read (some values) =
    filter_map (λ (value : Value). value_as_map value >>= (λ entry. some (read entry))) values

unfoldable pub parse_similarities : Fields → List SimilarityRecord
parse_similarities fields =
    entries_of
      (λ entry. record {
        value = text_field entry "value";
        meaning = text_field entry "meaning";
        comparison = text_field entry "comparison";
      })
      (read_array_field fields "similarities")

unfoldable pub parse_examples : Fields → List SenseExampleRecord
parse_examples fields =
    entries_of
      (λ entry. record {
        value = text_field entry "value";
        meaning = text_field entry "meaning";
        pronunciation = unwrap_or (read_nullable_string_field entry "pronunciation") none;
      })
      (read_array_field fields "examples")

unfoldable pub parse_collocations : Fields → List CollocationRecord
parse_collocations fields =
    entries_of
      (λ entry. record { value = text_field entry "value"; meaning = text_field entry "meaning" })
      (read_array_field fields "collocations")

unfoldable pub parse_senses : Fields → List SenseRecord
parse_senses fields =
    entries_of
      (λ entry. record {
        identifier = text_field entry "identifier";
        order = unwrap_or (read_integer_field entry "order") (pos 0);
        label = text_field entry "label";
        situation = text_field entry "situation";
        nuance = text_field entry "nuance";
        examples = parse_examples entry;
        collocations = parse_collocations entry;
      })
      (read_array_field fields "senses")

abbrev pub no_pronunciation : PronunciationRecord
no_pronunciation = record { weak = ""; strong = "" }

unfoldable pub parse_explanation_document : Value → Option ExplanationDetailRecord
parse_explanation_document payload = do
  fields ← fields_of payload
  identifier ← read_string_field fields "id"
  vocabulary_expression ← read_string_field fields "vocabularyExpression"
  text ← read_string_field fields "text"
  some (record {
    identifier = identifier;
    vocabulary_expression = vocabulary_expression;
    text = text;
    pronunciation = unwrap_or (parse_pronunciation fields) no_pronunciation;
    frequency = unwrap_or (read_string_field fields "frequency") "sometimes";
    sophistication = unwrap_or (read_string_field fields "sophistication") "basic";
    etymology = unwrap_or (read_string_field fields "etymology") "";
    similarities = parse_similarities fields;
    senses = parse_senses fields;
  })

unfoldable pub explanation_record_for :
    {B : Type 0}
    → Reader B
    → FirestoreSource
    → VerifiedActorContext
    → String
    → Option ExplanationDetailRecord
explanation_record_for reader source actor_context identifier =
    fetch_value reader source
      (document_path source.project_id actor_context.actor.as_str "explanations" identifier)
    >>= (λ payload. parse_explanation_document payload)

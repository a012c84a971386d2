-- ===== src/QueryApi/Documents/Laws.antt =====
-- What the catalog over Firestore shows as completed.
use vocastock.Prelude.{
  ◌≡◌, refl, sym, inl, inr, String, Option, none, some, Option-cases, List, [], ◌∷◌, All,
}
use vocastock.Auth.{VerifiedActorContext}
use vocastock.Json.{Value, is_given, filter_map, some-of_bind, ◌>>=◌, get, as_array}
use vocastock.Firestore.Value.{read_string_field}
use vocastock.Firestore.Document.{FirestoreSource, Reader, collection_path, fetch_value, fields_of}
use vocastock.QueryApi.Catalog.{ProjectionSourceRecord, is_some}
use vocastock.QueryApi.Documents.{
  text_if, parse_vocabulary_document, documents_of, listing_of, catalog_records_for_actor,
}

-- The record has a summary just where its explanation is available.
abbrev pub IsComplete : ProjectionSourceRecord → Type 0
IsComplete r = is_some r.summary ≡ r.current_explanation_available

text_if-given :
    (explanation : Option String) (text : String)
    → is_some (text_if explanation text) ≡ is_given explanation
text_if-given none text = refl
text_if-given (some e) text = refl

parse_vocabulary_document-IsComplete :
    (doc : Value) (r : ProjectionSourceRecord)
    → parse_vocabulary_document doc ≡ some r
    → IsComplete r
unfolding parse_vocabulary_document
parse_vocabulary_document-IsComplete doc r h =
    let (fields, _, h1) = some-of_bind (fields_of doc) _ r h in
    let (id, _, h2) = some-of_bind (read_string_field fields "id") _ r h1 in
    let (text, _, h3) = some-of_bind (read_string_field fields "text") _ r h2 in
    let explanation = read_string_field fields "currentExplanation" in
    some-path r _ (sym h3) (text_if-given explanation text)
  where
    some-path : (r q : ProjectionSourceRecord) → some r ≡ some q → IsComplete q → IsComplete r
    some-path r q e c = let same : r ≡ q = cc e in rw same c

parsed-AreComplete :
    (docs : List Value) → All IsComplete (filter_map parse_vocabulary_document docs)
parsed-AreComplete [] = tt
parsed-AreComplete (doc ∷ docs) = elim (Option-cases (parse_vocabulary_document doc)) [
  | inl e ↦ rw e (parsed-AreComplete docs)
  | inr (r, e) ↦ rw e (parse_vocabulary_document-IsComplete doc r e, parsed-AreComplete docs)
]

-- Whatever Firestore answers, a record of the catalog that is read from it has a summary just where
-- its explanation is available.
pub catalog_records_for_actor-AreComplete :
    {B : Type 0} (reader : Reader B) (source : FirestoreSource) (context : VerifiedActorContext)
    → All IsComplete (catalog_records_for_actor reader source context)
unfolding catalog_records_for_actor
catalog_records_for_actor-AreComplete reader source context = listing (
    fetch_value reader source
      (collection_path source.project_id context.actor.as_str "vocabularyExpressions"))
  where
    documents : (o : Option (List Value)) → All IsComplete (documents_of o)
    documents none = tt
    documents (some docs) = parsed-AreComplete docs

    listing : (o : Option Value) → All IsComplete (listing_of o)
    listing none = tt
    listing (some payload) = documents (get "documents" payload >>= (λ values. as_array values))

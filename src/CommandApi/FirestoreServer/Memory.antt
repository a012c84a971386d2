-- ===== src/CommandApi/FirestoreServer/Memory.antt =====
-- A server in memory, which creates the documents of a list of known paths. It shows that what is
-- asked of Firestore can hold.
use Prim.Native.String.{◌++◌, ◌∷◌}
use mathlib.Core.List.{[], ◌∷◌}
use text.Mathlib.Text.{◌==◌}
use text.Mathlib.TextLemmas.{cons-append, append_cancel_left}
use vocastock.Prelude.{
  ◌≡◌, ◌≢◌, refl, sym, ◌∙◌, String, true, Option, none, some, Option-cases, List, All, Result, ok,
  err, Bool-cases, inl, inr, eq_iff,
}
use vocastock.TextMap.{lookup, insert, lookup-insert}
use vocastock.Text.{concat}
use vocastock.Text.Append.{Lacks, split_at_first}
use vocastock.Percent.{percent_encode_path}
use vocastock.Json.{Value, Fields, as_object, get, get_field}
use vocastock.Firestore.Http.{FirestoreHttpError, http_status}
use vocastock.Firestore.Document.{FirestoreSource, document_path, fetch_value, fields_of}
use vocastock.Firestore.Document.Laws.{
  percent_encode_path-Lacks, percent_encode_path_injective, slash-append,
}
use vocastock.CommandApi.FirestoreServer.{
  Server, create_path, document_of, fields_at, post, StoresDocuments,
}

ask-append : (s : String) → "?documentId=" ++ s ≡ "?" ∷ ("documentId=" ++ s)
ask-append s = cons-append "?" "documentId=" s

pub create_path_injective :
    (project collection another actor other i j : String)
    → Lacks b'?' collection
    → Lacks b'?' another
    → create_path project actor collection i ≡ create_path project other another j
    → (actor ≡ other) × (collection ≡ another) × (i ≡ j)
unfolding create_path concat
create_path_injective project collection another actor other i j plain simple e =
    let behind = λ (a c k : String).
      percent_encode_path a ++ ("/" ++ (c ++ ("?documentId=" ++ percent_encode_path k))) in
    let ends : behind actor collection i ≡ behind other another j =
      append_cancel_left "/databases/(default)/documents/actors/" _ _
        (append_cancel_left project _ _ (append_cancel_left "/v1/projects/" _ _ e)) in
    let (actors, rest) =
      split_at_first "/" (percent_encode_path actor) (percent_encode_path other) _ _
        (percent_encode_path-Lacks actor) (percent_encode_path-Lacks other)
        (simp slash-append at ends) in
    let (collections, identifiers) =
      split_at_first "?" collection another _ _ plain simple (simp ask-append at rest) in
    (
      percent_encode_path_injective actor other actors,
      collections,
      percent_encode_path_injective i j (append_cancel_left "documentId=" _ _ identifiers),
    )

-- The documents by their paths.
abbrev pub Documents : Type 0
Documents = List (String × Value)

abbrev found : Option Value → Result Value FirestoreHttpError
found none = err (http_status 404)
found (some document) = ok document

abbrev stored : Option String → Value → Documents → Result Value FirestoreHttpError × Documents
stored none document s = (err (http_status 404), s)
stored (some path) document s = (ok document, insert path document s)

module _ (known : List (String × String)) where
  unfoldable pub memory : Server Documents Value
  memory = record {
    execute_get = λ s host path. found (lookup path s);
    execute_post = λ s host path document. stored (lookup path known) document s;
    from_str = λ document. some document;
    to_string = λ document. document;
  }

  module _ (source : FirestoreSource) where
    -- The second path of a pair is that of the document which the first one creates.
    abbrev pub Creates : String × String → Type 0
    Creates (path, document) =
        (collection : String) × (actor : String) × (identifier : String) × Lacks b'?' collection
        × (path ≡ create_path source.project_id actor collection identifier)
        × (document ≡ document_path source.project_id actor collection identifier)

    lookup-created :
        (pairs : List (String × String)) (collection actor identifier path : String)
        → All Creates pairs
        → Lacks b'?' collection
        → lookup (create_path source.project_id actor collection identifier) pairs ≡ some path
        → path ≡ document_path source.project_id actor collection identifier
    unfolding lookup
    lookup-created [] collection actor identifier path creates plain h = absurd (cc h)
    lookup-created ((first, document) ∷ pairs) collection actor identifier path
          ((c, a, i, simple, made, kept), creates) plain h =
        elim (Bool-cases (first == create_path source.project_id actor collection identifier)) [
          | inr e ↦ lookup-created pairs collection actor identifier path creates plain (rw e at h)
          | inl e ↦
              let same : create_path source.project_id a c i
                  ≡ create_path source.project_id actor collection identifier =
                sym made ∙ (eq_iff _ _).0 e in
              let (actors, collections, identifiers) =
                create_path_injective source.project_id c collection a actor i identifier simple
                  plain same in
              let given : some document ≡ some path = rw e at h in
              cc (given, kept, actors, collections, identifiers)
        ]

    module _ (creates : All Creates known) (collection actor identifier : String) (reply : Value)
        (fields : Fields) (s : Documents) (plain : Lacks b'?' collection) where
      abbrev path : String
      path = create_path source.project_id actor collection identifier

      abbrev target : String
      target = document_path source.project_id actor collection identifier

      abbrev creation : Result Value FirestoreHttpError × Documents
      creation = post memory source path (document_of fields) s

      created_at : creation.0 ≡ ok reply → creation.1 ≡ insert target (document_of fields) s
      unfolding post memory
      created_at h = elim (Option-cases (lookup path known)) [
        | inl e ↦ absurd (cc (rw e at h))
        | inr (p, e) ↦ rw (e, lookup-created known collection actor identifier p creates plain e)
      ]

      fields_created :
          creation.0 ≡ ok reply
          → fields_at memory source creation.1 collection actor identifier ≡ some fields
      unfolding memory fetch_value fields_of get get_field as_object
      fields_created h =
          let same : (target == target) ≡ true = (eq_iff target target).1 refl in
          rw (created_at h, lookup-insert target target (document_of fields) s, same)

      others_untouched :
          (another b t : String)
          → creation.0 ≡ ok reply
          → document_path source.project_id b another t ≢ target
          → fields_at memory source creation.1 another b t ≡ fields_at memory source s another b t
      unfolding memory fetch_value
      others_untouched another b t h differ =
          let other = document_path source.project_id b another t in
          elim (Bool-cases (target == other)) [
            | inl e ↦ absurd (differ (sym ((eq_iff _ _).0 e)))
            | inr e ↦ rw (created_at h, lookup-insert target other (document_of fields) s, e)
          ]

    pub memory-StoresDocuments : All Creates known → StoresDocuments memory source
    unfolding memory
    memory-StoresDocuments creates = record {
      is_reachable = λ s. Unit;
      created = λ collection actor identifier reply fields s simple name other plain h after. (
        fields,
        fields_created creates collection actor identifier reply fields s simple.0 h,
        (λ key. refl),
      );
      untouched =
          λ collection actor identifier another b t reply fields s simple name other others is_name
              is_other h differ before after.
            others_untouched creates collection actor identifier reply fields s simple.0 another b t
              h differ;
    }

    pub memory-is_reachable :
        (creates : All Creates known) (s : Documents)
        → (memory-StoresDocuments creates).is_reachable s
    unfolding memory-StoresDocuments
    memory-is_reachable creates s = tt

-- ===== src/CommandApi/FirestoreServer.antt =====
-- What firestore_command_store.rs and firestore_mutation_command_store.rs of
-- applications/backend/command-api/src/register_command_api/runtime share. The server is a
-- parameter: `execute_get` and `execute_post` of packages/rust/shared-firestore at a state of it.
pub mod Laws
pub mod Memory
use vocastock.Prelude.{
  ℕ, String, ◌≡◌, ◌≢◌, ◌⊎◌, Bool, false, Option, none, some, List, [], ◌∷◌, Result, ok, err, ◌==◌,
  if◌then◌else◌,
}
use vocastock.Text.{concat, is_empty}
use vocastock.Text.Append.{Lacks}
use vocastock.Percent.{percent_encode_path}
use vocastock.Json.{Value, Fields, null, bool, string, object, field, nil, get_field, ◌>>=◌}
use vocastock.Firestore.Http.{FirestoreHttpError, transport, http_status, invalid_response}
use vocastock.Firestore.Document.{FirestoreSource, Reader, document_path, fetch_value, fields_of}

-- The server with state `S`, and `serde_json` at `Value`. `B` is the type of a body, which is text
-- in the source.
pub record Server (S B : Type 0) : Type 0 where
  pub execute_get : S → String → String → Result B FirestoreHttpError
  pub execute_post : S → String → String → B → Result B FirestoreHttpError × S
  pub from_str : B → Option Value
  pub to_string : Value → B

abbrev pub reader_at : {S B : Type 0} → Server S B → S → Reader B
reader_at server s = record { execute_get = server.execute_get s; from_str = server.from_str }

-- The path that creates a document under an identifier.
unfoldable pub create_path : String → String → String → String → String
create_path project_id actor collection identifier = concat (
    "/v1/projects/"
    ∷ project_id
    ∷ "/databases/(default)/documents/actors/"
    ∷ percent_encode_path actor
    ∷ "/"
    ∷ collection
    ∷ "?documentId="
    ∷ percent_encode_path identifier
    ∷ [])

-- `{"stringValue": text}`
abbrev pub string_value : String → Value
string_value text = object (field "stringValue" (string text) nil)

-- `{"booleanValue": flag}`
abbrev pub bool_value : Bool → Value
bool_value flag = object (field "booleanValue" (bool flag) nil)

-- `{"fields": fields}`
abbrev pub document_of : Fields → Value
document_of fields = object (field "fields" (object fields) nil)

-- A name of an actor or of a document that stands for itself in a path: it is not empty, and has no
-- slash.
abbrev pub IsName : String → Type 0
IsName name = (is_empty name ≡ false) × Lacks b'/' name

abbrev pub IsCollection : String → Type 0
IsCollection name = Lacks b'?' name × Lacks b'/' name

-- Each field has a name of its own, and is a text or a flag.
abbrev pub ArePlain : Fields → Type 0
ArePlain nil = Unit
ArePlain (field name value later) =
    (((text : String) × (value ≡ string_value text)) ⊎ ((flag : Bool) × (value ≡ bool_value flag)))
    × (get_field name later ≡ none)
    × ArePlain later

-- Two lists of fields have the same value under every name.
abbrev pub Agree : Fields → Fields → Type 0
Agree got sent = (name : String) → get_field name got ≡ get_field name sent

-- There are fields, and these agree with those that were sent.
abbrev pub Holds : Fields → Option Fields → Type 0
Holds sent found = (got : Fields) × (found ≡ some got) × Agree got sent

module _ {S B : Type 0} (server : Server S B) (source : FirestoreSource) where
  -- The fields of a document, where it is there and can be read.
  abbrev pub fields_at : S → String → String → String → Option Fields
  fields_at s collection actor identifier =
      fetch_value (reader_at server s) source
        (document_path source.project_id actor collection identifier)
      >>= (λ payload. fields_of payload)

  unfoldable pub post : String → B → S → Result B FirestoreHttpError × S
  post path body s = server.execute_post s source.emulator_host path body

  -- The second request behind a status of 409, and the first answer otherwise.
  abbrev pub patched_on_conflict :
      (S → Result B FirestoreHttpError × S)
      → Result B FirestoreHttpError
      → S
      → Result B FirestoreHttpError × S
  patched_on_conflict patch (ok reply) s = (ok reply, s)
  patched_on_conflict patch (err transport) s = (err transport, s)
  patched_on_conflict patch (err invalid_response) s = (err invalid_response, s)
  patched_on_conflict patch (err (http_status n)) s =
      if n == 409 then patch s else (err (http_status n), s)

  -- Create the document, and patch it where there is one.
  unfoldable pub put :
      String → String → String → String → Value → S → Result B FirestoreHttpError × S
  put collection mask actor identifier document s =
      let (reply, t) =
        post (create_path source.project_id actor collection identifier) (server.to_string document)
          s in
      patched_on_conflict
        (λ u.
          post (concat (document_path source.project_id actor collection identifier ∷ mask ∷ []))
            (server.to_string document) u)
        reply t

  -- The request that creates a document.
  abbrev pub creation_of : String → String → String → Fields → S → Result B FirestoreHttpError × S
  creation_of collection actor identifier fields s =
      post (create_path source.project_id actor collection identifier)
        (server.to_string (document_of fields)) s

  -- What the documentation of Firestore says of a document that is created under plain names, as far
  -- as this code relies on it. In the states in which the server can be reached, where the request
  -- succeeds, the document is read, and each of its fields has the text or the flag that was sent;
  -- the fields of every other document are those from before. Nothing is said of listings, of other
  -- members of a document, of their order, and of values of other types.
  pub record StoresDocuments : Type 1 where
    pub is_reachable : S → Type 0
    pub created :
        (collection actor identifier : String) (reply : B) (fields : Fields) (s : S)
        → IsCollection collection
        → IsName actor
        → IsName identifier
        → ArePlain fields
        → (creation_of collection actor identifier fields s).0 ≡ ok reply
        → is_reachable (creation_of collection actor identifier fields s).1
        → Holds fields (
            fields_at
              (creation_of collection actor identifier fields s).1
              collection
              actor
              identifier)
    pub untouched :
        (collection actor identifier another b t : String) (reply : B) (fields : Fields) (s : S)
        → IsCollection collection
        → IsName actor
        → IsName identifier
        → IsCollection another
        → IsName b
        → IsName t
        → (creation_of collection actor identifier fields s).0 ≡ ok reply
        → document_path source.project_id b another t
          ≢ document_path source.project_id actor collection identifier
        → is_reachable s
        → is_reachable (creation_of collection actor identifier fields s).1
        → fields_at (creation_of collection actor identifier fields s).1 another b t
          ≡ fields_at s another b t

-- ===== src/Firestore/Document.antt =====
-- The paths of documents, and the first steps of every reader of a document: the sources of
-- applications/backend/query-api/src/query_catalog_read (the firestore_source.rs of each folder)
-- and the stores of applications/backend/command-api/src/register_command_api/runtime.
pub mod Laws
use vocastock.Prelude.{String, Option, none, some, List, [], ◌∷◌, Result, ok, err}
use vocastock.Text.{concat}
use vocastock.Percent.{percent_encode_path}
use vocastock.Json.{Value, Fields, as_object, get, ◌>>=◌}
use vocastock.Firestore.Http.{FirestoreHttpError}

-- The host and the project of a source or a store.
pub record FirestoreSource : Type 0 where
  pub emulator_host : String
  pub project_id : String

-- `execute_get` at a state of the server, and `serde_json::from_str`. `B` is the type of a body,
-- which is text in the source.
pub record Reader (B : Type 0) : Type 0 where
  pub execute_get : String → String → Result B FirestoreHttpError
  pub from_str : B → Option Value

unfoldable pub collection_path : String → String → String → String
collection_path project_id actor collection = concat (
    "/v1/projects/"
    ∷ project_id
    ∷ "/databases/(default)/documents/actors/"
    ∷ percent_encode_path actor
    ∷ "/"
    ∷ collection
    ∷ [])

unfoldable pub document_path : String → String → String → String → String
document_path project_id actor collection identifier = concat (
    "/v1/projects/"
    ∷ project_id
    ∷ "/databases/(default)/documents/actors/"
    ∷ percent_encode_path actor
    ∷ "/"
    ∷ collection
    ∷ "/"
    ∷ percent_encode_path identifier
    ∷ [])

abbrev pub body_value : {B : Type 0} → Reader B → Result B FirestoreHttpError → Option Value
body_value reader (ok body) = reader.from_str body
body_value reader (err error) = none

-- `execute_get(…).ok()?` and `from_str(…).ok()?`
unfoldable pub fetch_value : {B : Type 0} → Reader B → FirestoreSource → String → Option Value
fetch_value reader source path = body_value reader (reader.execute_get source.emulator_host path)

-- `payload.get("fields")?.as_object()?`
unfoldable pub fields_of : Value → Option Fields
fields_of payload = get "fields" payload >>= (λ fields. as_object fields)

-- ===== src/Firestore/Http.antt =====
-- packages/rust/shared-firestore/src/http.rs: what a request and its response are made of. The
-- socket is a parameter of the code that uses this module.
use text.Mathlib.Text.{◌==◌}
use vocastock.Prelude.{
  ℕ, String, Bool, false, ◌||◌, Option, none, some, List, [], ◌∷◌, if◌then◌else◌,
}
use vocastock.Text.{trim, is_empty, split_once, split_whitespace, parse_u16}
use vocastock.Json.{◌>>=◌}

pub data FirestoreHttpError : Type 0 where
  transport : FirestoreHttpError
  http_status : ℕ → FirestoreHttpError
  invalid_response : FirestoreHttpError

abbrev is_on : Option String → Bool
is_on none = false
is_on (some value) = trim value == "true" || trim value == "1" || trim value == "yes"

-- `env` is `env::var(…).ok()`.
unfoldable pub production_adapters_enabled : (String → Option String) → Bool
unfolding trim
production_adapters_enabled env = is_on (env "VOCAS_PRODUCTION_ADAPTERS")

abbrev pub unless_empty : String → Option String
unless_empty host = if is_empty host then none else some host

unfoldable pub resolve_emulator_host : (String → Option String) → Option String
resolve_emulator_host env = env "FIRESTORE_EMULATOR_HOST" >>= (λ host. unless_empty (trim host))

abbrev project_or_default : Option String → String
project_or_default none = "demo-vocastock"
project_or_default (some value) = if is_empty (trim value) then "demo-vocastock" else value

unfoldable pub resolve_project_id : (String → Option String) → String
unfolding is_empty trim
resolve_project_id env = project_or_default (env "FIREBASE_PROJECT")

abbrev second : List String → Option String
second [] = none
second (a ∷ []) = none
second (a ∷ b ∷ rest) = some b

unfoldable pub parse_status_code : String → Option ℕ
unfolding split_whitespace
parse_status_code status_line = second (split_whitespace status_line) >>= (λ word. parse_u16 word)

unfoldable pub parse_host_port : String → Option (String × ℕ)
parse_host_port host_port =
    split_once b':' host_port
    >>= (λ (host, port). parse_u16 port >>= (λ number. some (trim host, number)))

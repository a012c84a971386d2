-- ===== src/QueryApi/Query.antt =====
-- applications/backend/query-api/src/query_catalog_read/http/endpoint.rs: the query of a request.
pub mod Laws
use text.Mathlib.Text.{◌==◌}
use vocastock.Prelude.{String, Option, none, some, List, [], ◌∷◌, if◌then◌else◌}
use vocastock.Text.{trim, is_empty, split_once, split_on}
use vocastock.Percent.{percent_decode}

abbrev pub query_or_none : String → Option (String × String) → String × Option String
query_or_none raw none = (raw, none)
query_or_none raw (some (path, query)) = (path, some query)

unfoldable pub split_path_and_query : String → String × Option String
split_path_and_query raw = query_or_none raw (split_once b'?' raw)

-- The value of the first pair whose name is the key.
abbrev pub pair_value : String → Option (String × String) → Option String → Option String
pair_value key none later = later
pair_value key (some (name, value)) later = if name == key then some value else later

unfoldable pub first_value : String → List String → Option String
first_value key [] = none
first_value key (pair ∷ pairs) =
    let later = first_value key pairs in pair_value key (split_once b'=' pair) later

abbrev pub decoded : Option String → Option String
decoded none = none
decoded (some value) = percent_decode value

unfoldable pub parse_query_param : Option String → String → Option String
parse_query_param none key = none
parse_query_param (some query) key = decoded (first_value key (split_on b'&' query))

abbrev pub unless_blank : Option String → Option String
unless_blank none = none
unless_blank (some value) = if is_empty (trim value) then none else some value

unfoldable pub require_identifier : Option String → Option String
require_identifier query = unless_blank (parse_query_param query "identifier")

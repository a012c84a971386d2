-- ===== src/QueryApi/Query/Laws.antt =====
-- What query-api reads from the path that the gateway writes
-- (applications/backend/graphql-gateway/src/gateway_routing/downstream/generic_relay.rs).
use Prim.Native.String as Str
use Prim.Native.String.{◌++◌}
use text.Mathlib.TextLemmas.{nil-append, cons-append}
use vocastock.Prelude.{◌≡◌, refl, String, false, some, List, [], ◌∷◌, arith}
use vocastock.Text.{concat, trim, is_empty, split_once, split_on}
use vocastock.Text.Append.{Lacks, Lacks-append, lacks-Lacks, lacks}
use vocastock.Text.Split.Laws.{split_once-append, split_on-append, split_on-Lacks}
use vocastock.Percent.{percent_encode, is_unreserved}
use vocastock.Percent.Laws.{
  AllChars, IsUrlSafe, percent_decode-percent_encode, percent_encode-AllChars,
}
use vocastock.Json.{string, field, Fields, as_str}
use vocastock.Gateway.Relay.Generic.{parts_of, join_parts, attach_variables_as_query_string}
use vocastock.Gateway.Request.{UnifiedGraphqlRequest, variables_object}
use vocastock.QueryApi.Query.{
  split_path_and_query, require_identifier, parse_query_param, first_value,
}

safe-Lacks_and : (s : String) → AllChars IsUrlSafe s → Lacks b'&' s
unfolding is_unreserved
safe-Lacks_and Str.[] h = tt
safe-Lacks_and (Str.◌∷◌ c s) (p, h) = (ground (arith, p), safe-Lacks_and s h)

-- The pair that the gateway writes for an identifier.
abbrev identifier_pair : String → String
identifier_pair s = concat ("identifier" ∷ "=" ∷ percent_encode s ∷ [])

identifier_pair-eq :
    (s : String) → identifier_pair s ≡ "identifier" ++ Str.◌∷◌ "=" (percent_encode s)
unfolding concat
identifier_pair-eq s = rw (cons-append "=" "" (percent_encode s), nil-append (percent_encode s))

identifier_pair-Lacks : (s : String) → Lacks b'&' (identifier_pair s)
unfolding lacks
identifier_pair-Lacks s = rw (identifier_pair-eq s) (
    Lacks-append b'&' "identifier" (Str.◌∷◌ "=" (percent_encode s))
      (lacks-Lacks b'&' "identifier" refl)
      (
        (λ e. absurd (omega (arith, e))),
        safe-Lacks_and (percent_encode s) (percent_encode-AllChars s),
      ))

split_once-identifier_pair :
    (s : String) → split_once b'=' (identifier_pair s) ≡ some ("identifier", percent_encode s)
unfolding lacks
split_once-identifier_pair s =
    rw (identifier_pair-eq s)
      (split_once-append "=" "identifier" (percent_encode s) (lacks-Lacks b'=' "identifier" refl))

first_value-identifier :
    (s : String) (later : List String)
    → first_value "identifier" (identifier_pair s ∷ later) ≡ some (percent_encode s)
unfolding first_value
first_value-identifier s later = rw (split_once-identifier_pair s) refl

first_value-joined :
    (s : String) (parts : List String)
    → first_value "identifier" (split_on b'&' (join_parts (identifier_pair s) parts))
      ≡ some (percent_encode s)
unfolding join_parts
first_value-joined s [] =
    rw (split_on-Lacks b'&' (identifier_pair s) (identifier_pair-Lacks s))
      (first_value-identifier s [])
first_value-joined s (next ∷ parts) =
    let rest = join_parts next parts in
    rw
      (
        cons-append "&" "" rest,
        nil-append rest,
        split_on-append "&" (identifier_pair s) rest (identifier_pair-Lacks s),
      )
      (first_value-identifier s (split_on b'&' rest))

require_identifier-joined :
    (s : String) (parts : List String)
    → is_empty (trim s) ≡ false
    → require_identifier (some (join_parts (identifier_pair s) parts)) ≡ some s
unfolding require_identifier parse_query_param
require_identifier-joined s parts given =
    rw (first_value-joined s parts, percent_decode-percent_encode s, given) refl

-- Where the first variable of a query is an identifier that is not blank, query-api reads the route
-- and that identifier from the path that the gateway asks for, whatever the characters of the
-- identifier and whatever the other variables, at a route with no question mark.
pub require_identifier-attach_variables_as_query_string :
    (route s : String) (more : Fields) (request : UnifiedGraphqlRequest)
    → Lacks b'?' route
    → is_empty (trim s) ≡ false
    → variables_object request.envelope ≡ some (field "identifier" (string s) more)
    → let (path, query) = split_path_and_query (attach_variables_as_query_string route request) in
      (path ≡ route) × (require_identifier query ≡ some s)
unfolding attach_variables_as_query_string split_path_and_query parts_of as_str
require_identifier-attach_variables_as_query_string route s more request plain given first =
    let rest = join_parts (identifier_pair s) (parts_of more) in
    rw (first, cons-append "?" "" rest, nil-append rest, split_once-append "?" route rest plain)
      (refl, require_identifier-joined s (parts_of more) given)

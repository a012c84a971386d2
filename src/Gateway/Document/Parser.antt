-- ===== src/Gateway/Document/Parser.antt =====
-- operation_allowlist.rs: `parse_single_operation` and `allowlisted_operation` on documents.
pub mod Ends
use vocastock.Prelude.{
  ℕ, zero, suc, ◌-◌, ◌≤◌, ◌<◌, String, Char, code, Bool, true, false, not, ◌&&◌, ◌||◌, Option, none,
  some, List, [], ◌∷◌, ◌++◌, length, ltb, leb, ◌==◌, if◌then◌else◌, Result, ok, err, ok_or, map_err,
  ◌>>=◌, Round, stop, next, loop,
}
use vocastock.Gateway.Failure.{
  GatewayFailure, validation_failed, unsupported_operation, ambiguous_operation,
}
use vocastock.Gateway.Allowlist.{
  GraphqlOperationKind, mutation, query, GatewayRoutingDecision, ParsedOperation,
  allowlisted_parsed,
}
use vocastock.Gateway.Document.Scan.{
  Document, ScanError, refused, out_of_fuel, Scan, invalid, ended, is_ascii_whitespace,
  is_identifier_start, text_of, chars_of, skip_comment, skip_string, skip_ignored, skip_group,
  parse_identifier, behind_keyword, begins_with, slice_to, go_on,
}

-- What stands behind the colon of an alias.
unfoldable pub aliased_field : Document → Scan (Document × Document)
aliased_field [] = invalid "field alias is invalid"
aliased_field (colon ∷ s) = do
  rest ← skip_ignored s
  ok_or (parse_identifier rest) (refused (validation_failed "field alias is invalid"))

-- A root field at its first identifier: its name, and what is left behind it.
unfoldable pub root_field : Document → Scan (Document × Document)
root_field s = do
  (token, behind) ←
      ok_or (parse_identifier s) (refused (validation_failed "field name is required"))
  rest ← skip_ignored behind
  if begins_with b':' rest then aliased_field rest else ok (token, rest)

-- The state of `extract_root_fields`: its depth, what is left, and the fields so far.
abbrev pub FieldsState : Type 0
FieldsState = ℕ × Document × List String

abbrev pub push_field :
    ℕ → List String → Scan (Document × Document) → Round FieldsState (Scan (List String))
push_field depth fields (ok (name, rest)) = next (depth, rest, fields ++ (text_of name ∷ []))
push_field depth fields (err e) = stop (err e)

unfoldable pub root_fields_round : FieldsState → Round FieldsState (Scan (List String))
root_fields_round (depth, [], fields) = stop (ok fields)
root_fields_round (depth, c ∷ s, fields) =
    if code c == b'"'
    then go_on (skip_string (c ∷ s)) (λ rest. (depth, rest, fields))
    else if code c == b'#'
    then next (depth, skip_comment (c ∷ s), fields)
    else if code c == b'{'
    then next (suc depth, s, fields)
    else if code c == b'}'
    then if depth == 0
      then stop (invalid "selection set closed unexpectedly")
      else next (depth - 1, s, fields)
    else if code c == b'(' && leb 1 depth
    then go_on (skip_group b'(' b')' (c ∷ s)) (λ rest. (depth, rest, fields))
    else if depth == 1 && (is_ascii_whitespace c || code c == b',')
    then next (depth, s, fields)
    else if depth == 1 && is_identifier_start c
    then push_field depth fields (root_field (c ∷ s))
    else next (depth, s, fields)

abbrev pub some_fields : List String → Scan (List String)
some_fields [] = err (refused unsupported_operation)
some_fields (field ∷ fields) = ok (field ∷ fields)

unfoldable pub extract_root_fields : Document → Scan (List String)
extract_root_fields s = do
  fields ← ended (loop root_fields_round (suc (length s)) (0, s, []))
  some_fields fields

-- The kind and the name of an operation, and its selection set.
abbrev pub Explicit : Type 0
Explicit = GraphqlOperationKind × Option String × Document

-- The selection set that the document begins with, where nothing but what is ignored follows it.
unfoldable pub only_selection : Document → Scan Document
only_selection s = do
  behind ← skip_group b'{' b'}' s
  trailing ← skip_ignored behind
  if length trailing == 0
      then ok (slice_to s (length behind))
      else err (refused ambiguous_operation)

unfoldable pub skip_variables : Document → Scan Document
skip_variables s =
    if begins_with b'(' s then skip_group b'(' b')' s >>= (λ rest. skip_ignored rest) else ok s

abbrev pub name_or_not : Document → Option (Document × Document) → Option String × Document
name_or_not s none = (none, s)
name_or_not s (some (name, rest)) = (some (text_of name), rest)

abbrev pub optional_name : Document → Option String × Document
optional_name s = name_or_not s (parse_identifier s)

unfoldable pub parse_explicit_operation : Document → GraphqlOperationKind → Scan Explicit
parse_explicit_operation s kind = do
  start ← skip_ignored s
  let (name, behind) = optional_name start
  at ← skip_ignored behind
  rest ← skip_variables at
  if begins_with b'{' rest
      then only_selection rest >>= (λ selection. ok (kind, name, selection))
      else invalid "GraphQL operation must contain a selection set"

-- `only_selection` of the shorthand `{ … }`, which is a query with no name.
unfoldable pub parse_shorthand : Document → Scan Explicit
parse_shorthand s =
    if begins_with b'{' s
    then only_selection s >>= (λ selection. ok (query, none, selection))
    else err (refused unsupported_operation)

unfoldable pub parse_operation : Document → Scan Explicit
parse_operation s = elim (behind_keyword (chars_of "mutation") s) [
  | some rest ↦ parse_explicit_operation rest mutation
  | none ↦ elim (behind_keyword (chars_of "query") s) [
    | some rest ↦ parse_explicit_operation rest query
    | none ↦ parse_shorthand s
  ]
]

abbrev pub with_fields : Explicit → List String → ParsedOperation
with_fields (kind, name, selection) fields = record {
  operation_kind = kind;
  operation_name = name;
  root_fields = fields;
}

abbrev pub fields_of : Explicit → Scan ParsedOperation
fields_of operation =
    extract_root_fields operation.2 >>= (λ fields. ok (with_fields operation fields))

abbrev pub refuse_empty : Document → Scan Explicit
refuse_empty [] = invalid "query must not be empty"
refuse_empty (c ∷ s) = parse_operation (c ∷ s)

unfoldable pub parse_single_operation : Document → Scan ParsedOperation
parse_single_operation s = do
  trimmed ← skip_ignored s
  operation ← refuse_empty trimmed
  fields_of operation

-- `allowlisted_operation` at the envelope's operation name and query.
unfoldable pub allowlisted_operation : Option String → String → Scan GatewayRoutingDecision
allowlisted_operation request_name document = do
  parsed ← parse_single_operation (chars_of document)
  map_err refused (allowlisted_parsed request_name parsed)

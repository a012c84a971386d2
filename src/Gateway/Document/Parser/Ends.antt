-- ===== src/Gateway/Document/Parser/Ends.antt =====
-- The parser at any document: it ends, and the names it gives.
use native.Mathlib.Omega.{arith}
use vocastock.Prelude.{
  ℕ, suc, ◌≤◌, ◌<◌, ◌≡◌, refl, String, Char, code, true, ◌&&◌, ◌||◌, Option, none, some, List, [],
  ◌∷◌, length, All, All-append, leb, ◌==◌, if◌then◌else◌, if_cases, Option-cases, inl, inr, ok, err,
  ok_or, loop, Progress,
}
use vocastock.Gateway.Failure.{GatewayFailure}
use vocastock.Gateway.Allowlist.{GraphqlOperationKind, mutation, query, ParsedOperation}
use vocastock.Gateway.Document.Scan.{
  Document, refused, out_of_fuel, Scan, ended, is_ascii_whitespace, is_identifier_start,
  is_identifier_part, text_of, chars_of, skip_comment, skip_string, skip_ignored, skip_group,
  identifier_tail, parse_identifier, behind_keyword, begins_with,
}
use vocastock.Gateway.Document.Ends.{
  Ends, Ends-weaken, Ends-bind, Ends-ended, Within, skip_string-Ends, skip_comment_less,
  skip_ignored-Ends, skip_group-Ends, go_on-Progress,
}
use vocastock.Gateway.Document.Parser.{
  aliased_field, root_field, FieldsState, push_field, root_fields_round, some_fields,
  extract_root_fields, Explicit, only_selection, skip_variables, name_or_not, optional_name,
  parse_explicit_operation, parse_shorthand, parse_operation, refuse_empty, parse_single_operation,
}

-- A letter or an underscore, then letters, digits and underscores.
abbrev pub IsIdentifier : Document → Type 0
IsIdentifier [] = ⊥
IsIdentifier (c ∷ s) = (is_identifier_start c ≡ true) × All (λ d. is_identifier_part d ≡ true) s

-- An identifier that the document begins with, and what is left.
abbrev Token : Document → Document × Document → Type 0
Token s (name, rest) = IsIdentifier name × (length rest < length s)

identifier_tail_parts :
    (s : Document)
    → All (λ d. is_identifier_part d ≡ true) (identifier_tail s).0
      × (length (identifier_tail s).1 ≤ length s)
unfolding identifier_tail
identifier_tail_parts [] = (tt, omega arith)
identifier_tail_parts (c ∷ s) =
    let (parts, shorter) = identifier_tail_parts s in
    if_cases
      (λ (p : Document × Document).
        All (λ d. is_identifier_part d ≡ true) p.0 × (length p.1 ≤ length (c ∷ s)))
      (is_identifier_part c) (λ e. ((e, parts), omega (arith, shorter))) (λ _. (tt, omega arith))

parse_identifier-Ends :
    (s : Document) (failure : GatewayFailure)
    → Ends (Token s) (ok_or (parse_identifier s) (refused failure))
unfolding parse_identifier
parse_identifier-Ends [] failure = tt
parse_identifier-Ends (c ∷ s) failure =
    let (parts, shorter) = identifier_tail_parts s in
    if_cases
      (λ (o : Option (Document × Document)). Ends (Token (c ∷ s)) (ok_or o (refused failure)))
      (is_identifier_start c) (λ e. ((e, parts), omega (arith, shorter))) (λ _. tt)

aliased_field-Ends : (c : Char) (s : Document) → Ends (Token (c ∷ s)) (aliased_field (c ∷ s))
unfolding aliased_field
aliased_field-Ends c s =
    Ends-bind (Within s) (Token (c ∷ s)) (skip_ignored s) _ (skip_ignored-Ends s) (λ rest m.
      Ends-weaken (ok_or (parse_identifier rest) _) (parse_identifier-Ends rest _)
        (λ (name, behind) (identifier, less). (identifier, omega (arith, m, less))))

root_field-Ends : (s : Document) → Ends (Token s) (root_field s)
unfolding root_field begins_with
root_field-Ends s =
    Ends-bind (Token s) (Token s) (ok_or (parse_identifier s) _) _ (parse_identifier-Ends s _)
      (λ (token, behind) (identifier, less).
        Ends-bind (Within behind) (Token s) (skip_ignored behind) _ (skip_ignored-Ends behind)
          (λ rest m. named rest token (omega (arith, m, less)) identifier))
  where
    named :
        (rest token : Document)
        → length rest < length s
        → IsIdentifier token
        → Ends (Token s) (if begins_with b':' rest then aliased_field rest else ok (token, rest))
    named [] token less identifier = (identifier, less)
    named (c ∷ rest) token less identifier =
        if_cases (Ends (Token s)) (code c == b':')
          (λ _.
            Ends-weaken (aliased_field (c ∷ rest)) (aliased_field-Ends c rest)
              (λ (name, behind) (found, fewer). (found, omega (arith, less, fewer))))
          (λ _. (identifier, less))

-- The text of an identifier.
abbrev pub IsName : String → Type 0
IsName name = (s : Document) × IsIdentifier s × (name ≡ text_of s)

abbrev Kept : Document → FieldsState → Type 0
Kept s (depth, rest, fields) = Within s rest × All IsName fields

push_field-Progress :
    (s : Document) (depth : ℕ) (rest : Document) (fields : List String)
    → Kept s (depth, rest, fields)
    → (r : Scan (Document × Document)) → Ends (Token rest) r
    → Progress root_fields_round
        (Kept s)
        (Ends (All IsName))
        (λ u. length u.1)
        (depth, rest, fields)
        (push_field depth fields r)
push_field-Progress s depth rest fields (within, names) (ok (name, behind)) (found, less) = (
  (
    omega (arith, within, less),
    All-append IsName fields (text_of name ∷ []) names ((name, found, refl), tt),
  ),
  less,
)
push_field-Progress s depth rest fields kept (err (refused failure)) h = tt
push_field-Progress s depth rest fields kept (err out_of_fuel) h = absurd h

less_kept :
    (s t rest : Document) (fields : List String)
    → Within s t
    → length rest < length t
    → All IsName fields
    → (Within s rest × All IsName fields) × (length rest < length t)
less_kept s t rest fields within m names = ((omega (arith, within, m), names), m)

root_fields_round-Progress :
    (s : Document) (state : FieldsState)
    → Kept s state
    → Progress root_fields_round
        (Kept s)
        (Ends (All IsName))
        (λ u. length u.1)
        state
        (root_fields_round state)
unfolding root_fields_round
root_fields_round-Progress s (depth, [], fields) (within, names) = names
root_fields_round-Progress s (depth, c ∷ t, fields) (within, names) =
    let goal =
      Progress root_fields_round (Kept s) (Ends (All IsName)) (λ u. length u.1)
        (depth, c ∷ t, fields) in
    let kept = λ (rest : Document) (m : length rest < length (c ∷ t)).
      less_kept s (c ∷ t) rest fields within m names in
    let to : Document → FieldsState = λ rest. (depth, rest, fields) in
    let behind =
      go_on-Progress root_fields_round (Kept s) (All IsName) (λ u. length u.1)
        (depth, c ∷ t, fields) in
    if_cases goal (code c == b'"')
      (λ _.
        behind (Within t) (skip_string (c ∷ t)) to (skip_string-Ends c t)
          (λ rest m. kept rest (omega (arith, m))))
      (λ _.
        if_cases goal (code c == b'#')
          (λ hash. kept (skip_comment (c ∷ t)) (omega (arith, skip_comment_less c t hash)))
          (λ _.
            if_cases goal (code c == b'{') (λ _. kept t (omega arith))
              (λ _.
                if_cases goal (code c == b'}')
                  (λ _. if_cases goal (depth == 0) (λ _. tt) (λ _. kept t (omega arith)))
                  (λ _.
                    if_cases goal (code c == b'(' && leb 1 depth)
                      (λ _.
                        behind (λ rest. length rest < length (c ∷ t)) (skip_group b'(' b')' (c ∷ t))
                          to (skip_group-Ends b'(' b')' (c ∷ t)) kept)
                      (λ _.
                        if_cases goal (depth == 1 && (is_ascii_whitespace c || code c == b','))
                          (λ _. kept t (omega arith))
                          (λ _.
                            if_cases goal (depth == 1 && is_identifier_start c)
                              (λ _.
                                push_field-Progress s depth (c ∷ t) fields (within, names)
                                  (root_field (c ∷ t)) (root_field-Ends (c ∷ t)))
                              (λ _. kept t (omega arith))))))))

-- The fields of a selection: at least one, each an identifier.
abbrev pub AreFields : List String → Type 0
AreFields [] = ⊥
AreFields (field ∷ fields) = All IsName (field ∷ fields)

some_fields-Ends : (fields : List String) → All IsName fields → Ends AreFields (some_fields fields)
some_fields-Ends [] names = tt
some_fields-Ends (field ∷ fields) names = names

extract_root_fields-Ends : (s : Document) → Ends AreFields (extract_root_fields s)
unfolding extract_root_fields
extract_root_fields-Ends s =
    Ends-bind (All IsName) AreFields (ended (loop root_fields_round (suc (length s)) (0, s, []))) _
      (Ends-ended root_fields_round (Kept s) (All IsName) (λ u. length u.1) (suc (length s))
        (0, s, []) (root_fields_round-Progress s) (omega arith) (omega arith, tt))
      some_fields-Ends

-- The name of an operation, where it has one.
abbrev pub IsOptionalName : Option String → Type 0
IsOptionalName none = Unit
IsOptionalName (some name) = IsName name

abbrev Named : Explicit → Type 0
Named operation = IsOptionalName operation.1

only_selection-Ends : (s : Document) → Ends (λ _. Unit {0}) (only_selection s)
unfolding only_selection
only_selection-Ends s =
    Ends-bind (λ rest. length rest < length s) (λ _. Unit {0}) (skip_group b'{' b'}' s) _
      (skip_group-Ends b'{' b'}' s)
      (λ behind _.
        Ends-bind (Within behind) (λ _. Unit {0}) (skip_ignored behind) _ (skip_ignored-Ends behind)
          (λ trailing _.
            if_cases (Ends (λ _. Unit {0})) (length trailing == 0) (λ _. tt) (λ _. tt)))

skip_variables-Ends : (s : Document) → Ends (λ _. Unit {0}) (skip_variables s)
unfolding skip_variables
skip_variables-Ends s =
    if_cases (Ends (λ _. Unit {0})) (begins_with b'(' s)
      (λ _.
        Ends-bind (λ rest. length rest < length s) (λ _. Unit {0}) (skip_group b'(' b')' s) _
          (skip_group-Ends b'(' b')' s)
          (λ rest _. Ends-weaken (skip_ignored rest) (skip_ignored-Ends rest) (λ _ _. tt)))
      (λ _. tt)

optional_name-IsOptionalName : (s : Document) → IsOptionalName (optional_name s).0
unfolding parse_identifier
optional_name-IsOptionalName [] = tt
optional_name-IsOptionalName (c ∷ s) =
    if_cases (λ (o : Option (Document × Document)). IsOptionalName (name_or_not (c ∷ s) o).0)
      (is_identifier_start c)
      (λ e. (c ∷ (identifier_tail s).0, (e, (identifier_tail_parts s).0), refl)) (λ _. tt)

parse_explicit_operation-Ends :
    (s : Document) (kind : GraphqlOperationKind) → Ends Named (parse_explicit_operation s kind)
unfolding parse_explicit_operation
parse_explicit_operation-Ends s kind =
    Ends-bind (Within s) Named (skip_ignored s) _ (skip_ignored-Ends s) (λ start _.
      let (name, behind) = optional_name start in
      Ends-bind (Within (optional_name start).1) Named (skip_ignored (optional_name start).1) _
        (skip_ignored-Ends (optional_name start).1)
        (λ at _.
          Ends-bind (λ _. Unit {0}) Named (skip_variables at) _ (skip_variables-Ends at)
            (λ rest _.
              if_cases (Ends Named) (begins_with b'{' rest)
                (λ _.
                  Ends-bind (λ _. Unit {0}) Named (only_selection rest) _ (only_selection-Ends rest)
                    (λ _ _. optional_name-IsOptionalName start))
                (λ _. tt))))

parse_shorthand-Ends : (s : Document) → Ends Named (parse_shorthand s)
unfolding parse_shorthand
parse_shorthand-Ends s =
    if_cases (Ends Named) (begins_with b'{' s)
      (λ _.
        Ends-bind (λ _. Unit {0}) Named (only_selection s) _ (only_selection-Ends s) (λ _ _. tt))
      (λ _. tt)

parse_operation-Ends : (s : Document) → Ends Named (parse_operation s)
unfolding parse_operation behind_keyword chars_of
parse_operation-Ends s = elim (Option-cases (behind_keyword (chars_of "mutation") s)) [
  | inr (rest, e) ↦ rw e (parse_explicit_operation-Ends rest mutation)
  | inl e ↦ elim (Option-cases (behind_keyword (chars_of "query") s)) [
    | inr (rest, q) ↦ rw (e, q) (parse_explicit_operation-Ends rest query)
    | inl q ↦ rw (e, q) (parse_shorthand-Ends s)
  ]
]

refuse_empty-Ends : (s : Document) → Ends Named (refuse_empty s)
refuse_empty-Ends [] = tt
refuse_empty-Ends (c ∷ s) = parse_operation-Ends (c ∷ s)

-- Any document is parsed or refused, with no loop cut short; an operation that is parsed has at
-- least one root field, and its name and its root fields are identifiers.
pub parse_single_operation-Ends :
    (s : Document)
    → Ends
        (λ parsed. IsOptionalName parsed.operation_name × AreFields parsed.root_fields)
        (parse_single_operation s)
unfolding parse_single_operation
parse_single_operation-Ends s =
    let Good = λ (parsed : ParsedOperation).
      IsOptionalName parsed.operation_name × AreFields parsed.root_fields in
    Ends-bind (Within s) Good (skip_ignored s) _ (skip_ignored-Ends s) (λ trimmed _.
      Ends-bind Named Good (refuse_empty trimmed) _ (refuse_empty-Ends trimmed) (λ operation named.
        Ends-bind AreFields Good (extract_root_fields operation.2) _
          (extract_root_fields-Ends operation.2) (λ fields are. (named, are))))

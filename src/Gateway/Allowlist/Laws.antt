-- ===== src/Gateway/Allowlist/Laws.antt =====
-- Which operations the gateway lets through, and to where.
use text.Mathlib.Text.{◌==◌}
use vocastock.Prelude.{
  Option, none, some, String, ◌≡◌, ◌⊎◌, refl, sym, ap, ◌∙◌, true, List, [], ◌∷◌, eq_iff, ok,
  ok_injective, Bool-cases, inl, inr,
}
use vocastock.CommandApi.Contract.{service_name}
use vocastock.Gateway.Allowlist.{
  GraphqlOperationKind, mutation, query, VisibleGuarantee, accepted_only, completed_or_status_only,
  GatewayRoutingDecision, ParsedOperation, command_mutation, query_decision, mutation_routes,
  query_routes, first_arm, decide_field, decide_fields, names_agree, allowlisted_parsed,
}

-- The pair stands in the list.
abbrev pub Lists : String → String → List (String × String) → Type 0
Lists name route [] = ⊥
Lists name route ((n, r) ∷ routes) = ((name ≡ n) × (route ≡ r)) ⊎ Lists name route routes

-- What the kind of an operation decides.
abbrev pub routes_of : GraphqlOperationKind → List (String × String)
routes_of mutation = mutation_routes
routes_of query = query_routes

abbrev pub service_of : GraphqlOperationKind → String
service_of mutation = service_name
service_of query = "query-api"

abbrev pub guarantee_of : GraphqlOperationKind → VisibleGuarantee
guarantee_of mutation = accepted_only
guarantee_of query = completed_or_status_only

abbrev pub decision_of : GraphqlOperationKind → String → String → GatewayRoutingDecision
decision_of kind name route = record {
  operation_kind = kind;
  operation_name = name;
  downstream_service = service_of kind;
  downstream_route = route;
  visible_guarantee = guarantee_of kind;
}

first_arm-ok :
    (decide : String → String → GatewayRoutingDecision) (routes : List (String × String))
    (field : String) (decision : GatewayRoutingDecision)
    → first_arm decide routes field ≡ ok decision
    → (route : String) × Lists field route routes × (decision ≡ decide field route)
unfolding first_arm
first_arm-ok decide [] field decision h = absurd (cc h)
first_arm-ok decide ((name, route) ∷ routes) field decision h = elim (Bool-cases (field == name)) [
  | inl e ↦
      let same = (eq_iff field name).0 e in
      let chosen = ok_injective (rw e at h) in
      (route, inl (same, refl), sym chosen ∙ ap (λ n. decide n route) (sym same))
  | inr e ↦
      let (later, listed, chosen) = first_arm-ok decide routes field decision (rw e at h) in
      (later, inr listed, chosen)
]

decide_field-ok :
    (kind : GraphqlOperationKind) (field : String) (decision : GatewayRoutingDecision)
    → decide_field kind field ≡ ok decision
    → (route : String) × Lists field route (routes_of kind)
      × (decision ≡ decision_of kind field route)
unfolding decide_field command_mutation query_decision
decide_field-ok mutation field decision h =
    first_arm-ok command_mutation mutation_routes field decision h
decide_field-ok query field decision h = first_arm-ok query_decision query_routes field decision h

decide_fields-ok :
    (kind : GraphqlOperationKind) (fields : List String) (decision : GatewayRoutingDecision)
    → decide_fields kind fields ≡ ok decision
    → (field : String) × (route : String) × (fields ≡ field ∷ [])
      × Lists field route (routes_of kind)
      × (decision ≡ decision_of kind field route)
unfolding decide_fields
decide_fields-ok kind [] decision h = absurd (cc h)
decide_fields-ok kind (field ∷ []) decision h =
    let (route, listed, chosen) = decide_field-ok kind field decision h in
    (field, route, refl, listed, chosen)
decide_fields-ok kind (_ ∷ _ ∷ _) decision h = absurd (cc h)

-- A request that names an operation names that of the document.
abbrev pub IsNamed : Option String → Option String → Type 0
IsNamed request_name document_name =
    (request_name ≡ none)
    ⊎ ((name : String) × (request_name ≡ some name) × (document_name ≡ some name))

names_agree-IsNamed :
    (request_name document_name : Option String)
    → names_agree request_name document_name ≡ true
    → IsNamed request_name document_name
unfolding names_agree
names_agree-IsNamed none document_name h = inl refl
names_agree-IsNamed (some name) none h = absurd (cc h)
names_agree-IsNamed (some name) (some document_name) h =
    inr (name, refl, ap some ((eq_iff document_name name).0 h))

-- An operation is only let through if it has one root field, which the list of its kind names
-- with the route of the decision, and if a name in the request is the name of the operation; the
-- kind alone decides the service and the guarantee.
pub allowlisted_parsed-ok :
    (request_name : Option String) (parsed : ParsedOperation) (decision : GatewayRoutingDecision)
    → allowlisted_parsed request_name parsed ≡ ok decision
    → (field : String) × (route : String) × IsNamed request_name parsed.operation_name
      × (parsed.root_fields ≡ field ∷ [])
      × Lists field route (routes_of parsed.operation_kind)
      × (decision ≡ decision_of parsed.operation_kind field route)
unfolding allowlisted_parsed
allowlisted_parsed-ok request_name parsed decision h =
    elim (Bool-cases (names_agree request_name parsed.operation_name)) [
      | inr other ↦ absurd (cc (rw other at h))
      | inl same ↦
          let (field, route, one, listed, chosen) =
            decide_fields-ok parsed.operation_kind parsed.root_fields decision (rw same at h) in
          (
            field,
            route,
            names_agree-IsNamed request_name parsed.operation_name same,
            one,
            listed,
            chosen,
          )
    ]

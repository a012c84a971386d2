-- ===== src/Gateway/Endpoint/Forwards.antt =====
-- What the gateway sends to the services, and for which requests.
use Prim.Native.String.{◌++◌}
use text.Mathlib.Text.{◌==◌}
use vocastock.Prelude.{
  String, ◌≡◌, ◌⊎◌, inl, inr, refl, Option, none, some, List, [], ◌∷◌, Result, ok, err, if_cases,
  eq_iff, ◌++◌ as ◌+++◌,
}
use vocastock.CommandApi.Contract.{register_vocabulary_expression_path}
use vocastock.Json.{Fields}
use vocastock.Gateway.Failure.{GatewayFailure}
use vocastock.Gateway.Allowlist.{GraphqlOperationKind, mutation, query}
use vocastock.Gateway.Allowlist.Laws.{Lists, routes_of, decision_of}
use vocastock.Gateway.Request.{UnifiedGraphqlRequest, variables_object}
use vocastock.Gateway.Relay.{
  HttpTarget, DownstreamRequest, RelayClient, sent, authorization_of, request_headers,
  parse_base_url, send_command_json, send_query, relayed, DownstreamHttpResponse, RelayClientError,
}
use vocastock.Gateway.Relay.Generic.{
  relay_generic_query, relay_generic_command, attach_variables_as_query_string, with_variables,
  with_parts, parts_of, join_parts,
}
use vocastock.Gateway.Relay.Services.{
  relay_register_vocabulary_expression, relay_vocabulary_catalog, register_sent,
  build_register_command_body,
}
use vocastock.Gateway.Endpoint.{Context, relay_decision, relay_by_kind, rendered}

-- The route itself, or the route with a query behind it.
abbrev pub IsAt : String → String → Type 0
IsAt route path = (path ≡ route) ⊎ ((query : String) × (path ≡ route ++ ("?" ++ query)))

abbrev pub method_of : GraphqlOperationKind → String
method_of mutation = "POST"
method_of query = "GET"

-- The headers carry the correlation of the request, and its authorization as it is.
abbrev pub Identifies : UnifiedGraphqlRequest → List (String × String) → Type 0
Identifies request headers =
    (more : List (String × String)) × (headers
      ≡ (("x-request-correlation", request.request_correlation) ∷ ("Connection", "close") ∷ [])
        +++ (authorization_of request.authorization_header +++ more))

-- A request to a route of the allowlist for the field, by the method of its kind.
abbrev pub Forwards : String → UnifiedGraphqlRequest → DownstreamRequest → Type 0
Forwards field request r =
    (kind : GraphqlOperationKind) × (route : String) × Lists field route (routes_of kind)
    × IsAt route r.path
    × (r.method ≡ method_of kind)
    × Identifies request r.headers

module _ {S : Type 0} (client : RelayClient S) where
  -- The socket is as it was, or as one request that satisfies `P` leaves it.
  abbrev pub AtMostOnce : (DownstreamRequest → Type 0) → S → S → Type 0
  AtMostOnce P s t =
      (t ≡ s)
      ⊎ ((target : HttpTarget) × (r : DownstreamRequest) × P r
          × (t ≡ (client.execute_request target r s).1))

  sent-AtMostOnce :
      (P : DownstreamRequest → Type 0) (target : Result HttpTarget RelayClientError)
      (r : DownstreamRequest) (s : S)
      → P r
      → AtMostOnce P s (sent client target r s).1
  sent-AtMostOnce P (err error) r s h = inl refl
  sent-AtMostOnce P (ok target) r s h = inr (target, r, h, refl)

  relayed-state :
      (translate : DownstreamHttpResponse → Result _ GatewayFailure) (service : String)
      (p : Result DownstreamHttpResponse RelayClientError × S)
      → (relayed client translate service p).1 ≡ p.1
  unfolding relayed
  relayed-state translate service (ok response, s) = refl
  relayed-state translate service (err error, s) = refl

  module _ (request : UnifiedGraphqlRequest) (field route : String) (s : S) where
    send_command_json-AtMostOnce :
        (body : String)
        → Lists field route (routes_of mutation)
        → AtMostOnce
            (Forwards field request)
            s
            (send_command_json client route request.authorization_header request.request_correlation
              body s).1
    unfolding send_command_json request_headers
    send_command_json-AtMostOnce body listed =
        sent-AtMostOnce (Forwards field request) (parse_base_url client.command_base_url) _ s
          (mutation, route, listed, inl refl, refl, (_, refl))

    send_query-AtMostOnce :
        (path : String)
        → Lists field route (routes_of query)
        → IsAt route path
        → AtMostOnce
            (Forwards field request)
            s
            (send_query client path request.authorization_header request.request_correlation s).1
    unfolding send_query request_headers
    send_query-AtMostOnce path listed at =
        sent-AtMostOnce (Forwards field request) (parse_base_url client.query_base_url) _ s
          (query, route, listed, at, refl, (_, refl))

    query_parts-IsAt : (parts : List String) → IsAt route (with_parts route parts)
    query_parts-IsAt [] = inl refl
    query_parts-IsAt (part ∷ parts) = inr (join_parts part parts, refl)

    with_variables-IsAt : (variables : Option Fields) → IsAt route (with_variables route variables)
    with_variables-IsAt none = inl refl
    with_variables-IsAt (some variables) = query_parts-IsAt (parts_of variables)

    relay_generic-AtMostOnce :
        (kind : GraphqlOperationKind) (ctx : Context S)
        → ctx.relay_client ≡ client
        → Lists field route (routes_of kind)
        → AtMostOnce
            (Forwards field request)
            s
            (relay_by_kind ctx kind (decision_of kind field route) request s).1
    unfolding relay_by_kind relay_generic_query relay_generic_command
        attach_variables_as_query_string
    relay_generic-AtMostOnce mutation ctx same listed =
        rw (same, relayed-state _ _ _) (send_command_json-AtMostOnce _ listed)
    relay_generic-AtMostOnce query ctx same listed =
        rw (same, relayed-state _ _ _)
          (send_query-AtMostOnce _ listed (with_variables-IsAt (variables_object request.envelope)))

module _ {S : Type 0} (ctx : Context S) (request : UnifiedGraphqlRequest) (s : S) where
  abbrev pub IsForwarded : String → S → Type 0
  IsForwarded field t = AtMostOnce ctx.relay_client (Forwards field request) s t

  register-AtMostOnce :
      (body : Result _ GatewayFailure)
      → IsForwarded "registerVocabularyExpression" (register_sent ctx.relay_client request body s).1
  register-AtMostOnce (err failure) = inl refl
  register-AtMostOnce (ok body) = rw (relayed-state ctx.relay_client _ _ _) (
      send_command_json-AtMostOnce ctx.relay_client request "registerVocabularyExpression"
        register_vocabulary_expression_path s _ (inl (refl, refl)))

  catalog-AtMostOnce :
      IsForwarded "vocabularyCatalog" (relay_vocabulary_catalog ctx.relay_client request s).1
  unfolding relay_vocabulary_catalog
  catalog-AtMostOnce = rw (relayed-state ctx.relay_client _ _ _) (
      send_query-AtMostOnce ctx.relay_client request "vocabularyCatalog" "/vocabulary-catalog" s _
        (inl (refl, refl)) (inl refl))

  pub relay_decision-AtMostOnce :
      (kind : GraphqlOperationKind) (field route : String)
      → Lists field route (routes_of kind)
      → IsForwarded field (relay_decision ctx (decision_of kind field route) request s).1
  unfolding relay_decision relay_register_vocabulary_expression
  relay_decision-AtMostOnce kind field route listed =
      let goal : Result String GatewayFailure × S → Type 0 = λ p. IsForwarded field p.1 in
      if_cases goal (field == "registerVocabularyExpression")
        (λ e.
          let same = (eq_iff field "registerVocabularyExpression").0 e in
          rw same (register-AtMostOnce (build_register_command_body request.envelope)))
        (λ _.
          if_cases goal (field == "vocabularyCatalog")
            (λ e. let same = (eq_iff field "vocabularyCatalog").0 e in rw same catalog-AtMostOnce)
            (λ _.
              relay_generic-AtMostOnce ctx.relay_client request field route s kind ctx refl listed))

  pub rendered-state : (p : Result String GatewayFailure × S) → (rendered ctx p).1 ≡ p.1
  rendered-state (ok body, t) = refl
  rendered-state (err failure, t) = refl

-- ===== src/Gateway/Endpoint/Guard.antt =====
-- Which requests to the gateway reach a service, and that each request is answered.
use vocastock.Prelude.{◌≡◌, ◌⊎◌, Option, ok}
use vocastock.Gateway.Allowlist.{GatewayRoutingDecision}
use vocastock.Gateway.Document.Scan.{Scan}
use vocastock.Gateway.Document.Parser.{allowlisted_operation}
use vocastock.Gateway.Request.{UnifiedGraphqlRequestEnvelope, parse_envelope}
use vocastock.Gateway.Endpoint.{Request, RenderedResponse, Context, graphql_path, unified_request}
use vocastock.Gateway.Endpoint.Forwards.{IsForwarded}

module _ {S : Type 0} (ctx : Context S) (request : Request) (s : S) where
  -- The request posts an operation of the allowlist, and the socket is as it was or as one request
  -- for that operation leaves it.
  abbrev pub ForwardsAllowed : S → Type 0
  ForwardsAllowed t =
      (envelope : UnifiedGraphqlRequestEnvelope) × (decision : GatewayRoutingDecision)
      × (request.method ≡ "POST")
      × (request.path ≡ graphql_path)
      × (parse_envelope ctx.read_envelope request.body ≡ ok envelope)
      × (allowlisted_operation envelope.operation_name envelope.query ≡ ok decision)
      × IsForwarded ctx (unified_request ctx request envelope) s decision.operation_name t

  abbrev pub Untouched : Option RenderedResponse × S → Type 0
  Untouched (response, t) = (t ≡ s) ⊎ ForwardsAllowed t

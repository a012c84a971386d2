-- ===== src/Gateway/Relay/Generic.antt =====
-- applications/backend/graphql-gateway/src/gateway_routing/downstream/generic_relay.rs, but the
-- percent encoder.
use Prim.Native.String.{◌++◌}
use vocastock.Prelude.{
  suc, ℤ, pos, negsuc, String, ◌||◌, Option, none, some, List, [], ◌∷◌, Result, ok, err, ◌>>=◌,
  ok_or, if◌then◌else◌, ◌==◌,
}
use vocastock.Text.{concat, decimal}
use vocastock.Percent.{percent_encode}
use vocastock.Json.{Value, null, object, Fields, nil, field, get_field, as_str, as_i64, unwrap_or}
use vocastock.Json as Json
use vocastock.Gateway.Failure.{GatewayFailure, downstream_invalid_response}
use vocastock.Gateway.Request.{UnifiedGraphqlRequest, variables_object}
use vocastock.Gateway.Response.{pass_through_success_response, pass_through_nullable_response}
use vocastock.Gateway.Relay.{
  RelayClient, DownstreamHttpResponse, send_query, send_command_json, relayed,
  downstream_auth_failure,
}

-- `Display` of an integer.
abbrev pub integer_text : ℤ → String
integer_text (pos n) = decimal n
integer_text (negsuc n) = concat ("-" ∷ decimal (suc n) ∷ [])

abbrev pub part_of : String → Option String → Option ℤ → List String → List String
part_of key (some raw) number parts = concat (key ∷ "=" ∷ percent_encode raw ∷ []) ∷ parts
part_of key none (some raw) parts = concat (key ∷ "=" ∷ integer_text raw ∷ []) ∷ parts
part_of key none none parts = parts

unfoldable pub parts_of : Fields → List String
parts_of nil = []
parts_of (field key value fields) = part_of key (as_str value) (as_i64 value) (parts_of fields)

-- `parts.join("&")`
unfoldable pub join_parts : String → List String → String
join_parts part [] = part
join_parts part (next ∷ parts) = part ++ ("&" ++ join_parts next parts)

abbrev pub with_parts : String → List String → String
with_parts path [] = path
with_parts path (part ∷ parts) = path ++ ("?" ++ join_parts part parts)

abbrev pub with_variables : String → Option Fields → String
with_variables path none = path
with_variables path (some variables) = with_parts path (parts_of variables)

unfoldable pub attach_variables_as_query_string : String → UnifiedGraphqlRequest → String
attach_variables_as_query_string path request =
    with_variables path (variables_object request.envelope)

-- The value that `build_command_body` writes.
unfoldable pub build_command_body : UnifiedGraphqlRequest → Value
build_command_body request =
    unwrap_or
      (Json.◌>>=◌ (variables_object request.envelope) (λ variables. get_field "input" variables))
      (object nil)

abbrev pub nullable_response : String → String → Value → Result Value GatewayFailure
nullable_response operation service null = ok (pass_through_nullable_response operation null)
nullable_response operation service payload =
    pass_through_success_response operation payload service

module _ {S : Type 0} (client : RelayClient S) (operation service : String) where
  unfoldable pub translate_query_response : DownstreamHttpResponse → Result Value GatewayFailure
  translate_query_response response =
      let payload = client.from_str response.body in
      if response.status_code == 200
      then ok_or payload (downstream_invalid_response service)
        >>= (λ value. nullable_response operation service value)
      else if response.status_code == 204
      then ok (pass_through_nullable_response operation null)
      else if response.status_code == 401
      then err (downstream_auth_failure "401 Unauthorized" payload)
      else if response.status_code == 403
      then err (downstream_auth_failure "403 Forbidden" payload)
      else err (downstream_invalid_response service)

  unfoldable pub translate_command_response : DownstreamHttpResponse → Result Value GatewayFailure
  translate_command_response response =
      let payload = client.from_str response.body in
      if response.status_code == 200 || response.status_code == 202
      then ok_or payload (downstream_invalid_response service)
        >>= (λ value. pass_through_success_response operation value service)
      else if response.status_code == 401
      then err (downstream_auth_failure "401 Unauthorized" payload)
      else if response.status_code == 403
      then err (downstream_auth_failure "403 Forbidden" payload)
      else err (downstream_invalid_response service)

module _ {S : Type 0} (client : RelayClient S) (request : UnifiedGraphqlRequest)
    (path : String) where
  unfoldable pub relay_generic_query : String → String → S → Result String GatewayFailure × S
  relay_generic_query operation service s =
      relayed client (λ response. translate_query_response client operation service response)
        service
        (send_query client (attach_variables_as_query_string path request)
          request.authorization_header request.request_correlation s)

  unfoldable pub relay_generic_command : String → String → S → Result String GatewayFailure × S
  relay_generic_command operation service s =
      relayed client (λ response. translate_command_response client operation service response)
        service
        (send_command_json client path request.authorization_header request.request_correlation
          (client.to_string (build_command_body request)) s)

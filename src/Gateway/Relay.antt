-- ===== src/Gateway/Relay.antt =====
-- applications/backend/graphql-gateway/src/gateway_routing/downstream: relay_client.rs here,
-- command_relay.rs and query_relay.rs in Services, generic_relay.rs in Generic. The socket is a
-- parameter with a state: `execute_request` of relay_client.rs. The payload of a response is a value,
-- which `relayed` writes.
pub mod Services
pub mod Generic
pub mod Failures
use Prim.Native.String.{len, ◌++◌}
use Prim.Native.String as Str
use vocastock.Prelude.{
  ℕ, String, Bool, Option, none, some, List, [], ◌∷◌, Result, ok, err, ◌>>=◌, ◌>>◌, refuse_if,
  ok_or, if◌then◌else◌, Char, code, ◌==◌, ◌++◌ as ◌+++◌,
}
use vocastock.Text.{concat, decimal, trim, is_empty, split_once, parse_u16}
use vocastock.Json.{Value, as_object, as_str, as_bool, unwrap_or}
use vocastock.Json as Json
use vocastock.Gateway.Response.{member}
use vocastock.Gateway.Failure.{
  GatewayFailure, downstream_unavailable, downstream_invalid_response, downstream_auth_failed,
}

pub record HttpTarget : Type 0 where
  pub host : String
  pub port : ℕ

pub record DownstreamHttpResponse : Type 0 where
  pub status_code : ℕ
  pub headers : List (String × String)
  pub body : String

pub data RelayClientError : Type 0 where
  invalid_base_url unavailable invalid_response : RelayClientError

pub record DownstreamRequest : Type 0 where
  pub method : String
  pub path : String
  pub headers : List (String × String)
  pub body : Option String

-- `RelayClient` with the socket at a state `S`, and `serde_json` at `Value`.
pub record RelayClient (S : Type 0) : Type 0 where
  pub command_base_url : String
  pub query_base_url : String
  pub execute_request :
      HttpTarget → DownstreamRequest → S → Result DownstreamHttpResponse RelayClientError × S
  pub from_str : String → Option Value
  pub to_string : Value → String

-- `str::strip_prefix`
unfoldable pub strip_prefix : String → String → Option String
strip_prefix Str.[] s = some s
strip_prefix (Str.◌∷◌ p prefix) Str.[] = none
strip_prefix (Str.◌∷◌ p prefix) (Str.◌∷◌ c s) =
    let later = strip_prefix prefix s in if code p == code c then later else none

unfoldable pub parse_base_url : String → Result HttpTarget RelayClientError
parse_base_url base_url = do
  without_scheme ← ok_or (strip_prefix "http://" base_url) invalid_base_url
  parts ← ok_or (split_once b':' without_scheme) invalid_base_url
  let (host, port_text) = parts
  port ← ok_or (parse_u16 port_text) invalid_base_url
  refuse_if (is_empty (trim host)) invalid_base_url
  ok (record { host = trim host; port = port })

abbrev pub authorization_of : Option String → List (String × String)
authorization_of none = []
authorization_of (some header) = ("authorization", header) ∷ []

unfoldable pub request_headers : Option String → String → Bool → ℕ → List (String × String)
request_headers authorization_header request_correlation include_json_body content_length =
    (("x-request-correlation", request_correlation) ∷ ("Connection", "close") ∷ [])
    +++ (authorization_of authorization_header
        +++ (if include_json_body
            then ("Content-Type", "application/json")
              ∷ ("Content-Length", decimal content_length)
              ∷ []
            else []))

-- A request to a service whose address can be read.
abbrev pub sent :
    {S : Type 0}
    → RelayClient S
    → Result HttpTarget RelayClientError
    → DownstreamRequest
    → S
    → Result DownstreamHttpResponse RelayClientError × S
sent client (err error) request s = (err error, s)
sent client (ok target) request s = client.execute_request target request s

module _ {S : Type 0} (client : RelayClient S) where
  unfoldable pub send_command_json :
      String
      → Option String
      → String
      → String
      → S
      → Result DownstreamHttpResponse RelayClientError × S
  send_command_json path authorization_header request_correlation body s =
      sent client (parse_base_url client.command_base_url)
        (record {
          method = "POST";
          path = path;
          headers = request_headers authorization_header request_correlation Bool.true (len body);
          body = some body;
        })
        s

  unfoldable pub send_query :
      String → Option String → String → S → Result DownstreamHttpResponse RelayClientError × S
  send_query path authorization_header request_correlation s =
      sent client (parse_base_url client.query_base_url)
        (record {
          method = "GET";
          path = path;
          headers = request_headers authorization_header request_correlation Bool.false 0;
          body = none;
        })
        s

-- `map_relay_client_error` of each relay, for its service.
unfoldable pub map_relay_error : RelayClientError → String → GatewayFailure
map_relay_error unavailable service = downstream_unavailable
map_relay_error invalid_base_url service = downstream_unavailable
map_relay_error invalid_response service = downstream_invalid_response service

abbrev pub written :
    {S : Type 0} → RelayClient S → Result Value GatewayFailure → Result String GatewayFailure
written client (err failure) = err failure
written client (ok payload) = ok (client.to_string payload)

-- What a relay makes of the exchange with its service.
unfoldable pub relayed :
    {S : Type 0}
    → RelayClient S
    → (DownstreamHttpResponse → Result Value GatewayFailure)
    → String
    → Result DownstreamHttpResponse RelayClientError × S
    → Result String GatewayFailure × S
relayed client translate service (err error, s) = (err (map_relay_error error service), s)
relayed client translate service (ok response, s) = (written client (translate response), s)

-- The `message` of a body that is a JSON object, or a general one.
abbrev pub auth_message : Option Value → String
auth_message payload =
    unwrap_or
      (Json.◌>>=◌ (Json.◌>>=◌ payload (λ value. as_object value))
        (λ fields. member as_str "message" fields))
      "downstream authentication failed"

abbrev pub auth_retryable : Option Value → Option Bool
auth_retryable payload =
    Json.◌>>=◌ (Json.◌>>=◌ payload (λ value. as_object value))
      (λ fields. member as_bool "retryable" fields)

-- `downstream_auth_failure` of command_relay.rs and generic_relay.rs, at the body that is read.
unfoldable pub downstream_auth_failure : String → Option Value → GatewayFailure
downstream_auth_failure status payload =
    downstream_auth_failed status (auth_message payload) (auth_retryable payload)

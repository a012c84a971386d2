-- ===== src/Gateway/Relay/Failures.antt =====
-- Ways to fail that tell nothing of a service, and how they combine.
pub mod Payloads
pub mod Services
use text.Mathlib.Text.{◌==◌}
use vocastock.Prelude.{
  ℕ, String, ◌≡◌, ◌⊎◌, inl, inr, refl, Bool, true, false, not, ◌&&◌, ◌||◌, Option, none, some, List,
  [], ◌∷◌, Result, ok, err, ◌>>=◌, ◌>>◌, refuse_if, ok_or, if◌then◌else◌, ◌==◌ as ◌=ℕ=◌,
}
use vocastock.Json.{Value, Fields, as_object, as_str, as_bool, as_array, get_field, is_given, null}
use vocastock.CommandApi.Contract.{service_name}
use vocastock.QueryApi.Contract as Query
use vocastock.Gateway.Failure.{GatewayFailure, downstream_invalid_response, command_failure}
use vocastock.Gateway.Failure.Laws.{
  IsDiscreet, downstream_auth_failed-IsDiscreet, command_failure-IsDiscreet,
}
use vocastock.Gateway.Response.{
  member, text_member, require_string, require_bool, require_array, require_nested_string,
  require_item, require_items, mutation_success_response, catalog_success_response,
  pass_through_success_response,
}
use vocastock.Gateway.Relay.{
  RelayClient, DownstreamHttpResponse, auth_message, auth_retryable, downstream_auth_failure,
}
use vocastock.Gateway.Relay.Services.{
  translate_command_failure, catalog_auth_failure, translate_register_response,
  translate_catalog_response,
}
use vocastock.Gateway.Relay.Generic.{
  nullable_response, translate_query_response, translate_command_response,
}

-- A failure is the fixed one for the service, which has no word of its response, or its message has
-- none of the internal texts.
abbrev pub FailsDiscreetly : {A : Type 0} → String → Result A GatewayFailure → Type 0
FailsDiscreetly service (ok a) = Unit
FailsDiscreetly service (err failure) =
    (failure ≡ downstream_invalid_response service) ⊎ IsDiscreet failure.envelope.message

module _ {A : Type 0} (service : String) where
  pub bind-FailsDiscreetly :
      {B : Type 0} (r : Result B GatewayFailure) (later : B → Result A GatewayFailure)
      → FailsDiscreetly service r
      → ((b : B) → FailsDiscreetly service (later b))
      → FailsDiscreetly service (r >>= later)
  bind-FailsDiscreetly (ok b) later h k = k b
  bind-FailsDiscreetly (err failure) later h k = h

  pub ok_or-FailsDiscreetly :
      (given : Option A)
      → FailsDiscreetly service (ok_or given (downstream_invalid_response service))
  ok_or-FailsDiscreetly none = inl refl
  ok_or-FailsDiscreetly (some a) = tt

  -- A payload that is read, and what is made of it.
  pub given-FailsDiscreetly :
      {B : Type 0} (given : Option B) (later : B → Result A GatewayFailure)
      → ((b : B) → FailsDiscreetly service (later b))
      → FailsDiscreetly service (ok_or given (downstream_invalid_response service) >>= later)
  given-FailsDiscreetly none later k = inl refl
  given-FailsDiscreetly (some b) later k = k b

  pub refuse-FailsDiscreetly :
      (b : Bool) (later : Result A GatewayFailure)
      → FailsDiscreetly service later
      → FailsDiscreetly service (refuse_if b (downstream_invalid_response service) >> later)
  refuse-FailsDiscreetly true later k = inl refl
  refuse-FailsDiscreetly false later k = k

  pub then-FailsDiscreetly :
      (first : Result (Unit {0}) GatewayFailure) (later : Result A GatewayFailure)
      → FailsDiscreetly service first
      → FailsDiscreetly service later
      → FailsDiscreetly service (first >> later)
  then-FailsDiscreetly (ok u) later h k = k
  then-FailsDiscreetly (err failure) later h k = h

pub check-FailsDiscreetly :
    (service : String) (b : Bool)
    → FailsDiscreetly service (refuse_if b (downstream_invalid_response service))
check-FailsDiscreetly service true = inl refl
check-FailsDiscreetly service false = tt

pub either-FailsDiscreetly :
    {A : Type 0} (service : String) (b : Bool) (x y : Result A GatewayFailure)
    → FailsDiscreetly service x
    → FailsDiscreetly service y
    → FailsDiscreetly service (if b then x else y)
either-FailsDiscreetly service true x y h k = h
either-FailsDiscreetly service false x y h k = k

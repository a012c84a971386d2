-- ===== src/CommandApi/Dispatch.antt =====
-- applications/backend/command-api/src/register_command_api/runtime/dispatch_port.rs
-- A port with state `D` takes the state and returns the new one beside its answer.
use vocastock.Prelude.{
  String, Bool, true, false, Option, none, some, List, [], ◌∷◌, ◌++◌, if◌then◌else◌,
}
use vocastock.Text.{contains}

pub data DispatchKind : Type 0 where
  explanation_generation image_generation retry purchase restore_purchase : DispatchKind

unfoldable pub as_str : DispatchKind → String
as_str explanation_generation = "explanation-generation"
as_str image_generation = "image-generation"
as_str retry = "retry"
as_str purchase = "purchase"
as_str restore_purchase = "restore-purchase"

pub record DispatchRequest : Type 0 where
  pub actor_reference : String
  pub idempotency_key : String
  pub normalized_text : String
  pub target_vocabulary_expression : String
  pub restart_requested : Bool
  pub kind : DispatchKind
  pub retry_target : Option String
  pub plan_code : Option String

-- `DispatchRequest::new`
unfoldable pub dispatch_request : String → String → String → String → Bool → DispatchRequest
dispatch_request actor_reference idempotency_key normalized_text target restart_requested = record {
  actor_reference = actor_reference;
  idempotency_key = idempotency_key;
  normalized_text = normalized_text;
  target_vocabulary_expression = target;
  restart_requested = restart_requested;
  kind = explanation_generation;
  retry_target = none;
  plan_code = none;
}

unfoldable pub with_kind : DispatchRequest → DispatchKind → DispatchRequest
with_kind request kind = record request { kind = kind }

unfoldable pub with_retry_target : DispatchRequest → String → DispatchRequest
with_retry_target request target = record request { retry_target = some target }

unfoldable pub with_plan_code : DispatchRequest → String → DispatchRequest
with_plan_code request plan_code = record request { plan_code = some plan_code }

pub data DispatchOutcome : Type 0 where
  not_requested accepted failed : DispatchOutcome

pub record DispatchPlan : Type 0 where
  pub dispatch_required : Bool
  pub dispatch_outcome : DispatchOutcome

abbrev pub not_requested_plan : DispatchPlan
not_requested_plan = record { dispatch_required = false; dispatch_outcome = not_requested }

abbrev pub accepted_plan : DispatchPlan
accepted_plan = record { dispatch_required = true; dispatch_outcome = accepted }

abbrev pub failed_plan : DispatchPlan
failed_plan = record { dispatch_required = true; dispatch_outcome = failed }

abbrev pub is_failed : DispatchOutcome → Bool
is_failed failed = true
is_failed _ = false

-- The trait `DispatchPort`.
pub record DispatchPort (D : Type 0) : Type 0 where
  pub dispatch : DispatchRequest → D → DispatchPlan × D

-- `InMemoryDispatchPort`: the requests in the order of their arrival.
unfoldable pub in_memory_dispatch :
    DispatchRequest → List DispatchRequest → DispatchPlan × List DispatchRequest
in_memory_dispatch request requests = (
  if contains request.idempotency_key "dispatch-fail" then failed_plan else accepted_plan,
  requests ++ request ∷ [],
)

abbrev pub in_memory_dispatch_port : DispatchPort (List DispatchRequest)
in_memory_dispatch_port = record { dispatch = in_memory_dispatch }

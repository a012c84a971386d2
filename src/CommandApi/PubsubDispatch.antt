-- ===== src/CommandApi/PubsubDispatch.antt =====
-- applications/backend/command-api/src/register_command_api/runtime/pubsub_dispatch_port.rs
-- `env::var` is the parameter `env`, the writer of `serde_json` the parameter `write`, and the
-- publisher the parameter `publish`, which sends over HTTP.
pub mod Laws
use vocastock.Prelude.{
  ℕ, String, Bool, Option, none, some, List, [], ◌∷◌, ◌++◌, Result, ok, err, if◌then◌else◌,
}
use vocastock.Text.{is_empty}
use vocastock.CommandApi.Dispatch.{
  DispatchKind, explanation_generation, image_generation, retry, purchase, restore_purchase, as_str,
  DispatchRequest, DispatchPlan, accepted_plan, failed_plan, DispatchPort,
}
use vocastock.PubSub.Message.{PubSubMessage, message_of, with_attribute, PubSubPublishError}

pub data JsonValue : Type 0 where
  text : String → JsonValue
  flag : Bool → JsonValue

abbrev or_default : Option String → String → String
or_default none default = default
or_default (some value) default = value

unfoldable pub topic_for : (String → Option String) → DispatchKind → String
topic_for env explanation_generation =
    or_default (env "VOCAS_PUBSUB_TOPIC_EXPLANATION") "workflow.explanation-jobs"
topic_for env image_generation = or_default (env "VOCAS_PUBSUB_TOPIC_IMAGE") "workflow.image-jobs"
topic_for env retry = or_default (env "VOCAS_PUBSUB_TOPIC_RETRY") "workflow.retry-jobs"
topic_for env purchase = or_default (env "VOCAS_PUBSUB_TOPIC_PURCHASE") "billing.purchase-jobs"
topic_for env restore_purchase =
    or_default (env "VOCAS_PUBSUB_TOPIC_PURCHASE") "billing.purchase-jobs"

abbrev given_field : String → Option String → List (String × JsonValue)
given_field name none = []
given_field name (some value) = (name, text value) ∷ []

-- The object of `build_dispatch_payload`, with its fields as they are inserted.
unfoldable pub build_dispatch_payload : DispatchRequest → List (String × JsonValue)
build_dispatch_payload request =
    (("actor", text request.actor_reference)
      ∷ ("idempotencyKey", text request.idempotency_key)
      ∷ ("kind", text (as_str request.kind))
      ∷ ("vocabularyExpression", text request.target_vocabulary_expression)
      ∷ ("restartRequested", flag request.restart_requested)
      ∷ [])
    ++ (if is_empty request.normalized_text
        then []
        else ("normalizedText", text request.normalized_text) ∷ [])
    ++ given_field "retryTarget" request.retry_target
    ++ given_field "planCode" request.plan_code

abbrev with_given : PubSubMessage → String → Option String → PubSubMessage
with_given message key none = message
with_given message key (some value) = with_attribute message key value

module _ (write : List (String × JsonValue) → List ℕ) where
  unfoldable pub build_dispatch_message : DispatchRequest → PubSubMessage
  build_dispatch_message request =
      let message =
        with_attribute
          (with_attribute
            (with_attribute (message_of (write (build_dispatch_payload request))) "actor"
              request.actor_reference)
            "idempotencyKey" request.idempotency_key)
          "kind" (as_str request.kind) in
      with_given (with_given message "retryTarget" request.retry_target) "planCode"
        request.plan_code

  module _ {D : Type 0} (env : String → Option String)
      (publish : String
        → List PubSubMessage
        → D
        → Result (List String) PubSubPublishError × D) where
    abbrev plan_of : Result (List String) PubSubPublishError → DispatchPlan
    plan_of (ok ids) = accepted_plan
    plan_of (err error) = failed_plan

    unfoldable pub pubsub_dispatch : DispatchRequest → D → DispatchPlan × D
    pubsub_dispatch request d =
        let (answer, d') =
          publish (topic_for env request.kind) (build_dispatch_message request ∷ []) d in
        (plan_of answer, d')

    abbrev pub pubsub_dispatch_port : DispatchPort D
    pubsub_dispatch_port = record { dispatch = pubsub_dispatch }

-- ===== src/PubSub/Message.antt =====
-- The messages of packages/rust/shared-pubsub/src/lib.rs, and the errors of a publisher.
use vocastock.Prelude.{ℕ, String, List, [], ◌∷◌, ◌++◌}

pub record PubSubMessage : Type 0 where
  pub bytes : List ℕ
  pub attributes : List (String × String)

-- `PubSubMessage::new`
unfoldable pub message_of : List ℕ → PubSubMessage
message_of bytes = record { bytes = bytes; attributes = [] }

unfoldable pub with_attribute : PubSubMessage → String → String → PubSubMessage
with_attribute message key value = record message {
  attributes = message.attributes ++ (key, value) ∷ [];
}

pub data PubSubPublishError : Type 0 where
  transport invalid_response : PubSubPublishError
  http_status : ℕ → PubSubPublishError

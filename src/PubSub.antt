-- ===== src/PubSub.antt =====
-- packages/rust/shared-pubsub: the publisher of messages. The module below is named for its part.
pub mod Base64
pub mod Message
mod Tests

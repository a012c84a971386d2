-- ===== src/CommandApi/Request.antt =====
-- applications/backend/command-api/src/register_command_api/command/request.rs
-- `serde_json::from_str` is the parameter `from_json` of `parse_register_command`, and
-- `str::to_lowercase` the parameter `to_lowercase`, whose Unicode tables are not written out.
pub mod Laws
use text.Mathlib.Text.{◌==◌}
use vocastock.Prelude.{
  String, Char, Bool, true, not, ◌&&◌, Option, none, some, Result, ok, ◌>>=◌, ◌>>◌, refuse_if,
  ok_or, if◌then◌else◌,
}
use vocastock.Text.{
  trim, is_empty, is_control, is_whitespace, any_char, split_whitespace, join_spaces,
}
use vocastock.Auth.{VerifiedActorContext}

pub record RegisterVocabularyBody : Type 0 where
  pub text : String
  pub start_explanation : Option Bool

pub record RegisterVocabularyCommandEnvelope : Type 0 where
  pub command : String
  pub actor : String
  pub idempotency_key : String
  pub body : RegisterVocabularyBody

pub record RegisterVocabularyExpressionCommand : Type 0 where
  pub actor : VerifiedActorContext
  pub idempotency_key : String
  pub normalized_text : String
  pub start_explanation : Bool

pub data RequestValidationError : Type 0 where
  invalid_json unsupported_command missing_actor ownership_mismatch : RequestValidationError
  missing_idempotency_key missing_text invalid_text : RequestValidationError

unfoldable pub code : RequestValidationError → String
code ownership_mismatch = "ownership-mismatch"
code _ = "validation-failed"

unfoldable pub message : RequestValidationError → String
message invalid_json = "request body must be valid JSON"
message unsupported_command = "unsupported command"
message missing_actor = "actor handoff is required"
message ownership_mismatch = "actor handoff does not match bearer token"
message missing_idempotency_key = "idempotencyKey is required"
message missing_text = "body.text is required"
message invalid_text = "body.text contains invalid characters"

-- `character.is_control() && !character.is_whitespace()`
unfoldable pub is_forbidden : Char → Bool
is_forbidden character = is_control character && not (is_whitespace character)

module _ (to_lowercase : String → String) where
  unfoldable pub normalize_text : String → Option String
  normalize_text raw_text =
      let collapsed = join_spaces (split_whitespace raw_text) in
      if any_char is_forbidden raw_text
      then none
      else if is_empty collapsed
      then none
      else some (to_lowercase collapsed)

  -- The checks behind the JSON parser, in the order of the source.
  unfoldable pub validate_register_envelope :
      RegisterVocabularyCommandEnvelope
      → VerifiedActorContext
      → Result RegisterVocabularyExpressionCommand RequestValidationError
  validate_register_envelope envelope actor_context = do
    refuse_if (not (envelope.command == "registerVocabularyExpression")) unsupported_command
    let claimed_actor = trim envelope.actor
    refuse_if (is_empty claimed_actor) missing_actor
    refuse_if (not (claimed_actor == actor_context.actor.as_str)) ownership_mismatch
    let idempotency_key = trim envelope.idempotency_key
    refuse_if (is_empty idempotency_key) missing_idempotency_key
    let raw_text = envelope.body.text
    normalized_text ←
        ok_or (normalize_text raw_text)
          (if is_empty (trim raw_text) then missing_text else invalid_text)
    ok (record {
      actor = actor_context;
      idempotency_key = idempotency_key;
      normalized_text = normalized_text;
      start_explanation = elim envelope.body.start_explanation [ none ↦ true | some b ↦ b ];
    })

  module _ (from_json : String → Option RegisterVocabularyCommandEnvelope) where
    unfoldable pub parse_register_command :
        String
        → VerifiedActorContext
        → Result RegisterVocabularyExpressionCommand RequestValidationError
    parse_register_command body actor_context = do
      envelope ← ok_or (from_json body) invalid_json
      validate_register_envelope envelope actor_context

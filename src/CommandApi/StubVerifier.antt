-- ===== src/CommandApi/StubVerifier.antt =====
-- applications/backend/command-api/src/register_command_api/runtime/stub_token_verifier.rs
use text.Mathlib.Text.{◌==◌}
use vocastock.Prelude.{String, [], ◌∷◌, Result, ok, err, if◌then◌else◌}
use vocastock.Text.{concat}
use vocastock.Auth.{
  VerifiedActorContext, SessionState, active, TokenVerificationError, missing_token, invalid_token,
  reauth_required,
}

unfoldable pub seeded_actor_context : String → String → String → SessionState → VerifiedActorContext
seeded_actor_context actor auth_account session session_state = record {
  actor = record { as_str = actor };
  auth_account = record { as_str = auth_account };
  session = record { as_str = session };
  session_state = session_state;
}

unfoldable pub sample_actor_context : String → VerifiedActorContext
sample_actor_context actor_reference = record {
  actor = record { as_str = actor_reference };
  auth_account = record { as_str = concat ("auth:" ∷ actor_reference ∷ []) };
  session = record { as_str = concat ("session:" ∷ actor_reference ∷ []) };
  session_state = active;
}

unfoldable pub stub_verify : String → Result VerifiedActorContext TokenVerificationError
stub_verify bearer_token =
    if bearer_token == ""
    then err missing_token
    else if bearer_token == "valid-learner-token"
    then ok (sample_actor_context "actor:learner")
    else if bearer_token == "valid-other-token"
    then ok (sample_actor_context "actor:other")
    else if bearer_token == "valid-demo-token"
    then ok (seeded_actor_context "stub-actor-demo" "stub-account-demo" "stub-session-demo" active)
    else if bearer_token == "valid-free-token"
    then ok (seeded_actor_context "stub-actor-free" "stub-account-free" "stub-session-free" active)
    else if bearer_token == "reauth-token"
    then err reauth_required
    else err invalid_token

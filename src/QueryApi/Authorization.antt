-- ===== src/QueryApi/Authorization.antt =====
-- applications/backend/query-api/src/query_catalog_read/runtime/authorization.rs and
-- stub_token_verifier.rs. The functions have the bodies of their namesakes in command-api.
use text.Mathlib.Text.{◌==◌}
use vocastock.Prelude.{String, Option, Result, ok, err, ◌>>=◌, if◌then◌else◌}
use vocastock.Auth.{
  VerifiedActorContext, active, TokenVerificationError, missing_token, invalid_token,
  reauth_required, TokenVerifier,
}
use vocastock.CommandApi.Endpoint.Failures as Command
use vocastock.CommandApi.StubVerifier.{sample_actor_context, seeded_actor_context}

unfoldable pub extract_bearer_token : Option String → Result String TokenVerificationError
extract_bearer_token authorization_header = Command.extract_bearer_token authorization_header

-- The two steps that each reader begins with: the bearer token, and the verifier's answer to it.
unfoldable pub authenticate :
    Option String → TokenVerifier → Result VerifiedActorContext TokenVerificationError
authenticate authorization_header verifier = do
  bearer_token ← extract_bearer_token authorization_header
  verifier bearer_token

unfoldable pub stub_verify : String → Result VerifiedActorContext TokenVerificationError
stub_verify bearer_token =
    if bearer_token == ""
    then err missing_token
    else if bearer_token == "valid-learner-token"
    then ok (sample_actor_context "actor:learner")
    else if bearer_token == "valid-empty-token"
    then ok (sample_actor_context "actor:empty")
    else if bearer_token == "valid-other-token"
    then ok (sample_actor_context "actor:other")
    else if bearer_token == "valid-demo-token"
    then ok (seeded_actor_context "stub-actor-demo" "stub-account-demo" "stub-session-demo" active)
    else if bearer_token == "valid-free-token"
    then ok (seeded_actor_context "stub-actor-free" "stub-account-free" "stub-session-free" active)
    else if bearer_token == "reauth-token"
    then err reauth_required
    else err invalid_token

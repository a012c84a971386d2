-- ===== src/QueryApi/Handoff.antt =====
-- applications/backend/query-api/src/query_catalog_read/actor_handoff_status: model.rs and read.rs.
use vocastock.Prelude.{String, Option, none, some, Result, ok, err, ◌>>=◌, map_err}
use vocastock.Auth.{
  VerifiedActorContext, SessionState, TokenVerificationError, message as token_message,
  TokenVerifier,
}
use vocastock.QueryApi.Authorization.{extract_bearer_token}

pub data SessionStateCode : Type 0 where
  active_code inactive_code revoked_code : SessionStateCode

unfoldable pub from_session_state : SessionState → SessionStateCode
from_session_state SessionState.active = active_code
from_session_state SessionState.reauth_required = inactive_code

pub record ActorHandoffStatusView : Type 0 where
  pub actor : Option String
  pub session : Option String
  pub auth_account : Option String
  pub session_state : SessionStateCode

unfoldable pub inactive_reauth_view : ActorHandoffStatusView
inactive_reauth_view = record {
  actor = none;
  session = none;
  auth_account = none;
  session_state = inactive_code;
}

pub data ActorHandoffStatusError : Type 0 where
  auth : TokenVerificationError → ActorHandoffStatusError

unfoldable pub user_message : ActorHandoffStatusError → String
unfolding token_message
user_message (auth error) = token_message error

unfoldable pub read_actor_handoff_status : VerifiedActorContext → ActorHandoffStatusView
read_actor_handoff_status actor_context = record {
  actor = some actor_context.actor.as_str;
  session = some actor_context.session.as_str;
  auth_account = some actor_context.auth_account.as_str;
  session_state = from_session_state actor_context.session_state;
}

unfoldable pub handoff_of :
    Result VerifiedActorContext TokenVerificationError
    → Result ActorHandoffStatusView ActorHandoffStatusError
handoff_of (ok actor_context) = ok (read_actor_handoff_status actor_context)
handoff_of (err TokenVerificationError.reauth_required) = ok inactive_reauth_view
handoff_of (err error) = err (auth error)

unfoldable pub read_actor_handoff_status_from_authorization_header :
    Option String → TokenVerifier → Result ActorHandoffStatusView ActorHandoffStatusError
read_actor_handoff_status_from_authorization_header authorization_header verifier = do
  bearer_token ← map_err auth (extract_bearer_token authorization_header)
  handoff_of (verifier bearer_token)

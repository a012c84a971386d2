-- ===== src/Auth.antt =====
-- packages/rust/shared-auth/src/lib.rs: verified actors, and what a token verifier answers.
use vocastock.Prelude.{String, Bool, true, false, Result}

pub record ActorReference : Type 0 where
  pub as_str : String

pub record AuthAccountReference : Type 0 where
  pub as_str : String

pub record SessionReference : Type 0 where
  pub as_str : String

pub data SessionState : Type 0 where
  active reauth_required : SessionState

pub record VerifiedActorContext : Type 0 where
  pub actor : ActorReference
  pub auth_account : AuthAccountReference
  pub session : SessionReference
  pub session_state : SessionState

is_active_state : SessionState → Bool
is_active_state active = true
is_active_state reauth_required = false

unfoldable pub is_active : VerifiedActorContext → Bool
unfolding is_active_state
is_active context = is_active_state context.session_state

pub data TokenVerificationError : Type 0 where
  missing_token invalid_token reauth_required : TokenVerificationError

unfoldable pub message : TokenVerificationError → String
message missing_token = "missing bearer token"
message invalid_token = "invalid bearer token"
message reauth_required = "session requires reauthentication"

-- `TokenVerificationPort`: the answer to a bearer token.
abbrev pub TokenVerifier : Type 0
TokenVerifier = String → Result VerifiedActorContext TokenVerificationError

-- ===== src/QueryApi/Detail.antt =====
-- What explanation_detail/read.rs, image_detail/read.rs and vocabulary_expression_detail/read.rs of
-- applications/backend/query-api/src/query_catalog_read share: the three error types have the same
-- variants, and the three readers the same steps around the record and the view of their resource.
use vocastock.Prelude.{
  String, not, Option, none, some, Result, ok, ◌>>=◌, ◌>>◌, refuse_if, map_err, List, [], ◌∷◌,
}
use vocastock.Text.{trim, is_empty}
use vocastock.Auth.{
  VerifiedActorContext, is_active, TokenVerificationError, message as token_message, TokenVerifier,
}
use vocastock.QueryApi.Authorization.{authenticate}

pub data DetailError : Type 0 where
  auth : TokenVerificationError → DetailError
  inactive_session : DetailError
  missing_identifier : DetailError

unfoldable pub user_message : DetailError → String
unfolding token_message
user_message (auth error) = token_message error
user_message inactive_session = "session is not active"
user_message missing_identifier = "identifier is required"

abbrev pub mapped : {A B : Type 0} → (A → B) → Option A → Option B
mapped f none = none
mapped f (some a) = some (f a)

abbrev pub mapped_all : {A B : Type 0} → (A → B) → List A → List B
mapped_all f [] = []
mapped_all f (a ∷ s) = f a ∷ mapped_all f s

module _ {R V : Type 0} (map_record : R → V) where
  unfoldable pub read_detail :
      VerifiedActorContext
      → String
      → (VerifiedActorContext → String → Option R)
      → Result (Option V) DetailError
  read_detail actor_context identifier record_for = do
    refuse_if (not (is_active actor_context)) inactive_session
    refuse_if (is_empty (trim identifier)) missing_identifier
    ok (mapped map_record (record_for actor_context identifier))

  unfoldable pub read_detail_from_authorization_header :
      Option String
      → String
      → TokenVerifier
      → (VerifiedActorContext → String → Option R)
      → Result (Option V) DetailError
  read_detail_from_authorization_header authorization_header identifier verifier record_for = do
    actor_context ← map_err auth (authenticate authorization_header verifier)
    read_detail actor_context identifier record_for

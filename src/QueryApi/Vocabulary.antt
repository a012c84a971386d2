-- ===== src/QueryApi/Vocabulary.antt =====
-- applications/backend/query-api/src/query_catalog_read/vocabulary_expression_detail: model.rs,
-- source.rs and read.rs.
use text.Mathlib.Text.{◌==◌}
use vocastock.Prelude.{String, Option, Result, if◌then◌else◌}
use vocastock.Auth.{VerifiedActorContext, TokenVerifier}
use vocastock.QueryApi.Detail.{DetailError, read_detail_from_authorization_header}

pub data RegistrationStatus : Type 0 where
  active archived : RegistrationStatus

pub data GenerationStatus : Type 0 where
  pending running retry_scheduled timed_out succeeded failed_final dead_lettered : GenerationStatus

unfoldable pub parse_registration : String → RegistrationStatus
parse_registration raw = if raw == "archived" then archived else active

unfoldable pub parse_generation : String → GenerationStatus
parse_generation raw =
    if raw == "running"
    then running
    else if raw == "retryScheduled"
    then retry_scheduled
    else if raw == "timedOut"
    then timed_out
    else if raw == "succeeded"
    then succeeded
    else if raw == "failedFinal"
    then failed_final
    else if raw == "deadLettered"
    then dead_lettered
    else pending

pub record VocabularyExpressionDetailRecord : Type 0 where
  pub identifier : String
  pub text : String
  pub registration_status : String
  pub explanation_status : String
  pub image_status : String
  pub current_explanation : Option String
  pub current_image : Option String
  pub registered_at : String

pub record VocabularyExpressionEntryView : Type 0 where
  pub identifier : String
  pub text : String
  pub registration_status : RegistrationStatus
  pub explanation_status : GenerationStatus
  pub image_status : GenerationStatus
  pub current_explanation : Option String
  pub current_image : Option String
  pub registered_at : String

unfoldable pub map_record : VocabularyExpressionDetailRecord → VocabularyExpressionEntryView
map_record r = record {
  identifier = r.identifier;
  text = r.text;
  registration_status = parse_registration r.registration_status;
  explanation_status = parse_generation r.explanation_status;
  image_status = parse_generation r.image_status;
  current_explanation = r.current_explanation;
  current_image = r.current_image;
  registered_at = r.registered_at;
}

-- `VocabularyExpressionDetailSource`
abbrev pub VocabularyExpressionDetailSource : Type 0
VocabularyExpressionDetailSource =
    VerifiedActorContext → String → Option VocabularyExpressionDetailRecord

unfoldable pub read_vocabulary_expression_detail_from_authorization_header :
    Option String
    → String
    → TokenVerifier
    → VocabularyExpressionDetailSource
    → Result (Option VocabularyExpressionEntryView) DetailError
read_vocabulary_expression_detail_from_authorization_header =
    read_detail_from_authorization_header map_record

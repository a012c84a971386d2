-- ===== src/QueryApi/Explanation.antt =====
-- applications/backend/query-api/src/query_catalog_read/explanation_detail: model.rs, source.rs and
-- read.rs.
use text.Mathlib.Text.{◌==◌}
use vocastock.Prelude.{String, ℤ, Option, List, Result, if◌then◌else◌}
use vocastock.Auth.{VerifiedActorContext, TokenVerifier}
use vocastock.QueryApi.Detail.{DetailError, mapped_all, read_detail_from_authorization_header}

pub data FrequencyLevel : Type 0 where
  often sometimes rarely hardly_ever : FrequencyLevel

pub data SophisticationLevel : Type 0 where
  very_basic basic intermediate advanced : SophisticationLevel

unfoldable pub parse_frequency : String → FrequencyLevel
parse_frequency raw =
    if raw == "often"
    then often
    else if raw == "rarely"
    then rarely
    else if raw == "hardlyEver"
    then hardly_ever
    else sometimes

unfoldable pub parse_sophistication : String → SophisticationLevel
parse_sophistication raw =
    if raw == "veryBasic"
    then very_basic
    else if raw == "intermediate"
    then intermediate
    else if raw == "advanced"
    then advanced
    else basic

pub record PronunciationRecord : Type 0 where
  pub weak : String
  pub strong : String

pub record SimilarityRecord : Type 0 where
  pub value : String
  pub meaning : String
  pub comparison : String

pub record SenseExampleRecord : Type 0 where
  pub value : String
  pub meaning : String
  pub pronunciation : Option String

pub record CollocationRecord : Type 0 where
  pub value : String
  pub meaning : String

pub record SenseRecord : Type 0 where
  pub identifier : String
  pub order : ℤ
  pub label : String
  pub situation : String
  pub nuance : String
  pub examples : List SenseExampleRecord
  pub collocations : List CollocationRecord

pub record ExplanationDetailRecord : Type 0 where
  pub identifier : String
  pub vocabulary_expression : String
  pub text : String
  pub pronunciation : PronunciationRecord
  pub frequency : String
  pub sophistication : String
  pub etymology : String
  pub similarities : List SimilarityRecord
  pub senses : List SenseRecord

pub record PronunciationView : Type 0 where
  pub weak : String
  pub strong : String

pub record SimilarExpressionView : Type 0 where
  pub value : String
  pub meaning : String
  pub comparison : String

pub record SenseExampleView : Type 0 where
  pub value : String
  pub meaning : String
  pub pronunciation : Option String

pub record CollocationView : Type 0 where
  pub value : String
  pub meaning : String

pub record SenseView : Type 0 where
  pub identifier : String
  pub order : ℤ
  pub label : String
  pub situation : String
  pub nuance : String
  pub examples : List SenseExampleView
  pub collocations : List CollocationView

pub record ExplanationDetailView : Type 0 where
  pub identifier : String
  pub vocabulary_expression : String
  pub text : String
  pub pronunciation : PronunciationView
  pub frequency : FrequencyLevel
  pub sophistication : SophisticationLevel
  pub etymology : String
  pub similarities : List SimilarExpressionView
  pub senses : List SenseView

unfoldable pub map_pronunciation : PronunciationRecord → PronunciationView
map_pronunciation r = record { weak = r.weak; strong = r.strong }

unfoldable pub map_similarity : SimilarityRecord → SimilarExpressionView
map_similarity r = record { value = r.value; meaning = r.meaning; comparison = r.comparison }

unfoldable pub map_example : SenseExampleRecord → SenseExampleView
map_example r = record { value = r.value; meaning = r.meaning; pronunciation = r.pronunciation }

unfoldable pub map_collocation : CollocationRecord → CollocationView
map_collocation r = record { value = r.value; meaning = r.meaning }

unfoldable pub map_sense : SenseRecord → SenseView
map_sense r = record {
  identifier = r.identifier;
  order = r.order;
  label = r.label;
  situation = r.situation;
  nuance = r.nuance;
  examples = mapped_all map_example r.examples;
  collocations = mapped_all map_collocation r.collocations;
}

unfoldable pub map_record : ExplanationDetailRecord → ExplanationDetailView
map_record r = record {
  identifier = r.identifier;
  vocabulary_expression = r.vocabulary_expression;
  text = r.text;
  pronunciation = map_pronunciation r.pronunciation;
  frequency = parse_frequency r.frequency;
  sophistication = parse_sophistication r.sophistication;
  etymology = r.etymology;
  similarities = mapped_all map_similarity r.similarities;
  senses = mapped_all map_sense r.senses;
}

-- `ExplanationDetailSource`
abbrev pub ExplanationDetailSource : Type 0
ExplanationDetailSource = VerifiedActorContext → String → Option ExplanationDetailRecord

unfoldable pub read_explanation_detail_from_authorization_header :
    Option String
    → String
    → TokenVerifier
    → ExplanationDetailSource
    → Result (Option ExplanationDetailView) DetailError
read_explanation_detail_from_authorization_header = read_detail_from_authorization_header map_record

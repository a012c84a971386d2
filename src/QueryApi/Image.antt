-- ===== src/QueryApi/Image.antt =====
-- applications/backend/query-api/src/query_catalog_read/image_detail: model.rs, source.rs and
-- read.rs.
use vocastock.Prelude.{String, Option, Result}
use vocastock.Auth.{VerifiedActorContext, TokenVerifier}
use vocastock.QueryApi.Detail.{DetailError, read_detail_from_authorization_header}

pub record ImageDetailRecord : Type 0 where
  pub identifier : String
  pub explanation : String
  pub asset_reference : String
  pub description : String
  pub sense_identifier : Option String
  pub sense_label : Option String

pub record ImageDetailView : Type 0 where
  pub identifier : String
  pub explanation : String
  pub asset_reference : String
  pub description : String
  pub sense_identifier : Option String
  pub sense_label : Option String

unfoldable pub map_record : ImageDetailRecord → ImageDetailView
map_record r = record {
  identifier = r.identifier;
  explanation = r.explanation;
  asset_reference = r.asset_reference;
  description = r.description;
  sense_identifier = r.sense_identifier;
  sense_label = r.sense_label;
}

-- `ImageDetailSource`
abbrev pub ImageDetailSource : Type 0
ImageDetailSource = VerifiedActorContext → String → Option ImageDetailRecord

unfoldable pub read_image_detail_from_authorization_header :
    Option String
    → String
    → TokenVerifier
    → ImageDetailSource
    → Result (Option ImageDetailView) DetailError
read_image_detail_from_authorization_header = read_detail_from_authorization_header map_record

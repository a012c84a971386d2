-- ===== src/Percent/Tests.antt =====
-- Concrete texts through the percent coding.
use vocastock.Prelude.{◌≡◌, some}
use vocastock.Percent.{percent_encode, percent_decode}
use vocastock.Percent.Laws.{
  AllChars, IsUrlSafe, percent_decode-percent_encode, percent_encode-AllChars,
}

percent_decode-percent_encode_example :
    percent_decode (percent_encode "café+50% / ☕") ≡ some "café+50% / ☕"
percent_decode-percent_encode_example = percent_decode-percent_encode "café+50% / ☕"

percent_encode-AllChars_example : AllChars IsUrlSafe (percent_encode "café+50% / ☕")
percent_encode-AllChars_example = percent_encode-AllChars "café+50% / ☕"

-- ===== src/PubSub/Tests.antt =====
-- Runs of the encoder, and its theorem at a run.
use mathlib.Core.List.{[], ◌∷◌}
use vocastock.Prelude.{ℕ, ◌≡◌, refl, List, arith}
use vocastock.PubSub.Base64.{combined, char_at, encode_base64}
use vocastock.PubSub.Base64.Laws.{decode_base64, decode_base64-encode_base64}

abbrev fooba : List ℕ
fooba = b'f' ∷ b'o' ∷ b'o' ∷ b'b' ∷ b'a' ∷ []

fooba_encoded : encode_base64 fooba ≡ "Zm9vYmE="
unfolding encode_base64 combined char_at
fooba_encoded = refl

foob_encoded : encode_base64 (b'f' ∷ b'o' ∷ b'o' ∷ b'b' ∷ []) ≡ "Zm9vYg=="
unfolding encode_base64 combined char_at
foob_encoded = refl

decode_base64-encode_base64_example : decode_base64 (encode_base64 fooba) ≡ fooba
decode_base64-encode_base64_example =
    decode_base64-encode_base64 fooba
      (omega arith, (omega arith, (omega arith, (omega arith, (omega arith, tt)))))

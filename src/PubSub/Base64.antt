-- ===== src/PubSub/Base64.antt =====
-- `encode_base64` of packages/rust/shared-pubsub/src/lib.rs. A byte is a number; `|` of shifted
-- bytes is their sum, a shift to the right is a division and `& 0x3F` a remainder.
pub mod Laws
use Prim.Native.String.{String, [], ◌∷◌}
use mathlib.Core.List.{[], ◌∷◌}
use vocastock.Prelude.{ℕ, zero, suc, ◌+◌, ◌*◌, ◌/◌, ◌%◌, Char, List}

abbrev pub alphabet : String
alphabet = "ABCDEFGHIJKLMNOPQRSTUVWXYZabcdefghijklmnopqrstuvwxyz0123456789+/"

-- The character at an index; the indices of the encoder are less than 64.
unfoldable pub char_at : String → ℕ → Char
char_at [] n = "="
char_at (c ∷ s) zero = c
char_at (c ∷ s) (suc n) = char_at s n

unfoldable pub combined : ℕ → ℕ → ℕ → ℕ
combined a b c = a * 65536 + b * 256 + c

unfoldable pub encode_base64 : List ℕ → String
encode_base64 (a ∷ b ∷ c ∷ rest) =
    let n = combined a b c in
    char_at alphabet ((n / 262144) % 64)
    ∷ (char_at alphabet ((n / 4096) % 64)
        ∷ (char_at alphabet ((n / 64) % 64) ∷ (char_at alphabet (n % 64) ∷ encode_base64 rest)))
encode_base64 (a ∷ b ∷ []) =
    let n = combined a b 0 in
    char_at alphabet ((n / 262144) % 64)
    ∷ (char_at alphabet ((n / 4096) % 64) ∷ (char_at alphabet ((n / 64) % 64) ∷ ("=" ∷ "")))
encode_base64 (a ∷ []) =
    let n = combined a 0 0 in
    char_at alphabet ((n / 262144) % 64) ∷ (char_at alphabet ((n / 4096) % 64) ∷ ("=" ∷ ("=" ∷ "")))
encode_base64 [] = ""

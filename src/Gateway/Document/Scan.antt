-- ===== src/Gateway/Document/Scan.antt =====
-- operation_allowlist.rs: the functions that pass over a part of the document.
use vocastock.Prelude.{
  ℕ, suc, ◌-◌, String, Char, code, Bool, false, ◌&&◌, ◌||◌, Option, none, some, List, [], ◌∷◌,
  length, ltb, leb, ◌==◌, if◌then◌else◌, Result, ok, err, Round, stop, next, loop,
}
use Prim.Native.String as Str
use vocastock.Gateway.Failure.{GatewayFailure, validation_failed}

abbrev pub Document : Type 0
Document = List Char

-- A refusal of the document, or the mark of a loop that is out of fuel.
pub data ScanError : Type 0 where
  refused : GatewayFailure → ScanError
  out_of_fuel : ScanError

abbrev pub Scan : Type 0 → Type 0
Scan A = Result A ScanError

abbrev pub invalid : {A : Type 0} → String → Scan A
invalid message = err (refused (validation_failed message))

-- A loop over the document with enough fuel for one round per character.
abbrev pub ended : {A : Type 0} → Option (Scan A) → Scan A
ended none = err out_of_fuel
ended (some result) = result

-- A round that goes on behind what a scan has passed over.
abbrev pub go_on : {S R : Type 0} → Scan Document → (Document → S) → Round S (Scan R)
go_on (ok rest) state = next (state rest)
go_on (err e) state = stop (err e)

unfoldable pub is_ascii_whitespace : Char → Bool
is_ascii_whitespace c =
    code c == b' ' || code c == b'\t' || code c == b'\n' || code c == 0x0c || code c == b'\r'

unfoldable pub is_identifier_start : Char → Bool
is_identifier_start c =
    (leb b'a' (code c) && leb (code c) b'z')
    || (leb b'A' (code c) && leb (code c) b'Z')
    || code c == b'_'

unfoldable pub is_identifier_part : Char → Bool
is_identifier_part c = is_identifier_start c || (leb b'0' (code c) && leb (code c) b'9')

-- The text of a slice of the document.
unfoldable pub text_of : Document → String
text_of [] = ""
text_of (c ∷ s) = Str.◌∷◌ c (text_of s)

unfoldable pub chars_of : String → Document
chars_of Str.[] = []
chars_of (Str.◌∷◌ c s) = c ∷ chars_of s

unfoldable pub skip_comment : Document → Document
skip_comment [] = []
skip_comment (c ∷ s) = let later = skip_comment s in if code c == b'\n' then c ∷ s else later

-- `skip_string` behind the opening quote; a backslash passes over the character behind it.
unfoldable pub string_tail : Document → Scan Document
string_tail [] = invalid "string literal must be terminated"
string_tail (c ∷ []) = if code c == b'"' then ok [] else invalid "string literal must be terminated"
string_tail (c ∷ d ∷ s) =
    let escaped = string_tail s in
    let later = string_tail (d ∷ s) in
    if code c == b'\\' then escaped else if code c == b'"' then ok (d ∷ s) else later

unfoldable pub skip_string : Document → Scan Document
skip_string [] = invalid "string literal must be terminated"
skip_string (c ∷ s) = string_tail s

unfoldable pub skip_ignored_round : Document → Round Document (Scan Document)
skip_ignored_round [] = stop (ok [])
skip_ignored_round (c ∷ s) =
    if is_ascii_whitespace c || code c == b','
    then next s
    else if code c == b'#'
    then next (skip_comment (c ∷ s))
    else stop (ok (c ∷ s))

unfoldable pub skip_ignored : Document → Scan Document
skip_ignored s = ended (loop skip_ignored_round (suc (length s)) s)

-- The state of `skip_group`: its depth and what is left.
unfoldable pub skip_group_round : ℕ → ℕ → ℕ × Document → Round (ℕ × Document) (Scan Document)
skip_group_round opening closing (depth, []) =
    stop (invalid "GraphQL document contains an unterminated group")
skip_group_round opening closing (depth, c ∷ s) =
    if code c == b'"'
    then go_on (skip_string (c ∷ s)) (λ rest. (depth, rest))
    else if code c == opening
    then next (suc depth, s)
    else if code c == closing
    then if depth - 1 == 0 then stop (ok s) else next (depth - 1, s)
    else if code c == b'#'
    then next (depth, skip_comment (c ∷ s))
    else next (depth, s)

unfoldable pub skip_group : ℕ → ℕ → Document → Scan Document
skip_group opening closing s =
    ended (loop (skip_group_round opening closing) (suc (length s)) (0, s))

unfoldable pub identifier_tail : Document → Document × Document
identifier_tail [] = ([], [])
identifier_tail (c ∷ s) =
    let (name, rest) = identifier_tail s in
    if is_identifier_part c then (c ∷ name, rest) else ([], c ∷ s)

unfoldable pub parse_identifier : Document → Option (Document × Document)
parse_identifier [] = none
parse_identifier (c ∷ s) =
    let (name, rest) = identifier_tail s in
    if is_identifier_start c then some (c ∷ name, rest) else none

-- What stands behind the keyword, where the document begins with it and no identifier goes on.
unfoldable pub behind_keyword : Document → Document → Option Document
behind_keyword [] [] = some []
behind_keyword [] (c ∷ s) = if is_identifier_part c then none else some (c ∷ s)
behind_keyword (k ∷ keyword) [] = none
behind_keyword (k ∷ keyword) (c ∷ s) =
    let later = behind_keyword keyword s in if code k == code c then later else none

-- The document begins with the character.
unfoldable pub begins_with : ℕ → Document → Bool
begins_with n [] = false
begins_with n (c ∷ s) = code c == n

-- The first characters of `s`, up to where `rest` begins.
unfoldable pub slice_to : Document → ℕ → Document
slice_to [] n = []
slice_to (c ∷ s) n = let later = slice_to s n in if ltb (length s) n then [] else c ∷ later

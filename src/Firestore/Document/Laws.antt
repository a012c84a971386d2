-- ===== src/Firestore/Document/Laws.antt =====
-- Different documents have different paths.
use Prim.Native.String.{[], ◌∷◌, ◌++◌}
use text.Mathlib.TextLemmas.{nil-append, cons-append, append_cancel_left}
use vocastock.Prelude.{◌≡◌, ◌≢◌, ap, ◌∙◌, String, arith}
use vocastock.Text.Append.{Lacks, split_at_first}
use vocastock.Percent.{is_unreserved, percent_encode, percent_encode_path}
use vocastock.Percent.Laws.{
  AllChars, IsUrlSafe, percent_decode-percent_encode, percent_encode-AllChars,
}
use vocastock.Firestore.Document.{document_path}
use vocastock.Text.{concat}

safe-Lacks : (s : String) → AllChars IsUrlSafe s → Lacks b'/' s
unfolding is_unreserved
safe-Lacks [] h = tt
safe-Lacks (c ∷ s) (p, h) = (ground (arith, p), safe-Lacks s h)

pub percent_encode_path-Lacks : (s : String) → Lacks b'/' (percent_encode_path s)
unfolding percent_encode_path percent_encode
percent_encode_path-Lacks s = safe-Lacks (percent_encode s) (percent_encode-AllChars s)

pub percent_encode_path_injective :
    (s t : String) → percent_encode_path s ≡ percent_encode_path t → s ≡ t
unfolding percent_encode_path percent_encode
percent_encode_path_injective s t e =
    cc (e, percent_decode-percent_encode s, percent_decode-percent_encode t)

pub slash-append : (s : String) → "/" ++ s ≡ "/" ∷ s
slash-append s = cons-append "/" "" s ∙ ap (λ (t : String). "/" ∷ t) (nil-append s)

-- The parts of a path behind the project.
behind : String → String → String → String
behind actor collection identifier =
    percent_encode_path actor ++ ("/" ++ (collection ++ ("/" ++ percent_encode_path identifier)))

document_path-behind :
    (project actor other collection another i j : String)
    → document_path project actor collection i ≡ document_path project other another j
    → (percent_encode_path actor ≡ percent_encode_path other)
      × (collection ++ "/" ∷ percent_encode_path i ≡ another ++ "/" ∷ percent_encode_path j)
unfolding document_path concat behind
document_path-behind project actor other collection another i j e =
    let ends : behind actor collection i ≡ behind other another j =
      append_cancel_left "/databases/(default)/documents/actors/" _ _
        (append_cancel_left project _ _ (append_cancel_left "/v1/projects/" _ _ e)) in
    split_at_first "/" (percent_encode_path actor) (percent_encode_path other) _ _
      (percent_encode_path-Lacks actor) (percent_encode_path-Lacks other)
      (simp slash-append at ends)

-- Documents of different collections have different paths.
pub document_path_collections :
    (project actor other collection another i j : String)
    → Lacks b'/' collection
    → Lacks b'/' another
    → collection ≢ another
    → document_path project actor collection i ≢ document_path project other another j
document_path_collections project actor other collection another i j h k differ e =
    let (_, rest) = document_path-behind project actor other collection another i j e in
    let (same, _) = split_at_first "/" collection another _ _ h k rest in differ same

-- Two documents of one collection of a project have the same path only if they are those of the
-- same actor under the same identifier, whatever characters the two have.
pub document_path_injective :
    (project collection actor other identifier another : String)
    → document_path project actor collection identifier
      ≡ document_path project other collection another
    → (actor ≡ other) × (identifier ≡ another)
document_path_injective project collection actor other identifier another e =
    let (actors, rest) =
      document_path-behind project actor other collection collection identifier another e in
    let identifiers = append_cancel_left collection _ _ rest in
    (
      percent_encode_path_injective actor other actors,
      percent_encode_path_injective identifier another (cc identifiers),
    )

-- ===== src/CommandApi/Store/Keys.antt =====
-- The keys of command_store.rs: one text for an actor and a value.
use Prim.Native.String.{len, ◌++◌, [], ◌∷◌}
use text.Mathlib.TextLemmas.{append_assoc, append-nil, cons-append, nil-append, append_cancel_left}
use mathlib.Core.List.{[], ◌∷◌}
use vocastock.Prelude.{String, ◌≡◌, sym, ap, ◌∙◌, arith}
use vocastock.Text.{concat, decimal}
use vocastock.Text.Append.{split_at_first, split_at_len}
use vocastock.Text.Decimal.Laws.{decimal_injective, decimal-Lacks}

unfoldable pub length_prefixed : String → String
length_prefixed value = concat (decimal (len value) ∷ ":" ∷ value ∷ [])

unfoldable pub scoped_key : String → String → String
scoped_key actor_reference value =
    concat (length_prefixed actor_reference ∷ "|" ∷ length_prefixed value ∷ [])

length_prefixed-append : (s u : String) → length_prefixed s ++ u ≡ decimal (len s) ++ ":" ∷ (s ++ u)
unfolding length_prefixed concat
length_prefixed-append s u =
    append_assoc (decimal (len s)) (":" ++ s) u
    ∙ ap (λ r. decimal (len s) ++ r)
        (append_assoc ":" s u ∙ rw (cons-append ":" [] (s ++ u), nil-append (s ++ u)))

split_length_prefixed :
    (s t u v : String) → length_prefixed s ++ u ≡ length_prefixed t ++ v → (s ≡ t) × (u ≡ v)
split_length_prefixed s t u v e =
    let e' = sym (length_prefixed-append s u) ∙ e ∙ length_prefixed-append t v in
    let (lengths, rest) =
      split_at_first ":" (decimal (len s)) (decimal (len t)) (s ++ u) (t ++ v)
        (decimal-Lacks 58 (len s) (omega arith)) (decimal-Lacks 58 (len t) (omega arith)) e' in
    split_at_len s t u v (decimal_injective (len s) (len t) lengths) rest

-- Different pairs of an actor and a value have different keys.
pub scoped_key_injective : (a b s t : String) → scoped_key a s ≡ scoped_key b t → (a ≡ b) × (s ≡ t)
unfolding scoped_key concat
scoped_key_injective a b s t e =
    let (actors, rest) =
      split_length_prefixed a b ("|" ++ length_prefixed s) ("|" ++ length_prefixed t) e in
    let values = append_cancel_left "|" (length_prefixed s) (length_prefixed t) rest in
    let (same, _) =
      split_length_prefixed s t "" ""
        (append-nil (length_prefixed s) ∙ values ∙ sym (append-nil (length_prefixed t))) in
    (actors, same)

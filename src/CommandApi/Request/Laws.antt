-- ===== src/CommandApi/Request/Laws.antt =====
-- Which bodies are accepted as a register command, and what the command says.
use text.Mathlib.Text.{◌==◌}
use vocastock.Prelude.{
  String, Char, ◌≡◌, ◌≢◌, refl, true, false, List, [], arith, Option, some, eq_iff, ok,
  Option-cases, inl, inr, ok_injective, Bool-cases,
}
use Prim.Native.String as Str
use vocastock.Text.{
  trim, is_empty, is_control, is_whitespace, any_char, split_whitespace, join_spaces,
}
use vocastock.Percent.Laws.{AllChars}
use vocastock.Auth.{VerifiedActorContext}
use vocastock.CommandApi.Request.{
  RegisterVocabularyCommandEnvelope, RegisterVocabularyExpressionCommand, normalize_text,
  is_forbidden, validate_register_envelope, parse_register_command,
}

-- A character that is no control character but a blank.
abbrev pub IsPrintable : Char → Type 0
IsPrintable c = is_control c ≡ true → is_whitespace c ≡ true

text-IsPrintable : (s : String) → any_char is_forbidden s ≡ false → AllChars IsPrintable s
unfolding any_char is_forbidden
text-IsPrintable Str.[] h = tt
text-IsPrintable (Str.◌∷◌ c s) h =
    ((λ control. ground (arith, control, h)), text-IsPrintable s (ground (arith, h)))

words_given : (words : List String) → is_empty (join_spaces words) ≡ false → words ≢ []
unfolding is_empty join_spaces
words_given words h none_left = absurd (cc (rw none_left at h))

module _ (to_lowercase : String → String) where
  normalize_text-some :
      (raw text : String)
      → normalize_text to_lowercase raw ≡ some text
      → AllChars IsPrintable raw
        × (split_whitespace raw ≢ [])
        × (text ≡ to_lowercase (join_spaces (split_whitespace raw)))
  unfolding normalize_text
  normalize_text-some raw text h = elim (Bool-cases (any_char is_forbidden raw)) [
    | inl bad ↦ absurd (cc (rw bad at h))
    | inr fine ↦
        let words = split_whitespace raw in
        let clean = rw fine at h in
        elim (Bool-cases (is_empty (join_spaces words))) [
          | inl blank ↦ absurd (cc (rw blank at clean))
          | inr given ↦
              let made : some (to_lowercase (join_spaces words)) ≡ some text = rw given at clean in
              (text-IsPrintable raw fine, words_given words given, cc made)
        ]
  ]

  -- The envelope asks for the command, in the name of the actor, with a key and a text.
  pub record IsAcceptable (envelope : RegisterVocabularyCommandEnvelope)
      (actor : VerifiedActorContext) (command : RegisterVocabularyExpressionCommand) : Type 0 where
    pub name : envelope.command ≡ "registerVocabularyExpression"
    pub claimed : trim envelope.actor ≡ actor.actor.as_str
    pub owner : command.actor ≡ actor
    pub key : command.idempotency_key ≡ trim envelope.idempotency_key
    pub key_given : is_empty command.idempotency_key ≡ false
    pub printable : AllChars IsPrintable envelope.body.text
    pub text_given : split_whitespace envelope.body.text ≢ []
    pub text :
        command.normalized_text ≡ to_lowercase (join_spaces (split_whitespace envelope.body.text))

  validate_register_envelope-ok :
      (envelope : RegisterVocabularyCommandEnvelope) (actor : VerifiedActorContext)
      (command : RegisterVocabularyExpressionCommand)
      → validate_register_envelope to_lowercase envelope actor ≡ ok command
      → IsAcceptable envelope actor command
  unfolding validate_register_envelope
  validate_register_envelope-ok envelope actor command h =
      let raw = envelope.body.text in
      elim (Bool-cases (envelope.command == "registerVocabularyExpression")) [
        | inr e ↦ absurd (cc (rw e at h))
        | inl e ↦
            let named = rw e at h in
            elim (Bool-cases (is_empty (trim envelope.actor))) [
              | inl f ↦ absurd (cc (rw f at named))
              | inr f ↦
                  let given = rw f at named in
                  elim (Bool-cases (trim envelope.actor == actor.actor.as_str)) [
                    | inr g ↦ absurd (cc (rw g at given))
                    | inl g ↦
                        let owned = rw g at given in
                        elim (Bool-cases (is_empty (trim envelope.idempotency_key))) [
                          | inl k ↦ absurd (cc (rw k at owned))
                          | inr k ↦
                              let keyed = rw k at owned in
                              elim (Option-cases (normalize_text to_lowercase envelope.body.text)) [
                                | inl t ↦ absurd (cc (rw t at keyed))
                                | inr (text, t) ↦
                                    let made = ok_injective (rw t at keyed) in
                                    rw (← made) (record {
                                      name =
                                          (eq_iff envelope.command "registerVocabularyExpression").0
                                            e;
                                      claimed =
                                          (eq_iff (trim envelope.actor) actor.actor.as_str).0 g;
                                      owner = refl;
                                      key = refl;
                                      key_given = k;
                                      printable = (normalize_text-some raw text t).0;
                                      text_given = (normalize_text-some raw text t).1;
                                      text = (normalize_text-some raw text t).2;
                                    })
                              ]
                        ]
                  ]
            ]
      ]

  module _ (from_json : String → Option RegisterVocabularyCommandEnvelope) where
    -- A body is only accepted if it is JSON that names the command, claims the actor of the token
    -- and has a key and a text with at least one word and no control character but blanks; the
    -- command carries that actor, the trimmed key, and the words of the text in lower case with
    -- one blank between them.
    pub parse_register_command-ok :
        (body : String) (actor : VerifiedActorContext)
        (command : RegisterVocabularyExpressionCommand)
        → parse_register_command to_lowercase from_json body actor ≡ ok command
        → (envelope : RegisterVocabularyCommandEnvelope) × (from_json body ≡ some envelope)
          × IsAcceptable envelope actor command
    unfolding parse_register_command
    parse_register_command-ok body actor command h = elim (Option-cases (from_json body)) [
      | inl e ↦ absurd (cc (rw e at h))
      | inr (envelope, e) ↦
          (envelope, e, validate_register_envelope-ok envelope actor command (rw e at h))
    ]

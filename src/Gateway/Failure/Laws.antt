-- ===== src/Gateway/Failure/Laws.antt =====
-- What a message of a downstream service can tell a client of the gateway.
use vocastock.Prelude.{
  String, ◌≡◌, refl, Bool, false, Option, List, [], ◌∷◌, All, Bool-cases, inl, inr, arith,
}
use vocastock.Text.{trim, is_empty, contains}
use vocastock.Gateway.Failure.{
  is_internal, sanitize_message, gateway_failure, downstream_auth_failed, command_failure,
}

-- The texts that would show a client what stands behind the gateway.
abbrev pub internal_texts : List String
internal_texts =
    "http://" ∷ "https://" ∷ "/commands/" ∷ "/vocabulary-catalog" ∷ "command-api" ∷ "query-api" ∷ []

-- The message has none of these texts.
abbrev pub IsDiscreet : String → Type 0
IsDiscreet message = All (λ text. contains message text ≡ false) internal_texts

not-internal : (message : String) → is_internal message ≡ false → IsDiscreet message
not-internal message h = (
  ground (arith, h),
  (
    ground (arith, h),
    (ground (arith, h), (ground (arith, h), (ground (arith, h), (ground (arith, h), tt)))),
  ),
)

sanitize_message-is_internal :
    (message fallback : String)
    → is_internal fallback ≡ false
    → is_internal (sanitize_message message fallback) ≡ false
unfolding sanitize_message
sanitize_message-is_internal message fallback h = elim (Bool-cases (is_empty (trim message))) [
  | inl blank ↦ rw blank h
  | inr given ↦ elim (Bool-cases (is_internal (trim message))) [
    | inl internal ↦ rw (given, internal) h
    | inr fine ↦ rw (given, fine) fine
  ]
]

pub downstream_auth_failed-IsDiscreet :
    (status message : String) (retryable : Option Bool)
    → IsDiscreet (downstream_auth_failed status message retryable).envelope.message
unfolding downstream_auth_failed gateway_failure contains
downstream_auth_failed-IsDiscreet status message retryable =
    not-internal _ (sanitize_message-is_internal message "downstream authentication failed" refl)

pub command_failure-IsDiscreet :
    (status code message : String) (retryable : Option Bool)
    → IsDiscreet (command_failure status code message retryable).envelope.message
unfolding command_failure gateway_failure contains
command_failure-IsDiscreet status code message retryable =
    not-internal _ (sanitize_message-is_internal message "command relay failed" refl)

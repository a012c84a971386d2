-- ===== src/CommandApi/MutationCommand/Fingerprints.antt =====
-- What the fingerprint of a mutation command tells of its payload.
use Prim.Native.String.{◌++◌}
use text.Mathlib.TextLemmas.{cons-append, nil-append, append_cancel_left, append_cancel_right}
use vocastock.Prelude.{String, ◌≡◌, refl, ap, arith, eq_iff, true, code}
use text.Mathlib.Text.{◌==◌}
use vocastock.Text.Append.{last_or, last_or-append}
use vocastock.Text.{concat}
use vocastock.CommandApi.MutationStore.{MutationFingerprint}
use vocastock.CommandApi.MutationRequest.{
  RequestExplanationGenerationCommand, RequestImageGenerationCommand, RetryGenerationCommand,
  RequestPurchaseCommand, RequestRestorePurchaseCommand, GenerationTargetKind, explanation, image,
  target_as_str, PlanCode, free, standard_monthly, pro_monthly, plan_as_str,
}
use vocastock.CommandApi.MutationCommand.{
  MutationCommand, of_explanation, of_image, of_retry, of_purchase, of_restore, fingerprint_for,
}

pub data AnyMutation : Type 0 where
  any_explanation : RequestExplanationGenerationCommand → AnyMutation
  any_image : RequestImageGenerationCommand → AnyMutation
  any_retry : RetryGenerationCommand → AnyMutation
  any_purchase : RequestPurchaseCommand → AnyMutation
  any_restore : RequestRestorePurchaseCommand → AnyMutation

-- What a command asks for, without its actor and its key.
pub data Payload : Type 0 where
  for_explanation for_image : String → Payload
  for_retry : String → GenerationTargetKind → Payload
  for_purchase : PlanCode → Payload
  for_restore : Payload

abbrev pub command_of : AnyMutation → MutationCommand
command_of (any_explanation c) = of_explanation c
command_of (any_image c) = of_image c
command_of (any_retry c) = of_retry c
command_of (any_purchase c) = of_purchase c
command_of (any_restore c) = of_restore c

abbrev pub payload_of : AnyMutation → Payload
payload_of (any_explanation c) = for_explanation c.vocabulary_expression
payload_of (any_image c) = for_image c.vocabulary_expression
payload_of (any_retry c) = for_retry c.vocabulary_expression c.target
payload_of (any_purchase c) = for_purchase c.plan_code
payload_of (any_restore c) = for_restore

plan_as_str_injective : (a b : PlanCode) → plan_as_str a ≡ plan_as_str b → a ≡ b
unfolding plan_as_str
plan_as_str_injective free free e = refl
plan_as_str_injective standard_monthly standard_monthly e = refl
plan_as_str_injective pro_monthly pro_monthly e = refl
plan_as_str_injective a b e = absurd (cc ((eq_iff (plan_as_str a) (plan_as_str b)).1 e))

last_code : (s t : String) → code (last_or "x" (s ++ "|" ++ t)) ≡ code (last_or "|" t)
last_code s t = rw (cons-append "|" "" t, nil-append t, last_or-append "x" s "|" t)

-- The two targets end differently, whatever text stands in front of them.
retry_payload_injective :
    (s t : String) (a b : GenerationTargetKind)
    → s ++ "|target=" ++ target_as_str a ≡ t ++ "|target=" ++ target_as_str b
    → (s ≡ t) × (a ≡ b)
unfolding target_as_str last_or
retry_payload_injective s t explanation explanation e = (append_cancel_right s t _ e, refl)
retry_payload_injective s t image image e = (append_cancel_right s t _ e, refl)
retry_payload_injective s t explanation image e = absurd (
    omega (
      arith,
      last_code s "target=EXPLANATION",
      last_code t "target=IMAGE",
      ap (λ u. code (last_or "x" u)) e,
    ))
retry_payload_injective s t image explanation e = absurd (
    omega (
      arith,
      last_code s "target=IMAGE",
      last_code t "target=EXPLANATION",
      ap (λ u. code (last_or "x" u)) e,
    ))

names :
    (a b : AnyMutation)
    → fingerprint_for (command_of a) ≡ fingerprint_for (command_of b)
    → ((command_of a).command_name == (command_of b).command_name) ≡ true
unfolding fingerprint_for
names a b e = (eq_iff _ _).1 (ap (λ (p : MutationFingerprint). p.command_name) e)

hashes :
    (a b : AnyMutation)
    → fingerprint_for (command_of a) ≡ fingerprint_for (command_of b)
    → (command_of a).payload_hash ≡ (command_of b).payload_hash
unfolding fingerprint_for
hashes a b e = ap (λ (p : MutationFingerprint). p.payload_hash) e

-- Two mutation commands with the same fingerprint are of the same kind and ask for the same.
pub fingerprint_for_injective :
    (a b : AnyMutation)
    → fingerprint_for (command_of a) ≡ fingerprint_for (command_of b)
    → payload_of a ≡ payload_of b
unfolding of_explanation of_image of_retry of_purchase of_restore concat
fingerprint_for_injective (any_explanation a) (any_explanation b) e =
    ap for_explanation
      (append_cancel_left "vocab=" _ _ (hashes (any_explanation a) (any_explanation b) e))
fingerprint_for_injective (any_image a) (any_image b) e =
    ap for_image (append_cancel_left "vocab=" _ _ (hashes (any_image a) (any_image b) e))
fingerprint_for_injective (any_retry a) (any_retry b) e =
    let (texts, targets) =
      retry_payload_injective a.vocabulary_expression b.vocabulary_expression a.target b.target
        (append_cancel_left "vocab=" _ _ (hashes (any_retry a) (any_retry b) e)) in
    cc (texts, targets)
fingerprint_for_injective (any_purchase a) (any_purchase b) e = ap for_purchase (
    plan_as_str_injective a.plan_code b.plan_code
      (append_cancel_left "plan=" _ _ (hashes (any_purchase a) (any_purchase b) e)))
fingerprint_for_injective (any_restore a) (any_restore b) e = refl
fingerprint_for_injective a b e = absurd (cc (names a b e))

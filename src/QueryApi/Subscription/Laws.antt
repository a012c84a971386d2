-- ===== src/QueryApi/Subscription/Laws.antt =====
-- What a subscription status grants, and on which record.
use text.Mathlib.Text.{◌==◌}
use vocastock.Prelude.{
  ◌≡◌, ◌≢◌, refl, inl, inr, String, pos, true, false, Option, none, some, ok, ok_injective,
  Bool-cases, if_cases, eq_iff, arith,
}
use vocastock.Auth.{VerifiedActorContext, is_active}
use vocastock.QueryApi.Subscription.{
  SubscriptionState, active, grace, pending_sync, expired, revoked, PlanCode, free,
  standard_monthly, pro_monthly, EntitlementBundle, premium_generation, free_basic, parse_state,
  parse_plan, parse_entitlement, SubscriptionStatusView, SubscriptionRecord,
  SubscriptionStatusSource, pending_sync_default, map_record, view_of, read_subscription_status,
}

-- The names of the states; any other name stands for pending synchronisation.
abbrev pub NamesState : SubscriptionState → String → Type 0
NamesState active raw = raw ≡ "active"
NamesState grace raw = raw ≡ "grace"
NamesState expired raw = raw ≡ "expired"
NamesState revoked raw = raw ≡ "revoked"
NamesState pending_sync raw =
    (raw ≢ "active") × (raw ≢ "grace") × (raw ≢ "expired") × (raw ≢ "revoked")

-- The names of the plans; any other name stands for the free plan.
abbrev pub NamesPlan : PlanCode → String → Type 0
NamesPlan standard_monthly raw = raw ≡ "standardMonthly"
NamesPlan pro_monthly raw = raw ≡ "proMonthly"
NamesPlan free raw = (raw ≢ "standardMonthly") × (raw ≢ "proMonthly")

-- The name of the premium entitlement; any other name stands for the free one.
abbrev pub NamesEntitlement : EntitlementBundle → String → Type 0
NamesEntitlement premium_generation raw = raw ≡ "premiumGeneration"
NamesEntitlement free_basic raw = raw ≢ "premiumGeneration"

not_named : (raw name : String) → (raw == name) ≡ false → raw ≢ name
not_named raw name h e = ground (arith, h, e, eq_iff raw name)

parse_state-NamesState : (raw : String) → NamesState (parse_state raw) raw
unfolding parse_state
parse_state-NamesState raw =
    let goal = λ (s : SubscriptionState). NamesState s raw in
    if_cases goal (raw == "active") (λ e. (eq_iff _ _).0 e)
      (λ a.
        if_cases goal (raw == "grace") (λ e. (eq_iff _ _).0 e)
          (λ g.
            if_cases goal (raw == "expired") (λ e. (eq_iff _ _).0 e)
              (λ x.
                if_cases goal (raw == "revoked") (λ e. (eq_iff _ _).0 e)
                  (λ r. (
                    not_named raw "active" a,
                    not_named raw "grace" g,
                    not_named raw "expired" x,
                    not_named raw "revoked" r,
                  )))))

parse_plan-NamesPlan : (raw : String) → NamesPlan (parse_plan raw) raw
unfolding parse_plan
parse_plan-NamesPlan raw =
    let goal = λ (p : PlanCode). NamesPlan p raw in
    if_cases goal (raw == "standardMonthly") (λ e. (eq_iff _ _).0 e)
      (λ s.
        if_cases goal (raw == "proMonthly") (λ e. (eq_iff _ _).0 e)
          (λ p. (not_named raw "standardMonthly" s, not_named raw "proMonthly" p)))

parse_entitlement-NamesEntitlement : (raw : String) → NamesEntitlement (parse_entitlement raw) raw
unfolding parse_entitlement
parse_entitlement-NamesEntitlement raw =
    let goal = λ (e : EntitlementBundle). NamesEntitlement e raw in
    if_cases goal (raw == "premiumGeneration") (λ e. (eq_iff _ _).0 e)
      (λ p. not_named raw "premiumGeneration" p)

-- A view says what the record of the actor names.
abbrev pub Earned : Option SubscriptionRecord → SubscriptionStatusView → Type 0
Earned none view =
    (view.state ≡ pending_sync)
    × (view.plan ≡ free)
    × (view.entitlement ≡ free_basic)
    × (view.allowance.remaining_explanation_generations ≡ pos 0)
    × (view.allowance.remaining_image_generations ≡ pos 0)
Earned (some r) view =
    NamesState view.state r.state
    × NamesPlan view.plan r.plan
    × NamesEntitlement view.entitlement r.entitlement
    × (view.allowance.remaining_explanation_generations
        ≡ r.allowance.remaining_explanation_generations)
    × (view.allowance.remaining_image_generations ≡ r.allowance.remaining_image_generations)

view_of-Earned : (o : Option SubscriptionRecord) → Earned o (view_of o)
unfolding view_of map_record pending_sync_default
view_of-Earned none = (refl, refl, refl, refl, refl)
view_of-Earned (some r) = (
  parse_state-NamesState r.state,
  parse_plan-NamesPlan r.plan,
  parse_entitlement-NamesEntitlement r.entitlement,
  refl,
  refl,
)

-- A subscription status is only read in an active session. Where the actor has no record it is
-- pending synchronisation with the free plan, the free entitlement and nothing left; otherwise the
-- state, the plan and the entitlement are those whose names the record has, a name that is none of
-- these stands for pending synchronisation and for the free ones, and what is left is what the
-- record says.
pub read_subscription_status-Earned :
    (context : VerifiedActorContext) (source : SubscriptionStatusSource)
    (view : SubscriptionStatusView)
    → read_subscription_status context source ≡ ok view
    → (is_active context ≡ true) × Earned (source context) view
unfolding read_subscription_status
read_subscription_status-Earned context source view h = elim (Bool-cases (is_active context)) [
  | inr e ↦ absurd (cc (rw e at h))
  | inl e ↦
      let same = ok_injective (rw e at h) in (e, rw (← same) (view_of-Earned (source context)))
]

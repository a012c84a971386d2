-- ===== src/QueryApi/Subscription.antt =====
-- applications/backend/query-api/src/query_catalog_read/subscription_status: model.rs, source.rs
-- and read.rs.
pub mod Laws
use text.Mathlib.Text.{◌==◌}
use vocastock.Prelude.{
  String, ℤ, pos, not, Option, none, some, Result, ok, err, ◌>>=◌, ◌>>◌, refuse_if, map_err,
  if◌then◌else◌,
}
use vocastock.Auth.{
  VerifiedActorContext, is_active, TokenVerificationError, message as token_message, TokenVerifier,
}
use vocastock.QueryApi.Authorization.{authenticate}

pub data SubscriptionState : Type 0 where
  active grace pending_sync expired revoked : SubscriptionState

pub data PlanCode : Type 0 where
  free standard_monthly pro_monthly : PlanCode

pub data EntitlementBundle : Type 0 where
  free_basic premium_generation : EntitlementBundle

unfoldable pub parse_state : String → SubscriptionState
parse_state raw =
    if raw == "active"
    then active
    else if raw == "grace"
    then grace
    else if raw == "expired"
    then expired
    else if raw == "revoked"
    then revoked
    else pending_sync

unfoldable pub parse_plan : String → PlanCode
parse_plan raw =
    if raw == "standardMonthly"
    then standard_monthly
    else if raw == "proMonthly"
    then pro_monthly
    else free

unfoldable pub parse_entitlement : String → EntitlementBundle
parse_entitlement raw = if raw == "premiumGeneration" then premium_generation else free_basic

pub record UsageAllowanceView : Type 0 where
  pub remaining_explanation_generations : ℤ
  pub remaining_image_generations : ℤ

pub record SubscriptionStatusView : Type 0 where
  pub state : SubscriptionState
  pub plan : PlanCode
  pub entitlement : EntitlementBundle
  pub allowance : UsageAllowanceView

pub record AllowanceRecord : Type 0 where
  pub remaining_explanation_generations : ℤ
  pub remaining_image_generations : ℤ

pub record SubscriptionRecord : Type 0 where
  pub state : String
  pub plan : String
  pub entitlement : String
  pub allowance : AllowanceRecord

-- `SubscriptionStatusSource`
abbrev pub SubscriptionStatusSource : Type 0
SubscriptionStatusSource = VerifiedActorContext → Option SubscriptionRecord

pub data SubscriptionStatusError : Type 0 where
  auth : TokenVerificationError → SubscriptionStatusError
  inactive_session : SubscriptionStatusError

unfoldable pub user_message : SubscriptionStatusError → String
unfolding token_message
user_message (auth error) = token_message error
user_message inactive_session = "session is not active"

unfoldable pub pending_sync_default : SubscriptionStatusView
pending_sync_default = record {
  state = pending_sync;
  plan = free;
  entitlement = free_basic;
  allowance = record {
    remaining_explanation_generations = pos 0;
    remaining_image_generations = pos 0;
  };
}

unfoldable pub map_record : SubscriptionRecord → SubscriptionStatusView
map_record r = record {
  state = parse_state r.state;
  plan = parse_plan r.plan;
  entitlement = parse_entitlement r.entitlement;
  allowance = record {
    remaining_explanation_generations = r.allowance.remaining_explanation_generations;
    remaining_image_generations = r.allowance.remaining_image_generations;
  };
}

unfoldable pub view_of : Option SubscriptionRecord → SubscriptionStatusView
view_of none = pending_sync_default
view_of (some r) = map_record r

unfoldable pub read_subscription_status :
    VerifiedActorContext
    → SubscriptionStatusSource
    → Result SubscriptionStatusView SubscriptionStatusError
read_subscription_status actor_context source = do
  refuse_if (not (is_active actor_context)) inactive_session
  ok (view_of (source actor_context))

unfoldable pub read_subscription_status_from_authorization_header :
    Option String
    → TokenVerifier
    → SubscriptionStatusSource
    → Result SubscriptionStatusView SubscriptionStatusError
read_subscription_status_from_authorization_header authorization_header verifier source = do
  actor_context ← map_err auth (authenticate authorization_header verifier)
  read_subscription_status actor_context source

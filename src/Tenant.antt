-- ===== src/Tenant.antt =====
-- app/db/models/tenant.py: an account, its plan and what the plan allows. A column limited by a
-- CheckConstraint to a few words is a data type; a UUID is a number.
use truthpage.Prelude.{
  ℕ, String, Bool, true, false, not, ◌&&◌, Option, none, some, Time, leb, is_some, str_eq,
  if◌then◌else◌,
}
use truthpage.Settings.{Settings}

pub data SubscriptionStatus : Type 0 where
  trialing active past_due canceled unpaid free : SubscriptionStatus

pub data PlanTier : Type 0 where
  starter growth : PlanTier

pub record Tenant : Type 0 where
  pub id : ℕ
  pub name : String
  pub email : Option String
  pub slug : String
  pub paddle_customer_id : Option String
  pub paddle_subscription_id : Option String
  pub subscription_status : SubscriptionStatus
  pub trial_ends_at : Option Time
  pub plan : PlanTier
  pub hide_powered_by : Bool
  pub onboarded_at : Option Time
  pub objection_window_days : ℕ
  pub privacy_contact_email : Option String
  pub tier2_daily_count : ℕ
  pub tier2_daily_date : Option ℕ

abbrev pub is_free : SubscriptionStatus → Bool
is_free free = true
is_free _ = false

abbrev pub is_trialing : SubscriptionStatus → Bool
is_trialing trialing = true
is_trialing _ = false

abbrev pub is_starter : PlanTier → Bool
is_starter starter = true
is_starter growth = false

abbrev ends_by : Option Time → Time → Bool
ends_by none now = false
ends_by (some t) now = leb t now

unfoldable pub trial_expired : Tenant → Time → Bool
trial_expired t now = is_trialing t.subscription_status && ends_by t.trial_ends_at now

-- `a or b` on strings: an empty string counts as missing.
abbrev or_else : Option String → String → String
or_else none d = d
or_else (some s) d = if str_eq s "" then d else s

unfoldable pub objection_contact_email : Tenant → String
objection_contact_email t = or_else t.privacy_contact_email (or_else t.email "")

unfoldable pub needs_onboarding : Tenant → Bool
needs_onboarding t = not (is_some t.onboarded_at)

unfoldable pub is_free_plan : Tenant → Bool
is_free_plan t = is_free t.subscription_status

unfoldable pub is_starter_plan : Tenant → Bool
unfolding is_free_plan
is_starter_plan t =
    not (is_free_plan t) && not (is_trialing t.subscription_status) && is_starter t.plan

unfoldable pub has_growth_features : Tenant → Bool
unfolding is_free_plan
has_growth_features t =
    if is_free_plan t
    then false
    else if is_trialing t.subscription_status
    then true
    else not (is_starter t.plan)

unfoldable pub may_hide_badge : Tenant → Bool
unfolding has_growth_features
may_hide_badge t = has_growth_features t

unfoldable pub may_export_evidence : Tenant → Bool
unfolding has_growth_features
may_export_evidence t = has_growth_features t

unfoldable pub shows_powered_by : Tenant → Bool
unfolding may_hide_badge
shows_powered_by t = not (t.hide_powered_by && may_hide_badge t)

unfoldable pub tier2_daily_limit : Settings → Tenant → ℕ
unfolding is_free_plan is_starter_plan
tier2_daily_limit cfg t =
    if is_free_plan t
    then cfg.tier2_daily_limit_free
    else if is_starter_plan t
    then cfg.tier2_daily_limit_starter
    else cfg.tier2_daily_limit_growth

unfoldable pub subprocessor_limit : Settings → Tenant → ℕ
unfolding is_free_plan is_starter_plan
subprocessor_limit cfg t =
    if is_free_plan t
    then cfg.free_tier_max_subprocessors
    else if is_starter_plan t
    then cfg.starter_max_subprocessors
    else cfg.max_subprocessors_per_tenant

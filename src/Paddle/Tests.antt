-- ===== src/Paddle/Tests.antt =====
-- Instances of the theorems on the events of Paddle.
use truthpage.Prelude.{
  List, Option, String, [], arith, err, filter, if◌then◌else◌, map_ok, min, none, ok, refl, some,
  str_eq, ℕ, ◌<>◌, ◌∷◌, ◌≡◌,
}
use truthpage.Settings.{Settings, defaults}
use truthpage.Tenant.{Tenant, active, starter}
use truthpage.Plans.{move_tenant_to_free}
use truthpage.Plans.Downgrade.{HasUniqueIds, watched}
use truthpage.Jobs.{Tables}
use truthpage.Webhooks.{invalid_signature, scalar_one_or_none}
use truthpage.Paddle.Route.{
  PaddleCodec, Tracked, dispatch, header_part, paddle_webhook, track_customer, verify_signature,
}
use truthpage.Paddle.Signed.{IsSigned, paddle_webhook-IsSigned}
use truthpage.Paddle.{
  PaddleData, activate, apply_cancellation, customer_or_empty, end_subscription,
  find_tenant_by_customer, handle_subscription_canceled, handle_subscription_updated,
  handle_transaction_completed, plan_from_items, with_id,
}
use truthpage.Paddle.Payment.{PaidPlan, handle_transaction_completed-again}
use truthpage.Paddle.Ending.{ended-watched, paused}
use truthpage.Samples.{acme, stripe}

abbrev priced : Settings
priced = record defaults {
  paddle_price_id_starter = "pri_s";
  paddle_price_id_growth = "pri_g";
  free_tier_max_subprocessors = 1;
}

abbrev paid : PaddleData
paid = record {
  tenant_id = some "one";
  customer_id = some (some "ctm_1");
  subscription_id = some "sub_9";
  status = some "canceled";
  price_ids = "pri_s" ∷ [];
}

abbrev uuid : String → Option ℕ
uuid text = if str_eq text "one" then some 1 else none

abbrev tables : Tables
tables = record {
  tenants = acme ∷ record acme { id = 2; paddle_customer_id = none } ∷ [];
  sources =
      record stripe { id = 1 }
      ∷ record stripe { id = 2 }
      ∷ record stripe { id = 3; tenant_id = 2 }
      ∷ [];
}

tables-HasUniqueIds : HasUniqueIds tables.sources
tables-HasUniqueIds i = ground arith

handle_transaction_completed-again_example :
    (after : Tables) × (u : Tenant) × (handle_transaction_completed priced uuid paid tables
      ≡ ok after)
    × (handle_transaction_completed priced uuid paid after ≡ ok after)
    × (after.sources ≡ tables.sources)
    × (filter (with_id 1) after.tenants ≡ u ∷ [])
    × (u.subscription_status ≡ active)
    × PaidPlan priced paid acme.plan u.plan
handle_transaction_completed-again_example =
    handle_transaction_completed-again priced uuid paid 1 tables acme
      (record { text = "one"; named = refl; given = refl; parsed = refl }) refl

-- The plan is the one that was paid for.
paid_for : (activate priced paid acme).plan ≡ starter
unfolding plan_from_items
paid_for = refl

abbrev pausing : PaddleData
pausing = record paid { status = some "paused" }

ended-watched_example :
    map_ok (λ (a : Tables). watched 1 a.sources) (handle_subscription_updated priced pausing tables)
    ≡ ok (min 1 (watched 1 tables.sources))
unfolding find_tenant_by_customer scalar_one_or_none
ended-watched_example =
    ended-watched priced pausing tables acme (handle_subscription_updated priced pausing tables)
      tables-HasUniqueIds refl (paused refl)

-- An event whose customer is null finds the tenant that has no customer.
null_customer :
    find_tenant_by_customer
      (customer_or_empty (record paid { customer_id = some none }))
      tables.tenants
    ≡ ok (some (record acme { id = 2; paddle_customer_id = none }))
unfolding find_tenant_by_customer scalar_one_or_none
null_customer = refl

-- A digest that shows its key and message.
abbrev toy_codec : PaddleCodec
toy_codec = record {
  int = λ s. if str_eq s "1000" then some 1000 else none;
  decode = some;
  hexdigest = λ key message. key <> "|" <> message;
  loads = λ body.
      if str_eq body "{}"
      then some (record { event_type = "subscription.canceled"; details = paid })
      else none;
}

abbrev ended_run : Tables × List Tracked
ended_run = (
  end_subscription priced acme tables,
  record { event_name = "subscription_canceled"; of_tenant = some 1 } ∷ [],
)

canceled_run :
    paddle_webhook toy_codec priced uuid 1200 "key" "{}" "ts=1000;h1=key|1000:{}" tables
    ≡ ok ended_run
unfolding paddle_webhook verify_signature header_part dispatch track_customer
    handle_subscription_canceled apply_cancellation find_tenant_by_customer scalar_one_or_none
    end_subscription truthpage.Prelude.split move_tenant_to_free
canceled_run = refl

paddle_webhook-IsSigned_example :
    IsSigned toy_codec 1200 "{}" "ts=1000;h1=key|1000:{}" "key"
    × (paddle_webhook toy_codec priced uuid 2000 "key" "{}" "ts=1000;h1=key|1000:{}" tables
        ≡ err invalid_signature)
paddle_webhook-IsSigned_example =
    paddle_webhook-IsSigned toy_codec "{}" "ts=1000;h1=key|1000:{}" "key" priced uuid 1200 2000
      tables tables ended_run canceled_run refl

-- The last of two equal keys counts.
last_counts : header_part "h1" ("h1=a" ∷ "ts" ∷ "h1=b=c" ∷ []) ≡ some "b=c"
unfolding header_part
last_counts = refl

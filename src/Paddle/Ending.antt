-- ===== src/Paddle/Ending.antt =====
-- A subscription that ends.
use truthpage.Prelude.{Result, ap, get_or, map_ok, min, ok, refl, some, true, ◌≡◌}
use truthpage.Settings.{Settings}
use truthpage.Tenant.{Tenant, is_free}
use truthpage.Plans.{move_tenant_to_free}
use truthpage.Plans.Downgrade.{HasUniqueIds, move_tenant_to_free_lem, watched}
use truthpage.Webhooks.{WebhookError}
use truthpage.Jobs.{Tables}
use truthpage.Paddle.{
  PaddleData, customer_or_empty, end_subscription, find_tenant_by_customer,
  handle_subscription_canceled, handle_subscription_updated, mapped_status, renewed,
}

sources-end_subscription :
    (cfg : Settings) (t : Tenant) (db : Tables)
    → (end_subscription cfg t db).sources ≡ (move_tenant_to_free cfg t db.sources).rows
unfolding end_subscription
sources-end_subscription cfg t db = refl

watched-end_subscription :
    (cfg : Settings) (t : Tenant) (db : Tables)
    → HasUniqueIds db.sources
    → watched t.id (end_subscription cfg t db).sources
      ≡ min cfg.free_tier_max_subprocessors (watched t.id db.sources)
watched-end_subscription cfg t db u =
    rw (sources-end_subscription cfg t db) ((move_tenant_to_free_lem cfg t db.sources u).1)

-- The handlings of an event that ends a subscription: the cancellation, and an update whose status is
-- paused or canceled.
pub data EndsBy (cfg : Settings) (d : PaddleData) (db : Tables)
    : Result WebhookError Tables → Type 0 where
  cancellation : EndsBy cfg d db (handle_subscription_canceled cfg d db)
  paused : d.status ≡ some "paused" → EndsBy cfg d db (handle_subscription_updated cfg d db)
  canceled : d.status ≡ some "canceled" → EndsBy cfg d db (handle_subscription_updated cfg d db)

ended-updated :
    (cfg : Settings) (d : PaddleData) (db : Tables) (t : Tenant)
    → HasUniqueIds db.sources
    → find_tenant_by_customer (customer_or_empty d) db.tenants ≡ ok (some t)
    → is_free (mapped_status (get_or d.status "")) ≡ true
    → map_ok (λ (a : Tables). watched t.id a.sources) (handle_subscription_updated cfg d db)
      ≡ ok (min cfg.free_tier_max_subprocessors (watched t.id db.sources))
unfolding handle_subscription_updated
ended-updated cfg d db t u found ends =
    rw (found, ends) (ap ok (watched-end_subscription cfg (renewed cfg d t) db u))

-- When a subscription is cancelled, or an update says paused or canceled, of a customer whose tenant
-- is found, and the pages have unique ids, then of that tenant's pages as many stay watched as the
-- free plan allows.
pub ended-watched :
    (cfg : Settings) (d : PaddleData) (db : Tables) (t : Tenant)
    (handled : Result WebhookError Tables)
    → HasUniqueIds db.sources
    → find_tenant_by_customer (customer_or_empty d) db.tenants ≡ ok (some t)
    → EndsBy cfg d db handled
    → map_ok (λ (a : Tables). watched t.id a.sources) handled
      ≡ ok (min cfg.free_tier_max_subprocessors (watched t.id db.sources))
unfolding handle_subscription_canceled mapped_status
ended-watched cfg d db t _ u found cancellation =
    rw found (ap ok (watched-end_subscription cfg t db u))
ended-watched cfg d db t _ u found (paused q) = ended-updated cfg d db t u found (rw q refl)
ended-watched cfg d db t _ u found (canceled q) = ended-updated cfg d db t u found (rw q refl)

-- ===== src/Paddle.antt =====
-- app/routers/webhooks.py, the events that Paddle reports: payments, and subscriptions that change or
-- end. The parser of a UUID is a parameter. A key that an event does not have is `none`.
pub mod Payment
pub mod Ending
pub mod Route
pub mod Signed
mod Tests
use truthpage.Prelude.{
  Bool, List, Option, Result, String, false, filter, get_or, if◌then◌else◌, is_some, map, mem_str,
  none, not, ok, some, str_eq, ℕ, ◌&&◌, ◌==◌, ◌>>=◌,
}
use truthpage.Settings.{Settings}
use truthpage.Tenant.{
  Tenant, PlanTier, SubscriptionStatus, active, free, growth, is_free, past_due, starter, trialing,
}
use truthpage.Plans.{move_tenant_to_free}
use truthpage.Jobs.{Tables}
use truthpage.Webhooks.{WebhookError, is_empty, scalar_one_or_none}

-- `subscription_id` is the key `id` of a subscription's event. `price_ids` are the ids of the items'
-- prices, where they have one.
pub record PaddleData : Type 0 where
  pub tenant_id : Option String
  -- A key that is there may hold null, the inner `none`.
  pub customer_id : Option (Option String)
  pub subscription_id : Option String
  pub status : Option String
  pub price_ids : List String

-- `_SUBSCRIPTION_STATUS_MAP.get(raw_status, "past_due")`
unfoldable pub mapped_status : String → SubscriptionStatus
mapped_status raw =
    if str_eq raw "active"
    then active
    else if str_eq raw "trialing"
    then trialing
    else if str_eq raw "past_due"
    then past_due
    else if str_eq raw "paused"
    then free
    else if str_eq raw "canceled"
    then free
    else past_due

abbrev pub is_sold : String → List String → Bool
is_sold price_id price_ids = not (is_empty price_id) && mem_str price_id price_ids

unfoldable pub plan_from_items : Settings → List String → Option PlanTier
plan_from_items cfg price_ids =
    if is_sold cfg.paddle_price_id_starter price_ids
    then some starter
    else if is_sold cfg.paddle_price_id_starter_yearly price_ids
    then some starter
    else if is_sold cfg.paddle_price_id_growth price_ids
    then some growth
    else if is_sold cfg.paddle_price_id_growth_yearly price_ids
    then some growth
    else none

abbrev pub with_id : ℕ → Tenant → Bool
with_id i t = t.id == i

-- `Tenant.paddle_customer_id == value`, which asks for NULL when the value is None.
abbrev pub with_customer : Option String → Tenant → Bool
with_customer none t = not (is_some t.paddle_customer_id)
with_customer (some c) t = elim t.paddle_customer_id [ none ↦ false | some k ↦ str_eq k c ]

-- `data.get("customer_id")` and `data.get("customer_id", "")`
abbrev pub customer_or_none : PaddleData → Option String
customer_or_none d = get_or d.customer_id none

abbrev pub customer_or_empty : PaddleData → Option String
customer_or_empty d = get_or d.customer_id (some "")

unfoldable pub find_tenant_by_id :
    (String → Option ℕ) → String → List Tenant → Result WebhookError (Option Tenant)
find_tenant_by_id uuid text tenants = elim (uuid text) [
  | none ↦ ok none
  | some i ↦ scalar_one_or_none (filter (with_id i) tenants)
]

unfoldable pub find_tenant_by_customer :
    Option String → List Tenant → Result WebhookError (Option Tenant)
find_tenant_by_customer customer tenants =
    scalar_one_or_none (filter (with_customer customer) tenants)

abbrev pub or_customer :
    Option String → List Tenant → Option Tenant → Result WebhookError (Option Tenant)
or_customer customer tenants (some t) = ok (some t)
or_customer none tenants none = ok none
or_customer (some c) tenants none =
    if is_empty c then ok none else find_tenant_by_customer (some c) tenants

abbrev pub by_reference :
    (String → Option ℕ) → Option String → List Tenant → Result WebhookError (Option Tenant)
by_reference uuid none tenants = ok none
by_reference uuid (some text) tenants =
    if is_empty text then ok none else find_tenant_by_id uuid text tenants

-- `if value: row.column = value`
abbrev pub overwrite : Option String → Option String → Option String
overwrite none old = old
overwrite (some value) old = if is_empty value then old else some value

abbrev pub activate : Settings → PaddleData → Tenant → Tenant
activate cfg d t = record t {
  paddle_customer_id = overwrite (customer_or_none d) t.paddle_customer_id;
  paddle_subscription_id = overwrite d.subscription_id t.paddle_subscription_id;
  plan = get_or (plan_from_items cfg d.price_ids) t.plan;
  subscription_status = active;
}

abbrev pub put_tenant : Tenant → Tables → Tables
put_tenant t db = record db { tenants = map (λ r. if with_id t.id r then t else r) db.tenants }

abbrev pub apply_payment : Settings → PaddleData → Tables → Option Tenant → Tables
apply_payment cfg d db none = db
apply_payment cfg d db (some t) = put_tenant (activate cfg d t) db

unfoldable pub handle_transaction_completed :
    Settings → (String → Option ℕ) → PaddleData → Tables → Result WebhookError Tables
handle_transaction_completed cfg uuid d db = do
  referred ← by_reference uuid d.tenant_id db.tenants
  tenant ← or_customer (customer_or_none d) db.tenants referred
  ok (apply_payment cfg d db tenant)

-- `move_tenant_to_free(tenant, db)`, seen in both tables.
unfoldable pub end_subscription : Settings → Tenant → Tables → Tables
end_subscription cfg t db =
    let m = move_tenant_to_free cfg t db.sources in
    put_tenant m.tenant (record db { sources = m.rows })

abbrev pub renewed : Settings → PaddleData → Tenant → Tenant
renewed cfg d t = record t {
  paddle_subscription_id = overwrite d.subscription_id t.paddle_subscription_id;
  plan = get_or (plan_from_items cfg d.price_ids) t.plan;
}

unfoldable pub apply_update : Settings → PaddleData → Tables → Option Tenant → Tables
unfolding end_subscription
apply_update cfg d db none = db
apply_update cfg d db (some t) =
    let status = mapped_status (get_or d.status "") in
    if is_free status
    then end_subscription cfg (renewed cfg d t) db
    else put_tenant (record (renewed cfg d t) { subscription_status = status }) db

unfoldable pub handle_subscription_updated :
    Settings → PaddleData → Tables → Result WebhookError Tables
unfolding apply_update
handle_subscription_updated cfg d db = do
  tenant ← find_tenant_by_customer (customer_or_empty d) db.tenants
  ok (apply_update cfg d db tenant)

unfoldable pub apply_cancellation : Settings → Tables → Option Tenant → Tables
unfolding end_subscription
apply_cancellation cfg db none = db
apply_cancellation cfg db (some t) = end_subscription cfg t db

unfoldable pub handle_subscription_canceled :
    Settings → PaddleData → Tables → Result WebhookError Tables
unfolding apply_cancellation
handle_subscription_canceled cfg d db = do
  tenant ← find_tenant_by_customer (customer_or_empty d) db.tenants
  ok (apply_cancellation cfg db tenant)

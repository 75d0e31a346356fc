-- ===== src/Paddle/Route.antt =====
-- app/routers/webhooks.py, the route of Paddle: the signature and the dispatch on the type of an event.
-- The digest, the decoder, the JSON parser and the parser of numbers are parameters. Headers are ASCII,
-- the clock of the signature counts whole seconds, and a body is bytes, written as the characters with
-- their codes.
use truthpage.Prelude.{
  Bool, List, Option, Result, String, [], err, false, get_or, if◌then◌else◌, none, not, ok,
  partition, raise_if, some, split, str_eq, ℕ, ◌&&◌, ◌<>◌, ◌>>=◌, ◌>>◌, ◌||◌, ◌∷◌,
}
use truthpage.Settings.{Settings}
use truthpage.Tenant.{Tenant}
use truthpage.Jobs.{Tables}
use truthpage.Webhooks.{
  WebhookError, invalid_payload, invalid_signature, is_empty, is_fresh, not_configured,
}
use truthpage.Paddle.{
  PaddleData, customer_or_empty, find_tenant_by_customer, handle_subscription_canceled,
  handle_subscription_updated, handle_transaction_completed,
}

pub record PaddleEvent : Type 0 where
  pub event_type : String
  -- The key `data`.
  pub details : PaddleData

pub record PaddleCodec : Type 0 where
  -- `int(…)`; a number below zero is none, being too old in any case.
  pub int : String → Option ℕ
  pub decode : String → Option String
  -- The hexadecimal text of HMAC-SHA256: key, then message.
  pub hexdigest : String → String → String
  pub loads : String → Option PaddleEvent

-- A call of `track`, which adds a row or fails without a trace.
pub record Tracked : Type 0 where
  pub event_name : String
  pub of_tenant : Option ℕ

-- `dict(p.split("=", 1) for p in parts if "=" in p).get(key)`: the last one counts.
unfoldable pub header_part : String → List String → Option String
header_part key [] = none
header_part key (p ∷ rest) =
    let later = header_part key rest in
    let (name, (found, value)) = partition 61 p in
    elim later [
      | none ↦ if found && str_eq name key then some value else none
      | some last ↦ some last
    ]

-- `parts.get(key)`, where a key without a value counts as a missing one.
abbrev pub part_of : String → String → String
part_of key sig_header = get_or (header_part key (split sig_header 59)) ""

unfoldable pub verify_signature : PaddleCodec → ℕ → String → String → String → Bool
verify_signature codec now payload sig_header secret =
    let ts = part_of "ts" sig_header in
    let h1 = part_of "h1" sig_header in
    if is_empty ts || is_empty h1
    then false
    else if not (is_fresh now (codec.int ts))
    then false
    else elim (codec.decode payload) [
      | none ↦ false
      | some decoded ↦ str_eq (codec.hexdigest secret (ts <> ":" <> decoded)) h1
    ]

abbrev pub or_invalid : Option PaddleEvent → Result WebhookError PaddleEvent
or_invalid none = err invalid_payload
or_invalid (some event) = ok event

abbrev pub id_of : Option Tenant → Option ℕ
id_of none = none
id_of (some t) = some t.id

-- `track(db, event_name, tenant_id=…)` for the customer of an event.
unfoldable pub track_customer :
    String → PaddleData → Tables → Result WebhookError (Tables × List Tracked)
track_customer event_name d db = do
  tenant ← find_tenant_by_customer (customer_or_empty d) db.tenants
  ok (db, record { event_name = event_name; of_tenant = id_of tenant } ∷ [])

abbrev pub untracked : Tables → Result WebhookError (Tables × List Tracked)
untracked db = ok (db, [])

unfoldable pub dispatch :
    Settings
    → (String → Option ℕ)
    → PaddleEvent
    → Tables
    → Result WebhookError (Tables × List Tracked)
unfolding track_customer
dispatch cfg uuid event db =
    let type = event.event_type in
    let d = event.details in
    if str_eq type "transaction.completed"
    then (handle_transaction_completed cfg uuid d db >>= untracked)
    else if str_eq type "subscription.updated"
    then (handle_subscription_updated cfg d db >>= untracked)
    else if str_eq type "subscription.activated"
    then (handle_subscription_updated cfg d db >>= track_customer "subscription_started" d)
    else if str_eq type "subscription.canceled"
    then (handle_subscription_canceled cfg d db >>= track_customer "subscription_canceled" d)
    else untracked db

-- POST /webhooks/paddle; `now` is `time.time()`.
unfoldable pub paddle_webhook :
    PaddleCodec
    → Settings
    → (String → Option ℕ)
    → ℕ
    → String
    → String
    → String
    → Tables
    → Result WebhookError (Tables × List Tracked)
paddle_webhook codec cfg uuid now secret payload sig_header db = do
  raise_if (is_empty secret) not_configured
  raise_if (not (verify_signature codec now payload sig_header secret)) invalid_signature
  event ← or_invalid (codec.loads payload)
  dispatch cfg uuid event db

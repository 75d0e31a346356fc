-- ===== src/Webhooks.antt =====
-- app/routers/webhooks.py, the deliveries that Resend reports: the signature, the event and the log.
-- The digest, the base64 decoder, the JSON parser and the parsers of numbers and dates are parameters.
-- Headers are ASCII, as HTTP has them; the clock of the signature counts whole seconds.
pub mod Delivery
mod Tests
use truthpage.Prelude.{
  Bool, List, Option, Result, String, Time, [], any, concat, err, false, filter, get_or,
  if◌then◌else◌, join, leb, ltb, none, not, ok, raise_if, some, split, str_eq, suc, zero, ℕ, ◌&&◌,
  ◌++◌, ◌-◌, ◌>>=◌, ◌>>◌, ◌||◌, ◌∷◌,
}
use truthpage.Notice.{is_prefix}
use truthpage.Notification.{
  DeliveryEventType, NotificationDeliveryEvent, NotificationRecipient, bounced, deferred, delivered,
  failed,
}

-- What a request can be refused with, and the exception of a query that finds two rows.
pub data WebhookError : Type 0 where
  not_configured invalid_signature invalid_payload multiple_results_found : WebhookError

pub record ResendEvent : Type 0 where
  pub type : String
  pub email_id : Option String
  pub created_at : Option String

pub record Headers : Type 0 where
  pub svix_id : String
  pub svix_timestamp : String
  pub svix_signature : String

pub record Codec : Type 0 where
  -- `int(…)`; a number below zero is none, being too old in any case.
  pub int : String → Option ℕ
  pub b64decode : String → Option String
  -- The base64 text of HMAC-SHA256: key, then message.
  pub digest : String → String → String
  pub loads : String → Option ResendEvent
  pub fromisoformat : String → Option Time

abbrev pub signature_max_age_seconds : ℕ
signature_max_age_seconds = 300

-- abs(a - b)
abbrev pub distance : ℕ → ℕ → ℕ
distance a b = if ltb a b then b - a else a - b

abbrev pub is_empty : String → Bool
is_empty s = str_eq s ""

-- One "v1,<sig>" pair, taken apart at its first comma.
abbrev pub pair_matches : String → List String → Bool
pair_matches expected [] = false
pair_matches expected (version ∷ rest) =
    let sig = join "," rest in str_eq version "v1" && not (is_empty sig) && str_eq sig expected

drop_chars : ℕ → String → String
drop_chars zero s = s
drop_chars (suc n) String.[] = String.[]
drop_chars (suc n) (String.◌∷◌ c s) = drop_chars n s

-- `secret.removeprefix("whsec_")`
unfoldable pub remove_prefix : String → String
unfolding drop_chars
remove_prefix secret = if is_prefix "whsec_" secret then drop_chars 6 secret else secret

-- The keyed digest of what is signed, with the secret decoded.
abbrev pub expected_signature : Codec → String → Headers → String → String
expected_signature codec payload h key =
    codec.digest key (concat h.svix_id (concat "." (concat h.svix_timestamp (concat "." payload))))

abbrev pub is_fresh : ℕ → Option ℕ → Bool
is_fresh now none = false
is_fresh now (some sent) = leb (distance now sent) signature_max_age_seconds

abbrev pub some_pair_matches : Codec → String → Headers → Option String → Bool
some_pair_matches codec payload h none = false
some_pair_matches codec payload h (some key) =
    any (λ part. pair_matches (expected_signature codec payload h key) (split part 44))
      (split h.svix_signature 32)

unfoldable pub verify_resend_signature : Codec → ℕ → String → Headers → String → Bool
verify_resend_signature codec now payload h secret =
    if is_empty h.svix_id || is_empty h.svix_timestamp || is_empty h.svix_signature
    then false
    else if not (is_fresh now (codec.int h.svix_timestamp))
    then false
    else some_pair_matches codec payload h (codec.b64decode (remove_prefix secret))

-- `_RESEND_EVENT_TYPE_MAP.get(…)`
unfoldable pub event_type_of : String → Option DeliveryEventType
event_type_of type =
    if str_eq type "email.delivered"
    then some delivered
    else if str_eq type "email.bounced"
    then some bounced
    else if str_eq type "email.delivery_delayed"
    then some deferred
    else if str_eq type "email.failed"
    then some failed
    else none

-- `_parse_resend_timestamp(…) or utc_now()`
abbrev pub occurred : Codec → Time → Option String → Time
occurred codec now none = now
occurred codec now (some text) =
    if is_empty text then now else get_or (codec.fromisoformat text) now

abbrev pub has_message : String → NotificationRecipient → Bool
has_message email_id r = elim r.resend_message_id [ none ↦ false | some m ↦ str_eq m email_id ]

-- `scalar_one_or_none()`
unfoldable pub scalar_one_or_none {ℓ} : {A : Type ℓ} → List A → Result WebhookError (Option A)
scalar_one_or_none [] = ok none
scalar_one_or_none (x ∷ []) = ok (some x)
scalar_one_or_none (x ∷ y ∷ ys) = err multiple_results_found

abbrev pub has_webhook_id : String → NotificationDeliveryEvent → Bool
has_webhook_id i e = str_eq e.webhook_event_id i

-- `webhook_event_id` has a unique index: a second row with it is an IntegrityError, and a rollback.
unfoldable pub add_event :
    NotificationDeliveryEvent → List NotificationDeliveryEvent → List NotificationDeliveryEvent
add_event e log = if any (has_webhook_id e.webhook_event_id) log then log else log ++ e ∷ []

unfoldable pub log_event :
    Codec
    → Time
    → ResendEvent
    → String
    → DeliveryEventType
    → Option NotificationRecipient
    → List NotificationDeliveryEvent
    → List NotificationDeliveryEvent
unfolding add_event
log_event codec now event webhook_event_id type none log = log
log_event codec now event webhook_event_id type (some recipient) log =
    add_event
      (record {
        recipient_id = recipient.id;
        event_type = type;
        occurred_at = occurred codec now event.created_at;
        webhook_event_id = webhook_event_id;
        raw_type = event.type;
      })
      log

-- On the tables of recipients and of delivery events.
unfoldable pub handle_resend_delivery_event :
    Codec
    → Time
    → ResendEvent
    → String
    → List NotificationRecipient
    → List NotificationDeliveryEvent
    → Result WebhookError (List NotificationDeliveryEvent)
unfolding log_event
handle_resend_delivery_event codec now event webhook_event_id recipients log =
    elim (event_type_of event.type) [
      | none ↦ ok log
      | some type ↦
          let email_id = get_or event.email_id "" in
          if is_empty email_id then ok log else (do
            recipient ← scalar_one_or_none (filter (has_message email_id) recipients)
            ok (log_event codec now event webhook_event_id type recipient log))
    ]

abbrev or_refuse : Option ResendEvent → Result WebhookError ResendEvent
or_refuse none = err invalid_payload
or_refuse (some event) = ok event

-- POST /webhooks/resend; `now_seconds` is `time.time()`.
unfoldable pub resend_webhook :
    Codec
    → ℕ
    → Time
    → String
    → String
    → Headers
    → List NotificationRecipient
    → List NotificationDeliveryEvent
    → Result WebhookError (List NotificationDeliveryEvent)
resend_webhook codec now_seconds now secret payload h recipients log = do
  raise_if (is_empty secret) not_configured
  raise_if (not (verify_resend_signature codec now_seconds payload h secret)) invalid_signature
  event ← or_refuse (codec.loads payload)
  handle_resend_delivery_event codec now event h.svix_id recipients log

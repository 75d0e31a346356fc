-- ===== src/Notification.antt =====
-- app/db/models/notification.py and app/services/notifications.py: who a notice went to, the log of
-- delivery events, and the status derived from it.
pub mod Derived
pub mod Counts
mod Tests
use truthpage.Prelude.{
  Bool, List, Option, String, Time, [], any, count, false, filter, if◌then◌else◌, is_some, leb, ltb,
  none, not, some, str_eq, true, ℕ, ◌&&◌, ◌+◌, ◌==◌, ◌||◌, ◌∷◌,
}

pub data DeliveryEventType : Type 0 where
  delivered bounced deferred failed : DeliveryEventType

-- One row of the append-only log. `webhook_event_id` is unique.
pub record NotificationDeliveryEvent : Type 0 where
  pub recipient_id : ℕ
  pub event_type : DeliveryEventType
  pub occurred_at : Time
  pub webhook_event_id : String
  pub raw_type : String

pub record NotificationRecipient : Type 0 where
  pub id : ℕ
  pub change_event_id : ℕ
  pub recipient_email : String
  pub resend_message_id : Option String
  pub send_error : Option String
  pub last_manual_resend_at : Option Time
  pub last_manual_resend_by : Option String
  pub manually_resolved_at : Option Time
  pub manually_resolved_by : Option String
  pub manually_resolved_note : Option String

-- The words that `derive_recipient_status` returns.
pub data DeliveryStatus : Type 0 where
  send_failed resolved has_bounced has_failed was_delivered is_deferred queued : DeliveryStatus

abbrev pub type_eq : DeliveryEventType → DeliveryEventType → Bool
type_eq delivered delivered = true
type_eq bounced bounced = true
type_eq deferred deferred = true
type_eq failed failed = true
type_eq _ _ = false

-- `t in types_seen`
abbrev pub seen : DeliveryEventType → List NotificationDeliveryEvent → Bool
seen t events = any (λ e. type_eq e.event_type t) events

-- The truth of a string or None: an empty string is false.
abbrev pub is_truthy : Option String → Bool
is_truthy none = false
is_truthy (some s) = not (str_eq s "")

-- The events from the last manual resend on, or all of them.
unfoldable pub current_events :
    Option Time → List NotificationDeliveryEvent → List NotificationDeliveryEvent
current_events none events = events
current_events (some since) events = filter (λ e. leb since e.occurred_at) events

-- The recipient and its `delivery_events`.
unfoldable pub derive_recipient_status :
    NotificationRecipient → List NotificationDeliveryEvent → DeliveryStatus
unfolding current_events
derive_recipient_status r delivery_events =
    let events = current_events r.last_manual_resend_at delivery_events in
    if not (is_some r.resend_message_id) && is_truthy r.send_error
    then send_failed
    else if seen bounced events || seen failed events
    then (if is_some r.manually_resolved_at
        then resolved
        else if seen bounced events
        then has_bounced
        else has_failed)
    else if seen delivered events
    then was_delivered
    else if seen deferred events
    then is_deferred
    else queued

abbrev pub is_delivered : DeliveryStatus → Bool
is_delivered was_delivered = true
is_delivered _ = false

-- `_GAP_STATUSES`
abbrev pub is_gap : DeliveryStatus → Bool
is_gap has_bounced = true
is_gap has_failed = true
is_gap resolved = true
is_gap send_failed = true
is_gap _ = false

pub record Summary : Type 0 where
  pub delivered_count : ℕ
  pub bounced_count : ℕ

-- The loop of `summarize_recipients`, over the recipients with their events.
summarize_loop : List (NotificationRecipient × List NotificationDeliveryEvent) → ℕ → ℕ → Summary
summarize_loop [] d g = record { delivered_count = d; bounced_count = g }
summarize_loop ((r, events) ∷ rest) d g =
    let status = derive_recipient_status r events in
    summarize_loop rest (if is_delivered status then d + 1 else d)
      (if is_delivered status then g else if is_gap status then g + 1 else g)

unfoldable pub summarize_recipients :
    List (NotificationRecipient × List NotificationDeliveryEvent) → Summary
unfolding summarize_loop
summarize_recipients recipients = summarize_loop recipients 0 0

-- What `compute_objection_status` says, with the moments and the number that it prints.
pub data ObjectionStatus : Type 0 where
  not_available : ObjectionStatus
  objections_recorded : ℕ → ObjectionStatus
  window_open : Time → ObjectionStatus
  no_objection_as_of : Time → ObjectionStatus

-- `now < closes_at`, if the window has an end.
window_status : Option Time → Time → ObjectionStatus
window_status none now = no_objection_as_of now
window_status (some closes_at) now =
    if ltb now closes_at then window_open closes_at else no_objection_as_of now

-- From `recipient_count`, the number of objections and `window_closes_at` of the event. A count of
-- zero is false, as None is.
unfoldable pub compute_objection_status : Option ℕ → ℕ → Option Time → Time → ObjectionStatus
unfolding window_status
compute_objection_status none objections closes_at now = not_available
compute_objection_status (some count) objections closes_at now =
    if count == 0
    then not_available
    else if ltb 0 objections
    then objections_recorded objections
    else window_status closes_at now

-- ===== src/Notification/Derived.antt =====
-- The derived status does not depend on the order of the log, and a failure sticks.
use mathlib.Core.List.{append-nil}
use truthpage.Prelude.{
  List, Option, Time, [], ap, arith, false, none, refl, some, true, ◌++◌, ◌||◌, ◌∙◌, ◌∷◌, ◌≡◌,
}
use truthpage.Notification.{
  DeliveryEventType, NotificationDeliveryEvent, NotificationRecipient, bounced, current_events,
  deferred, delivered, derive_recipient_status, failed, is_delivered, is_gap, seen,
}

abbrev events_since :
    NotificationRecipient → List NotificationDeliveryEvent → List NotificationDeliveryEvent
events_since r = current_events r.last_manual_resend_at

seen-append :
    (t : DeliveryEventType) (xs ys : List NotificationDeliveryEvent)
    → seen t (xs ++ ys) ≡ (seen t xs || seen t ys)
seen-append t [] ys = refl
seen-append t (x ∷ xs) ys = ground (arith, seen-append t xs ys)

current_events-append :
    (since : Option Time) (xs ys : List NotificationDeliveryEvent)
    → current_events since (xs ++ ys) ≡ current_events since xs ++ current_events since ys
unfolding current_events
current_events-append none xs ys = refl
current_events-append (some s) [] ys = refl
current_events-append (some s) (x ∷ xs) ys = ground (arith, current_events-append (some s) xs ys)

seen_current-append :
    (r : NotificationRecipient) (t : DeliveryEventType) (xs ys : List NotificationDeliveryEvent)
    → seen t (events_since r (xs ++ ys))
      ≡ (seen t (events_since r xs) || seen t (events_since r ys))
seen_current-append r t xs ys =
    ap (seen t) (current_events-append r.last_manual_resend_at xs ys)
    ∙ seen-append t (events_since r xs) (events_since r ys)

seen_none : (r : NotificationRecipient) (t : DeliveryEventType) → seen t (events_since r []) ≡ false
unfolding current_events
seen_none r t =
    elim r.last_manual_resend_at as (λ since. seen t (current_events since []) ≡ false) [
      | none ↦ refl
      | some s ↦ refl
    ]

-- Two logs in which each type of event occurs alike, among the events that count, give one status.
derive-of_seen :
    (r : NotificationRecipient) (xs ys : List NotificationDeliveryEvent)
    → ((t : DeliveryEventType) → seen t (events_since r xs) ≡ seen t (events_since r ys))
    → derive_recipient_status r xs ≡ derive_recipient_status r ys
unfolding derive_recipient_status
derive-of_seen r xs ys same =
    ground (arith, same bounced, same failed, same delivered, same deferred)

seen_exchanged :
    (r : NotificationRecipient) (t : DeliveryEventType)
    (before xs between ys after : List NotificationDeliveryEvent)
    → seen t (events_since r (before ++ xs ++ between ++ ys ++ after)) ≡ (
        seen t (events_since r before)
        || seen t (events_since r xs)
        || seen t (events_since r between)
        || seen t (events_since r ys)
        || seen t (events_since r after))
seen_exchanged r t before xs between ys after = ground (
  arith,
  seen_current-append r t before xs,
  seen_current-append r t (before ++ xs) between,
  seen_current-append r t (before ++ xs ++ between) ys,
  seen_current-append r t (before ++ xs ++ between ++ ys) after,
)

-- Late and early events count the same: exchanging any two stretches of the log, with whatever
-- stands before, between and after them, leaves the status as it is.
pub derive-append_comm :
    (r : NotificationRecipient) (before xs between ys after : List NotificationDeliveryEvent)
    → derive_recipient_status r (before ++ xs ++ between ++ ys ++ after)
      ≡ derive_recipient_status r (before ++ ys ++ between ++ xs ++ after)
derive-append_comm r before xs between ys after = derive-of_seen r _ _ (λ t. ground (
  arith,
  seen_exchanged r t before xs between ys after,
  seen_exchanged r t before ys between xs after,
))

-- An event that stands in the log a second time, anywhere behind its first place, changes nothing.
pub derive-append_self :
    (r : NotificationRecipient) (e : NotificationDeliveryEvent)
    (before between after : List NotificationDeliveryEvent)
    → derive_recipient_status r (before ++ (e ∷ []) ++ between ++ (e ∷ []) ++ after)
      ≡ derive_recipient_status r (before ++ (e ∷ []) ++ between ++ after)
derive-append_self r e before between after =
    derive-of_seen r _ _ (λ t. ground (
      arith,
      seen_exchanged r t before (e ∷ []) between (e ∷ []) after,
      seen_exchanged r t before (e ∷ []) between [] after,
      seen_none r t,
    ))
    ∙ ap (λ log. derive_recipient_status r (log ++ after)) (append-nil _)

-- Once a recipient counts as a gap, no event that arrives later takes it out of the gap, and it
-- never counts as delivered.
pub gap_sticks :
    (r : NotificationRecipient) (xs ys : List NotificationDeliveryEvent)
    → is_gap (derive_recipient_status r xs) ≡ true
    → (is_gap (derive_recipient_status r (xs ++ ys)) ≡ true)
      × (is_delivered (derive_recipient_status r (xs ++ ys)) ≡ false)
unfolding derive_recipient_status
gap_sticks r xs ys h = (
  ground (arith, seen_current-append r bounced xs ys, seen_current-append r failed xs ys),
  ground (arith, seen_current-append r bounced xs ys, seen_current-append r failed xs ys),
)

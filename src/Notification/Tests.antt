-- ===== src/Notification/Tests.antt =====
-- Instances of the theorems on delivery.
use truthpage.Prelude.{List, [], count, false, none, refl, some, true, ◌+◌, ◌∷◌, ◌≡◌, ◌≤◌}
use truthpage.Notification.{
  NotificationDeliveryEvent, NotificationRecipient, bounced, delivered, derive_recipient_status,
  is_delivered, is_gap, summarize_recipients,
}
use truthpage.Notification.Derived.{derive-append_comm, derive-append_self, gap_sticks}
use truthpage.Notification.Counts.{status_of, summarize_recipients_lem}

abbrev reader : NotificationRecipient
reader = record {
  id = 1;
  change_event_id = 3;
  recipient_email = "reader@b.test";
  resend_message_id = some "m1";
  send_error = none;
  last_manual_resend_at = none;
  last_manual_resend_by = none;
  manually_resolved_at = none;
  manually_resolved_by = none;
  manually_resolved_note = none;
}

abbrev bounce : NotificationDeliveryEvent
bounce = record {
  recipient_id = 1;
  event_type = bounced;
  occurred_at = 50;
  webhook_event_id = "w1";
  raw_type = "email.bounced";
}

abbrev delivery : NotificationDeliveryEvent
delivery = record bounce { event_type = delivered; occurred_at = 60; webhook_event_id = "w2" }

derive-append_comm_example :
    derive_recipient_status reader (bounce ∷ delivery ∷ [])
    ≡ derive_recipient_status reader (delivery ∷ bounce ∷ [])
derive-append_comm_example = derive-append_comm reader [] (bounce ∷ []) [] (delivery ∷ []) []

derive-append_self_example :
    derive_recipient_status reader (bounce ∷ bounce ∷ [])
    ≡ derive_recipient_status reader (bounce ∷ [])
derive-append_self_example = derive-append_self reader bounce [] [] []

gap_sticks_example :
    (is_gap (derive_recipient_status reader (bounce ∷ delivery ∷ [])) ≡ true)
    × (is_delivered (derive_recipient_status reader (bounce ∷ delivery ∷ [])) ≡ false)
unfolding derive_recipient_status
gap_sticks_example = gap_sticks reader (bounce ∷ []) (delivery ∷ []) refl

abbrev rs : List (NotificationRecipient × List NotificationDeliveryEvent)
rs = (reader, bounce ∷ []) ∷ (reader, delivery ∷ []) ∷ []

summarize_recipients_example :
    let s = summarize_recipients rs in
    (s.delivered_count ≡ count (λ r. is_delivered (status_of r)) rs)
    × (s.bounced_count ≡ count (λ r. is_gap (status_of r)) rs)
    × (s.delivered_count + s.bounced_count ≤ 2)
summarize_recipients_example = summarize_recipients_lem rs

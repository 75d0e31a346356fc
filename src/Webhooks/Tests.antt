-- ===== src/Webhooks/Tests.antt =====
-- Instances of the theorems on webhooks.
use truthpage.Prelude.{
  String, [], concat, err, if◌then◌else◌, join, none, ok, refl, some, split, str_eq, ◌∷◌, ◌≡◌, ◌≢◌,
}
use truthpage.Notification.{NotificationDeliveryEvent, NotificationRecipient, bounced}
use truthpage.Webhooks.{
  Codec, Headers, ResendEvent, event_type_of, handle_resend_delivery_event, invalid_signature,
  remove_prefix, resend_webhook, scalar_one_or_none, verify_resend_signature,
}
use truthpage.Webhooks.Delivery.{
  Appends, IsSigned, handle_resend_delivery_event-again, resend_webhook_lem,
}

abbrev bounce : ResendEvent
bounce = record { type = "email.bounced"; email_id = some "m1"; created_at = none }

abbrev codec : Codec
codec = record {
  int = λ text. if str_eq text "1000" then some 1000 else none;
  b64decode = λ text. some text;
  digest = λ key message. concat key message;
  loads = λ payload. some bounce;
  fromisoformat = λ text. none;
}

abbrev reader : NotificationRecipient
reader = record {
  id = 4;
  change_event_id = 3;
  recipient_email = "reader@b.test";
  resend_message_id = some "m1";
  send_error = none;
  last_manual_resend_at = none;
  last_manual_resend_by = none;
  manually_resolved_at = none;
  manually_resolved_by = none;
  manually_resolved_note = none;
}

abbrev logged : NotificationDeliveryEvent
logged = record {
  recipient_id = 4;
  event_type = bounced;
  occurred_at = 70;
  webhook_event_id = "w1";
  raw_type = "email.bounced";
}

once : handle_resend_delivery_event codec 70 bounce "w1" (reader ∷ []) [] ≡ ok (logged ∷ [])
unfolding handle_resend_delivery_event event_type_of scalar_one_or_none
once = refl

handle_resend_delivery_event-again_example :
    handle_resend_delivery_event codec 90 bounce "w1" (reader ∷ []) (logged ∷ []) ≡ ok (logged ∷ [])
handle_resend_delivery_event-again_example =
    handle_resend_delivery_event-again codec 70 90 bounce "w1" (reader ∷ []) [] (logged ∷ []) once

-- The signature of this request, after one of another version.
abbrev headers : Headers
headers = record { svix_id = "w1"; svix_timestamp = "1000"; svix_signature = "v0,x v1,kw1.1000.{}" }

accepted : resend_webhook codec 1100 70 "whsec_k" "{}" headers (reader ∷ []) [] ≡ ok (logged ∷ [])
unfolding resend_webhook handle_resend_delivery_event event_type_of scalar_one_or_none
    verify_resend_signature remove_prefix split join
accepted = refl

resend_webhook_lem_example :
    (◌≢◌ {A = String} "whsec_k" "")
    × IsSigned codec 1100 "{}" headers "whsec_k"
    × Appends "w1" (reader ∷ []) [] (logged ∷ [])
resend_webhook_lem_example =
    resend_webhook_lem codec 1100 70 "whsec_k" "{}" headers (reader ∷ []) [] (logged ∷ []) accepted

-- Ten minutes later the same request is refused.
too_old :
    resend_webhook codec 1600 70 "whsec_k" "{}" headers (reader ∷ []) [] ≡ err invalid_signature
unfolding resend_webhook verify_resend_signature
too_old = refl

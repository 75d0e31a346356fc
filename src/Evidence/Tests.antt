-- ===== src/Evidence/Tests.antt =====
-- Tests of the delivery log.
use Prim.Native.String.{char_at}
use truthpage.Prelude.{List, [], none, refl, some, sort_by, take_chars, ◌∷◌, ◌≡◌}
use truthpage.Notification.{
  NotificationDeliveryEvent, NotificationRecipient, derive_recipient_status,
}
use truthpage.Evidence.Manifest.{redacted}
use truthpage.Evidence.Pack.{delivery_log_csv, delivery_log_row, last_event_at, redact_email}
use truthpage.Evidence.Toy.{toy}
use truthpage.Evidence.{iso_utc}
use truthpage.Evidence.Redacted.{NamedReader, addressed, delivery_log_csv-masked}

abbrev jane : NotificationRecipient × List NotificationDeliveryEvent
jane = (
  record {
    id = 1;
    change_event_id = 3;
    recipient_email = "jane@acme.test";
    resend_message_id = some "m1";
    send_error = none;
    last_manual_resend_at = none;
    last_manual_resend_by = none;
    manually_resolved_at = none;
    manually_resolved_by = none;
    manually_resolved_note = none;
  },
  [],
)

jane_row :
    delivery_log_row toy redacted jane ≡ "j***@acme.test" ∷ "queued" ∷ "" ∷ "m1" ∷ "no" ∷ "" ∷ []
unfolding delivery_log_row derive_recipient_status redact_email take_chars last_event_at iso_utc
    sort_by
jane_row = refl

abbrev jane_or_joan : NamedReader
jane_or_joan = record {
  recipient = jane.0;
  events = [];
  first = char_at "j" 0;
  domain = "acme.test";
  rest = "ane";
  other = "oan";
  first_named = refl;
  rest_named = refl;
  other_named = refl;
}

delivery_log_csv-masked_example :
    delivery_log_csv toy (addressed (λ y. y.rest) jane_or_joan ∷ []) redacted
    ≡ delivery_log_csv toy (addressed (λ y. y.other) jane_or_joan ∷ []) redacted
delivery_log_csv-masked_example = delivery_log_csv-masked toy (jane_or_joan ∷ [])

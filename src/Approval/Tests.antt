-- ===== src/Approval/Tests.antt =====
-- Instances of the theorems on approval and release.
use truthpage.Prelude.{
  All, List, String, [], count, err, false, inr, length, map, none, ok, refl, some, str_eq, true,
  ◌&&◌, ◌+◌, ◌∷◌, ◌≡◌,
}
use truthpage.Settings.{defaults}
use truthpage.Tenant.{objection_contact_email}
use truthpage.ChangeEvent.{ChangeEvent, approved, notice_released_by_reviewer, rejected}
use truthpage.Notice.{resolve_notice_placeholders}
use truthpage.Notification.{NotificationRecipient}
use truthpage.Approval.{
  NoticeMail, Released, Review, Services, Subscriber, add_recipients, already_released, approve,
  confirmed_recipients, notice_mail, release_event,
}
use truthpage.Approval.Release.{
  IsNoticeOf, IsReleasable, is_reader, release_event-eq, release_event-ok, released_event,
}
use truthpage.Approval.Frozen.{
  KeepsFrozen, ReviewReach, approves, drafts, frozen_forever, here, next,
}
use truthpage.Approval.Once.{decided_forever, release_event-shows, released_once}
use truthpage.Samples.{acme, change}

abbrev services : Services
services = record {
  notice_preview_token = λ body. body;
  send = λ mail. record { resend_message_id = some mail.to; error = none };
  ids = λ n. n + 1;
}

abbrev reader : Subscriber
reader = record {
  id = 1;
  tenant_id = 1;
  email = "reader@b.test";
  confirmed = true;
  is_active = true;
  unsubscribe_token = "t";
}

abbrev subscribers : List Subscriber
subscribers = reader ∷ record reader { id = 2; confirmed = false } ∷ []

abbrev review : Review
review = record {
  reviewer_name = "Ada";
  reviewer_email = "owner@acme.test";
  preview_token = "Stripe changed its list.";
}

abbrev drafted : ChangeEvent
drafted = record change {
  status = approved;
  notice_subject = some "A change";
  notice_body = some "Stripe changed its list.";
}

drafted-IsReleasable : IsReleasable services.notice_preview_token review drafted
drafted-IsReleasable = record {
  unreleased = record {
    name = refl;
    email = refl;
    at = refl;
    action = refl;
    frozen_subject = refl;
    frozen_body = refl;
    frozen_at = refl;
    reached = refl;
    window = refl;
    closes = refl;
  };
  is_approved = refl;
  subject = "A change";
  body = "Stripe changed its list.";
  has_subject = refl;
  has_body = refl;
  seen_body = refl;
}

abbrev sent : Released
sent =
    let event = released_event review 100 acme "A change" "Stripe changed its list." 1 drafted in
    let to_send = map (notice_mail acme event) (confirmed_recipients defaults 1 subscribers) in
    record {
      event = event;
      mails = to_send;
      recipients = add_recipients services.ids services.send 3 to_send 0;
    }

release_event-ok_example :
    (sent' : Released) × (release_event defaults services 100 acme subscribers review drafted
      ≡ ok sent')
    × (sent'.event ≡ released_event review 100 acme "A change" "Stripe changed its list." 1 drafted)
    × ((address : String)
        → count (λ (m : NoticeMail). str_eq m.to address) sent'.mails
          ≡ count (λ s. is_reader acme s && str_eq s.email address) subscribers)
    × All (IsNoticeOf acme sent'.event) sent'.mails
    × (map (λ (r : NotificationRecipient). r.recipient_email) sent'.recipients
        ≡ map (λ (m : NoticeMail). m.to) sent'.mails)
unfolding drafted-IsReleasable
release_event-ok_example =
    release_event-ok defaults services 100 acme subscribers review drafted drafted-IsReleasable

drafted-sent : release_event defaults services 100 acme subscribers review drafted ≡ ok sent
unfolding confirmed_recipients drafted-IsReleasable
drafted-sent =
    release_event-eq defaults services 100 acme subscribers review drafted drafted-IsReleasable

release_event-shows_example :
    (body : String) × (drafted.status ≡ approved)
    × (drafted.review_action ≡ none)
    × (drafted.notice_body ≡ some body)
    × (body ≡ review.preview_token)
    × (sent.event.notice_frozen_body
        ≡ some (resolve_notice_placeholders "A change" body 30 (objection_contact_email acme)).1)
    × (sent.event.review_action ≡ some notice_released_by_reviewer)
    × (sent.event.reviewed_by_name ≡ some review.reviewer_name)
    × (sent.event.recipient_count ≡ some (length (confirmed_recipients defaults 1 subscribers)))
    × (sent.event.status ≡ approved)
release_event-shows_example =
    release_event-shows defaults services 100 acme subscribers review drafted sent drafted-sent

abbrev redrafted : ChangeEvent
redrafted = record sent.event { notice_subject = some "Again"; notice_body = some "Another text." }

redrafted-reach : ReviewReach sent.event redrafted
redrafted-reach = next here (drafts "Again" "Another text." refl)

frozen_forever_example : KeepsFrozen sent.event redrafted
frozen_forever_example = frozen_forever redrafted-reach

abbrev turned_down : ChangeEvent
turned_down = record drafted { status = rejected }

-- Nobody can approve a rejected change.
decided_forever_example : (approve "late" 300 turned_down).status ≡ rejected
decided_forever_example = decided_forever (inr refl) (next here (approves "late" 300 refl))

released_once_example :
    release_event defaults services 200 acme subscribers review redrafted ≡ err already_released
released_once_example =
    released_once defaults services 100 acme subscribers review drafted sent drafted-sent redrafted
      redrafted-reach defaults services 200 acme subscribers review

-- Only the confirmed subscriber is written to.
one_mail : map (λ (m : NoticeMail). m.to) sent.mails ≡ "reader@b.test" ∷ []
unfolding confirmed_recipients
one_mail = refl

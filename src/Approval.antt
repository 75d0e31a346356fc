-- ===== src/Approval.antt =====
-- app/services/approval.py: the decision on a change and the release of its notice. Rows are looked
-- up by their primary key. The mail service and the digest of the preview token are parameters.
pub mod Release
pub mod Frozen
pub mod Once
mod Tests
use truthpage.Prelude.{
  Bool, List, Option, Result, String, Time, [], concat, days, err, false, filter, get_or,
  if◌then◌else◌, is_some, length, map, none, not, ok, raise_if, some, str_eq, suc, true, zero, ℕ,
  ◌&&◌, ◌+◌, ◌==◌, ◌>>=◌, ◌>>◌, ◌∷◌,
}
use truthpage.Settings.{Settings}
use truthpage.Tenant.{Tenant, objection_contact_email}
use truthpage.ChangeEvent.{
  ChangeEvent, ChangeStatus, action_eq, approved, guard_frozen, notice_released_by_reviewer,
  rejected,
}
use truthpage.Notification.{NotificationRecipient}
use truthpage.Notice.{resolve_notice_placeholders}

-- app/db/models/subscriber.py
pub record Subscriber : Type 0 where
  pub id : ℕ
  pub tenant_id : ℕ
  pub email : String
  pub confirmed : Bool
  pub is_active : Bool
  pub unsubscribe_token : String

-- `_TERMINAL_STATUSES`
abbrev pub is_terminal : ChangeStatus → Bool
is_terminal approved = true
is_terminal rejected = true
is_terminal _ = false

abbrev pub is_approved : ChangeStatus → Bool
is_approved approved = true
is_approved _ = false

unfoldable pub approve : String → Time → ChangeEvent → ChangeEvent
approve approved_by_user now event = if is_terminal event.status then event else record event {
  status = approved;
  approved_by = some approved_by_user;
  approved_at = some now;
}

unfoldable pub reject : String → Time → ChangeEvent → ChangeEvent
reject rejected_by_user now event = if is_terminal event.status then event else record event {
  status = rejected;
  approved_by = some rejected_by_user;
  approved_at = some now;
}

-- On the table: the row with this id, if there is one.
unfoldable pub approve_change_event : ℕ → String → Time → List ChangeEvent → List ChangeEvent
approve_change_event change_event_id user now =
    map (λ e. if e.id == change_event_id then approve user now e else e)

unfoldable pub reject_change_event : ℕ → String → Time → List ChangeEvent → List ChangeEvent
reject_change_event change_event_id user now =
    map (λ e. if e.id == change_event_id then reject user now e else e)

abbrev pub reaches : ℕ → Subscriber → Bool
reaches tenant_id s = (s.tenant_id == tenant_id) && s.confirmed && s.is_active

-- Address and unsubscribe link of every confirmed, active subscriber.
unfoldable pub confirmed_recipients : Settings → ℕ → List Subscriber → List (String × String)
confirmed_recipients cfg tenant_id subscribers =
    map
      (λ s. (s.email, concat cfg.app_url (concat "/trust/unsubscribe?token=" s.unsubscribe_token)))
      (filter (reaches tenant_id) subscribers)

-- The texts that `release_notice` returns when it refuses, and the exceptions that it could raise.
pub data ReleaseError : Type 0 where
  no_longer_exists not_approved already_released not_drafted text_changed : ReleaseError
  frozen_field attribute_error : ReleaseError

-- What the service sends to one address.
pub record NoticeMail : Type 0 where
  pub to : String
  pub unsubscribe_url : String
  pub reply_to : String
  pub subject : String
  pub body : String

-- What the mail service answers for a mail: the message id, or the error.
pub record SendResult : Type 0 where
  pub resend_message_id : Option String
  pub error : Option String

-- The event after the release, the mails sent and the rows added for them.
pub record Released : Type 0 where
  pub event : ChangeEvent
  pub mails : List NoticeMail
  pub recipients : List NotificationRecipient

-- Who releases, and the token of the page that they saw.
pub record Review : Type 0 where
  pub reviewer_name : String
  pub reviewer_email : String
  pub preview_token : String

abbrev or_raise {ℓ} : {A : Type ℓ} → Option A → ReleaseError → Result ReleaseError A
or_raise none e = err e
or_raise (some a) e = ok a

-- An assignment to a frozen field.
abbrev freeze : {A : Type 0} → (A → A → Bool) → Option A → A → Result ReleaseError (Option A)
freeze eq current value = elim (guard_frozen eq current (some value)) [
  | ok v ↦ ok v
  | err e ↦ err frozen_field
]

-- The guards, in order; the body that they let through.
unfoldable pub check_release : (String → String) → Review → ChangeEvent → Result ReleaseError String
check_release notice_preview_token review event = do
  raise_if (not (is_approved event.status)) not_approved
  raise_if (is_some event.review_action) already_released
  body ← or_raise event.notice_body not_drafted
  raise_if (not (str_eq (notice_preview_token body) review.preview_token)) text_changed
  ok body

-- The assignments, in order.
unfoldable pub freeze_notice :
    Review → Time → Tenant → String → ℕ → ChangeEvent → Result ReleaseError ChangeEvent
unfolding guard_frozen
freeze_notice review now tenant body number event = do
  name ← freeze str_eq event.reviewed_by_name review.reviewer_name
  email ← freeze str_eq event.reviewed_by_email review.reviewer_email
  at ← freeze ◌==◌ event.reviewed_at now
  action ← freeze action_eq event.review_action notice_released_by_reviewer
  subject ← or_raise event.notice_subject attribute_error
  let texts =
      resolve_notice_placeholders subject body tenant.objection_window_days
        (objection_contact_email tenant)
  frozen_subject ← freeze str_eq event.notice_frozen_subject texts.0
  frozen_body ← freeze str_eq event.notice_frozen_body texts.1
  frozen_at ← freeze ◌==◌ event.notice_frozen_at now
  reached ← freeze ◌==◌ event.recipient_count number
  ok (record event {
    reviewed_by_name = name;
    reviewed_by_email = email;
    reviewed_at = at;
    review_action = action;
    notice_frozen_subject = frozen_subject;
    notice_frozen_body = frozen_body;
    notice_frozen_at = frozen_at;
    recipient_count = reached;
  })

-- `if recipients: …`: the objection window opens now.
unfoldable pub open_window : Time → Tenant → ℕ → ChangeEvent → Result ReleaseError ChangeEvent
unfolding guard_frozen
open_window now tenant zero event = ok event
open_window now tenant (suc n) event = do
  length_days ← freeze ◌==◌ event.window_days tenant.objection_window_days
  closes ← freeze ◌==◌ event.window_closes_at (now + days tenant.objection_window_days)
  ok (record event { notified_at = some now; window_days = length_days; window_closes_at = closes })

abbrev pub notice_mail : Tenant → ChangeEvent → String × String → NoticeMail
notice_mail tenant event (email, url) = record {
  to = email;
  unsubscribe_url = url;
  reply_to = objection_contact_email tenant;
  subject = get_or event.notice_frozen_subject "";
  body = get_or event.notice_frozen_body "";
}

-- One row for each mail, with the service's answer; `ids` gives the primary keys.
unfoldable pub add_recipients :
    (ℕ → ℕ) → (NoticeMail → SendResult) → ℕ → List NoticeMail → ℕ → List NotificationRecipient
add_recipients ids send event_id [] n = []
add_recipients ids send event_id (mail ∷ mails) n =
    record {
      id = ids n;
      change_event_id = event_id;
      recipient_email = mail.to;
      resend_message_id = (send mail).resend_message_id;
      send_error = (send mail).error;
      last_manual_resend_at = none;
      last_manual_resend_by = none;
      manually_resolved_at = none;
      manually_resolved_by = none;
      manually_resolved_note = none;
    }
    ∷ add_recipients ids send event_id mails (n + 1)

-- What the program does not implement: the digest of the preview token, the mail service and the
-- default of the primary keys.
pub record Services : Type 0 where
  pub notice_preview_token : String → String
  pub send : NoticeMail → SendResult
  pub ids : ℕ → ℕ

-- On the row that was found, with its tenant.
unfoldable pub release_event :
    Settings
    → Services
    → Time
    → Tenant
    → List Subscriber
    → Review
    → ChangeEvent
    → Result ReleaseError Released
unfolding add_recipients
release_event cfg services now tenant subscribers review event = do
  body ← check_release services.notice_preview_token review event
  let recipients = confirmed_recipients cfg tenant.id subscribers
  frozen_event ← freeze_notice review now tenant body (length recipients) event
  released ← open_window now tenant (length recipients) frozen_event
  let mails = map (notice_mail tenant released) recipients
  ok (record {
    event = released;
    mails = mails;
    recipients = add_recipients services.ids services.send released.id mails 0;
  })

unfoldable pub release_notice :
    Settings
    → Services
    → Time
    → Tenant
    → List Subscriber
    → Review
    → Option ChangeEvent
    → Result ReleaseError Released
release_notice cfg services now tenant subscribers review event = do
  found ← or_raise event no_longer_exists
  release_event cfg services now tenant subscribers review found

-- ===== src/Approval/Release.antt =====
-- When a notice is released, and what is then recorded and sent.
use truthpage.Prelude.{
  All, Bool, List, Result, String, Time, [], ap, arith, bind_assoc, count, days, if◌then◌else◌,
  length, ltb, map, none, ok, refl, some, str_eq, suc, sym, true, zero, ℕ, ◌&&◌, ◌+◌, ◌==◌, ◌>>=◌,
  ◌∙◌, ◌∷◌, ◌≡◌,
}
use truthpage.Settings.{Settings}
use truthpage.Tenant.{Tenant, objection_contact_email}
use truthpage.ChangeEvent.{ChangeEvent, approved, notice_released_by_reviewer}
use truthpage.Notice.{resolve_notice_placeholders}
use truthpage.Notification.{NotificationRecipient}
use truthpage.Approval.{
  NoticeMail, ReleaseError, Released, Review, Services, Subscriber, add_recipients, check_release,
  confirmed_recipients, freeze_notice, notice_mail, open_window, release_event,
}

-- Nothing of the release is recorded yet.
pub record IsUnreleased (e : ChangeEvent) : Type 0 where
  pub name : e.reviewed_by_name ≡ none
  pub email : e.reviewed_by_email ≡ none
  pub at : e.reviewed_at ≡ none
  pub action : e.review_action ≡ none
  pub frozen_subject : e.notice_frozen_subject ≡ none
  pub frozen_body : e.notice_frozen_body ≡ none
  pub frozen_at : e.notice_frozen_at ≡ none
  pub reached : e.recipient_count ≡ none
  pub window : e.window_days ≡ none
  pub closes : e.window_closes_at ≡ none

-- What a release records for `n` recipients, field by field.
abbrev pub released_event : Review → Time → Tenant → String → String → ℕ → ChangeEvent → ChangeEvent
released_event review now tenant subject body n e =
    let texts =
      resolve_notice_placeholders subject body tenant.objection_window_days
        (objection_contact_email tenant) in
    record e {
      reviewed_by_name = some review.reviewer_name;
      reviewed_by_email = some review.reviewer_email;
      reviewed_at = some now;
      review_action = some notice_released_by_reviewer;
      notice_frozen_subject = some texts.0;
      notice_frozen_body = some texts.1;
      notice_frozen_at = some now;
      recipient_count = some n;
      notified_at = if ltb 0 n then some now else e.notified_at;
      window_days = if ltb 0 n then some tenant.objection_window_days else none;
      window_closes_at = if ltb 0 n then some (now + days tenant.objection_window_days) else none;
    }

check-ok :
    (token : String → String) (review : Review) (e : ChangeEvent) {body : String}
    → e.status ≡ approved
    → e.review_action ≡ none
    → e.notice_body ≡ some body
    → str_eq (token body) review.preview_token ≡ true
    → check_release token review e ≡ ok body
unfolding check_release
check-ok token review e p q r s = ground arith

freeze-ok :
    (review : Review) (now : Time) (tenant : Tenant) (body subject : String) (n : ℕ)
    (e : ChangeEvent)
    → IsUnreleased e
    → e.notice_subject ≡ some subject
    → (freeze_notice review now tenant body n e >>= open_window now tenant n)
      ≡ ok (released_event review now tenant subject body n e)
unfolding freeze_notice open_window
freeze-ok review now tenant body subject zero e u s = ground arith
freeze-ok review now tenant body subject (suc n) e u s = ground arith

-- The conditions under which a notice can go out: the change is approved, its notice is drafted,
-- and the page of the reviewer showed the draft that is stored now.
pub record IsReleasable (token : String → String) (review : Review) (e : ChangeEvent) : Type 0 where
  pub unreleased : IsUnreleased e
  pub is_approved : e.status ≡ approved
  pub subject : String
  pub body : String
  pub has_subject : e.notice_subject ≡ some subject
  pub has_body : e.notice_body ≡ some body
  pub seen_body : str_eq (token body) review.preview_token ≡ true

-- A subscriber of the tenant who confirmed and did not leave.
abbrev pub is_reader : Tenant → Subscriber → Bool
is_reader tenant s = (s.tenant_id == tenant.id) && s.confirmed && s.is_active

-- A mail with the frozen text of an event, for answers to the objection contact.
abbrev pub IsNoticeOf : Tenant → ChangeEvent → NoticeMail → Type 0
IsNoticeOf tenant e m =
    (e.notice_frozen_subject ≡ some m.subject)
    × (e.notice_frozen_body ≡ some m.body)
    × (m.reply_to ≡ objection_contact_email tenant)

length-confirmed_recipients :
    (cfg : Settings) (tenant : Tenant) (subscribers : List Subscriber)
    → length (confirmed_recipients cfg tenant.id subscribers) ≡ count (is_reader tenant) subscribers
unfolding confirmed_recipients
length-confirmed_recipients cfg tenant [] = refl
length-confirmed_recipients cfg tenant (s ∷ subscribers) =
    ground (arith, length-confirmed_recipients cfg tenant subscribers)

count-mails :
    (cfg : Settings) (tenant : Tenant) (e : ChangeEvent) (address : String)
    (subscribers : List Subscriber)
    → count
        (λ (m : NoticeMail). str_eq m.to address)
        (map (notice_mail tenant e) (confirmed_recipients cfg tenant.id subscribers))
      ≡ count (λ s. is_reader tenant s && str_eq s.email address) subscribers
unfolding confirmed_recipients
count-mails cfg tenant e address [] = refl
count-mails cfg tenant e address (s ∷ subscribers) =
    ground (arith, count-mails cfg tenant e address subscribers)

mails-IsNoticeOf :
    (tenant : Tenant) (e : ChangeEvent) (subject body : String) (rs : List (String × String))
    → e.notice_frozen_subject ≡ some subject
    → e.notice_frozen_body ≡ some body
    → All (IsNoticeOf tenant e) (map (notice_mail tenant e) rs)
mails-IsNoticeOf tenant e subject body [] p q = tt
mails-IsNoticeOf tenant e subject body (r ∷ rs) p q =
    ((ground (arith, p), ground (arith, q), refl), mails-IsNoticeOf tenant e subject body rs p q)

rows-add_recipients :
    (services : Services) (event_id n : ℕ) (mails : List NoticeMail)
    → map
        (λ (r : NotificationRecipient). r.recipient_email)
        (add_recipients services.ids services.send event_id mails n)
      ≡ map (λ (m : NoticeMail). m.to) mails
unfolding add_recipients
rows-add_recipients services event_id n [] = refl
rows-add_recipients services event_id n (m ∷ mails) =
    ap (λ (rest : List String). m.to ∷ rest) (rows-add_recipients services event_id (n + 1) mails)

module _ (cfg : Settings) (services : Services) (now : Time) (tenant : Tenant)
    (subscribers : List Subscriber) (review : Review) where
  abbrev recipients : List (String × String)
  recipients = confirmed_recipients cfg tenant.id subscribers

  -- The release, with its mails and rows as the program makes them.
  pub release_event-eq :
      (e : ChangeEvent) (h : IsReleasable services.notice_preview_token review e)
      → let sent = released_event review now tenant h.subject h.body (length recipients) e in
        let mails = map (notice_mail tenant sent) recipients in
        release_event cfg services now tenant subscribers review e
        ≡ ok (record {
          event = sent;
          mails = mails;
          recipients = add_recipients services.ids services.send e.id mails 0;
        })
  unfolding release_event
  release_event-eq e h =
      let send_all : ChangeEvent → Result ReleaseError Released = λ released.
        let mails = map (notice_mail tenant released) recipients in
        ok (record {
          event = released;
          mails = mails;
          recipients = add_recipients services.ids services.send released.id mails 0;
        }) in
      rw
        (check-ok services.notice_preview_token review e h.is_approved h.unreleased.action
          h.has_body h.seen_body)
        (sym (
            bind_assoc (freeze_notice review now tenant h.body (length recipients) e)
              (open_window now tenant (length recipients)) send_all)
          ∙ ap (λ r. r >>= send_all)
              (freeze-ok review now tenant h.body h.subject (length recipients) e h.unreleased
                h.has_subject))

  -- A releasable notice is released, with no error: the event records the reviewer, the frozen text
  -- and the number of the tenant's confirmed, active subscribers, and the objection window if there is
  -- one. Each address gets as many mails as there are such subscribers with it, and no other gets
  -- any; every mail carries the frozen text; and one row is added for the address of each mail.
  pub release_event-ok :
      (e : ChangeEvent) (h : IsReleasable services.notice_preview_token review e)
      → let readers = count (is_reader tenant) subscribers in
        (sent : Released) × (release_event cfg services now tenant subscribers review e ≡ ok sent)
        × (sent.event ≡ released_event review now tenant h.subject h.body readers e)
        × ((address : String)
            → count (λ (m : NoticeMail). str_eq m.to address) sent.mails
              ≡ count (λ s. is_reader tenant s && str_eq s.email address) subscribers)
        × All (IsNoticeOf tenant sent.event) sent.mails
        × (map (λ (r : NotificationRecipient). r.recipient_email) sent.recipients
            ≡ map (λ (m : NoticeMail). m.to) sent.mails)
  release_event-ok e h =
      let event = released_event review now tenant h.subject h.body (length recipients) e in
      let mails = map (notice_mail tenant event) recipients in
      (
        record {
          event = event;
          mails = mails;
          recipients = add_recipients services.ids services.send e.id mails 0;
        },
        release_event-eq e h,
        ap (λ (n : ℕ). released_event review now tenant h.subject h.body n e)
            (length-confirmed_recipients cfg tenant subscribers),
        λ address. count-mails cfg tenant event address subscribers,
        mails-IsNoticeOf tenant event _ _ recipients refl refl,
        rows-add_recipients services e.id 0 mails,
      )

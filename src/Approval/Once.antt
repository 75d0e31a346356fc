-- ===== src/Approval/Once.antt =====
-- A notice goes out at most once, as the text that the reviewer saw; a decision is final.
use truthpage.Prelude.{
  Bool, List, Option, String, Time, arith, err, get_or, inl, inr, length, none, ok, refl, some,
  str_eq, str_eq_iff, subst, suc, zero, ℕ, ◌==◌, ◌∙◌, ◌≡◌, ◌⊎◌,
}
use truthpage.Settings.{Settings}
use truthpage.Tenant.{Tenant, objection_contact_email}
use truthpage.ChangeEvent.{
  ChangeEvent, ChangeStatus, ReviewAction, action_eq, approved, guard_frozen,
  notice_released_by_reviewer, rejected,
}
use truthpage.Notice.{resolve_notice_placeholders}
use truthpage.Approval.{
  Released, Review, Services, Subscriber, already_released, approve, check_release,
  confirmed_recipients, freeze, freeze_notice, open_window, reject, release_event,
}
use truthpage.Approval.Frozen.{
  Keeps, ReviewReach, ReviewStep, approves, drafts, freeze_notice-fields, frozen_forever, here,
  next, rejects, release_event-steps, releases,
}

freeze-value :
    {A : Type 0} (eq : A → A → Bool) (current after : Option A) (value : A)
    → freeze eq current value ≡ ok after
    → after ≡ some value
unfolding guard_frozen
freeze-value eq none after value h = ground arith
freeze-value eq (some v) after value h = ground arith

status-freeze_notice :
    (review : Review) (now : Time) (tenant : Tenant) (body : String) (n : ℕ) (e e' : ChangeEvent)
    → freeze_notice review now tenant body n e ≡ ok e'
    → e'.status ≡ e.status
unfolding freeze_notice
status-freeze_notice review now tenant body n e e' h = ground arith steps 10000000

-- The window's assignments leave what is frozen before alone.
open_window-keeps :
    (now : Time) (tenant : Tenant) (n : ℕ) (e e' : ChangeEvent)
    → open_window now tenant n e ≡ ok e'
    → (e'.status ≡ e.status)
      × (e'.notice_frozen_body ≡ e.notice_frozen_body)
      × (e'.review_action ≡ e.review_action)
      × (e'.reviewed_by_name ≡ e.reviewed_by_name)
      × (e'.recipient_count ≡ e.recipient_count)
unfolding open_window
open_window-keeps now tenant zero e e' h = ground arith
open_window-keeps now tenant (suc n) e e' h = ground arith

status-release :
    (cfg : Settings) (services : Services) (now : Time) (tenant : Tenant)
    (subscribers : List Subscriber) (review : Review) (e : ChangeEvent) (sent : Released)
    → release_event cfg services now tenant subscribers review e ≡ ok sent
    → sent.event.status ≡ e.status
status-release cfg services now tenant subscribers review e sent h =
    let (body, mid, checked, froze, opened) =
      release_event-steps cfg services now tenant subscribers review e sent h in
    (open_window-keeps now tenant _ mid sent.event opened).0
    ∙ status-freeze_notice review now tenant body _ e mid froze

ReviewStep-decided :
    {e e' : ChangeEvent}
    → ReviewStep e e'
    → (e.status ≡ approved) ⊎ (e.status ≡ rejected)
    → e'.status ≡ e.status
unfolding approve reject
ReviewStep-decided {e} {e'} (approves user now q) (inl h) = ground (arith, q)
ReviewStep-decided {e} {e'} (approves user now q) (inr h) = ground (arith, q)
ReviewStep-decided {e} {e'} (rejects user now q) (inl h) = ground (arith, q)
ReviewStep-decided {e} {e'} (rejects user now q) (inr h) = ground (arith, q)
ReviewStep-decided {e} {e'} (drafts subject body q) (inl h) = ground (arith, q)
ReviewStep-decided {e} {e'} (drafts subject body q) (inr h) = ground (arith, q)
ReviewStep-decided {e} {e'} (releases cfg services now tenant subscribers review sent went q) h =
    rw q (status-release cfg services now tenant subscribers review e sent went)

decided-after :
    {s s' : ChangeStatus}
    → s' ≡ s
    → (s ≡ approved) ⊎ (s ≡ rejected)
    → (s' ≡ approved) ⊎ (s' ≡ rejected)
decided-after p (inl h) = inl (p ∙ h)
decided-after p (inr h) = inr (p ∙ h)

-- An approved change and a rejected one keep their status through any sequence of decisions, drafts
-- and releases.
pub decided_forever :
    {e e' : ChangeEvent}
    → (e.status ≡ approved) ⊎ (e.status ≡ rejected)
    → ReviewReach e e'
    → e'.status ≡ e.status
decided_forever h here = refl
decided_forever h (next r s) =
    let p = decided_forever h r in ReviewStep-decided s (decided-after p h) ∙ p

check-inv :
    (token : String → String) (review : Review) (e : ChangeEvent) (body : String)
    → check_release token review e ≡ ok body
    → (e.status ≡ approved)
      × (e.review_action ≡ none)
      × (e.notice_body ≡ some body)
      × (token body ≡ review.preview_token)
unfolding check_release
check-inv token review e body h = ground (arith, str_eq_iff (token body) review.preview_token)

-- If a release goes through, the change was approved and not yet released, the preview token was
-- that of the stored draft, and the event now holds that draft, its placeholders filled in, with the
-- reviewer's name, the number of recipients, and the mark that it was released.
pub release_event-shows :
    (cfg : Settings) (services : Services) (now : Time) (tenant : Tenant)
    (subscribers : List Subscriber) (review : Review) (e : ChangeEvent) (sent : Released)
    → release_event cfg services now tenant subscribers review e ≡ ok sent
    → (body : String) × (e.status ≡ approved)
      × (e.review_action ≡ none)
      × (e.notice_body ≡ some body)
      × (services.notice_preview_token body ≡ review.preview_token)
      × (sent.event.notice_frozen_body
          ≡ some
              (resolve_notice_placeholders
                (get_or e.notice_subject "")
                body
                tenant.objection_window_days
                (objection_contact_email tenant)).1)
      × (sent.event.review_action ≡ some notice_released_by_reviewer)
      × (sent.event.reviewed_by_name ≡ some review.reviewer_name)
      × (sent.event.recipient_count
          ≡ some (length (confirmed_recipients cfg tenant.id subscribers)))
      × (sent.event.status ≡ approved)
release_event-shows cfg services now tenant subscribers review e sent h =
    let (body, mid, checked, froze, opened) =
      release_event-steps cfg services now tenant subscribers review e sent h in
    let c = check-inv services.notice_preview_token review e body checked in
    let f = freeze_notice-fields review now tenant body _ e mid froze in
    let k = open_window-keeps now tenant _ mid sent.event opened in
    (
      body,
      c.0,
      c.1,
      c.2,
      c.3,
      k.1 ∙ freeze-value str_eq _ _ _ f.5,
      k.2 ∙ freeze-value action_eq _ _ _ f.3,
      k.3 ∙ freeze-value str_eq _ _ _ f.0,
      k.4 ∙ freeze-value ◌==◌ _ _ _ f.7,
      k.0 ∙ status-freeze_notice review now tenant body _ e mid froze ∙ c.0,
    )

-- After a release, and whatever decisions, drafts and releases follow, any further release is
-- refused because the notice has been released, so its mails go out once.
pub released_once :
    (cfg : Settings) (services : Services) (now : Time) (tenant : Tenant)
    (subscribers : List Subscriber) (review : Review) (e : ChangeEvent) (sent : Released)
    → release_event cfg services now tenant subscribers review e ≡ ok sent
    → (later : ChangeEvent) → ReviewReach sent.event later
    → (cfg' : Settings) (services' : Services) (now' : Time) (tenant' : Tenant)
      (subscribers' : List Subscriber) (review' : Review)
    → release_event cfg' services' now' tenant' subscribers' review' later ≡ err already_released
unfolding release_event check_release
released_once cfg services now tenant subscribers review e sent h later reach cfg' services' now'
      tenant' subscribers' review' =
    let shown = release_event-shows cfg services now tenant subscribers review e sent h in
    let kept = (frozen_forever reach).action in
    let status = decided_forever (inl shown.9) reach ∙ shown.9 in
    ground
      (arith, status, subst (λ (o : Option ReviewAction). Keeps o later.review_action) shown.6 kept)

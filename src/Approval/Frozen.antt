-- ===== src/Approval/Frozen.antt =====
-- What a release has frozen stays as it is, and a decision is final.
use truthpage.Prelude.{
  ==_iff, >>=-eq-ok, Bool, List, Option, String, Time, ap, arith, days, get_or, length, none, ok,
  refl, some, str_eq, str_eq_iff, subst, suc, true, zero, ℕ, ◌+◌, ◌==◌, ◌∙◌, ◌≡◌,
}
use truthpage.Settings.{Settings}
use truthpage.Tenant.{Tenant, objection_contact_email}
use truthpage.Notice.{resolve_notice_placeholders}
use truthpage.ChangeEvent.{
  ChangeEvent, ReviewAction, action_eq, guard_frozen, notice_released_by_reviewer,
}
use truthpage.Approval.{
  Released, Review, Services, Subscriber, approve, check_release, confirmed_recipients, freeze,
  freeze_notice, open_window, reject, release_event,
}

-- A value that is set is kept.
abbrev pub Keeps : {A : Type 0} → Option A → Option A → Type 0
Keeps none after = Unit
Keeps (some v) after = after ≡ some v

Keeps-refl : {A : Type 0} (o : Option A) → Keeps o o
Keeps-refl none = tt
Keeps-refl (some v) = refl

Keeps-trans : {A : Type 0} (o p q : Option A) → Keeps o p → Keeps p q → Keeps o q
Keeps-trans none p q h k = tt
Keeps-trans (some v) none q h k = cc
Keeps-trans (some v) (some w) q h k = k ∙ h

freeze-Keeps :
    {A : Type 0} (eq : A → A → Bool) (sound : (a b : A) → eq a b ≡ true → a ≡ b)
    (current after : Option A) (value : A)
    → freeze eq current value ≡ ok after
    → Keeps current after
unfolding guard_frozen
freeze-Keeps eq sound none after value h = tt
freeze-Keeps eq sound (some v) after value h = ground (arith, sound value v)

str_sound : (s t : String) → str_eq s t ≡ true → s ≡ t
str_sound s t h = (str_eq_iff s t).0 h

nat_sound : (m n : ℕ) → (m == n) ≡ true → m ≡ n
nat_sound m n h = (==_iff m n).0 h

action_sound : (a b : ReviewAction) → action_eq a b ≡ true → a ≡ b
action_sound a b h = ground arith

-- Every column that the class lists as frozen once set.
pub record KeepsFrozen (e : ChangeEvent) (e' : ChangeEvent) : Type 0 where
  pub name : Keeps e.reviewed_by_name e'.reviewed_by_name
  pub email : Keeps e.reviewed_by_email e'.reviewed_by_email
  pub at : Keeps e.reviewed_at e'.reviewed_at
  pub action : Keeps e.review_action e'.review_action
  pub subject : Keeps e.notice_frozen_subject e'.notice_frozen_subject
  pub body : Keeps e.notice_frozen_body e'.notice_frozen_body
  pub frozen_at : Keeps e.notice_frozen_at e'.notice_frozen_at
  pub reached : Keeps e.recipient_count e'.recipient_count
  pub window : Keeps e.window_days e'.window_days
  pub closes : Keeps e.window_closes_at e'.window_closes_at

KeepsFrozen-refl : (e : ChangeEvent) → KeepsFrozen e e
KeepsFrozen-refl e = record {
  name = Keeps-refl e.reviewed_by_name;
  email = Keeps-refl e.reviewed_by_email;
  at = Keeps-refl e.reviewed_at;
  action = Keeps-refl e.review_action;
  subject = Keeps-refl e.notice_frozen_subject;
  body = Keeps-refl e.notice_frozen_body;
  frozen_at = Keeps-refl e.notice_frozen_at;
  reached = Keeps-refl e.recipient_count;
  window = Keeps-refl e.window_days;
  closes = Keeps-refl e.window_closes_at;
}

KeepsFrozen-trans : (e f g : ChangeEvent) → KeepsFrozen e f → KeepsFrozen f g → KeepsFrozen e g
KeepsFrozen-trans e f g h k = record {
  name = Keeps-trans _ f.reviewed_by_name _ h.name k.name;
  email = Keeps-trans _ f.reviewed_by_email _ h.email k.email;
  at = Keeps-trans _ f.reviewed_at _ h.at k.at;
  action = Keeps-trans _ f.review_action _ h.action k.action;
  subject = Keeps-trans _ f.notice_frozen_subject _ h.subject k.subject;
  body = Keeps-trans _ f.notice_frozen_body _ h.body k.body;
  frozen_at = Keeps-trans _ f.notice_frozen_at _ h.frozen_at k.frozen_at;
  reached = Keeps-trans _ f.recipient_count _ h.reached k.reached;
  window = Keeps-trans _ f.window_days _ h.window k.window;
  closes = Keeps-trans _ f.window_closes_at _ h.closes k.closes;
}

-- Each assignment went through; and the window is left alone.
pub freeze_notice-fields :
    (review : Review) (now : Time) (tenant : Tenant) (body : String) (n : ℕ) (e e' : ChangeEvent)
    → freeze_notice review now tenant body n e ≡ ok e'
    → let texts =
        resolve_notice_placeholders
          (get_or e.notice_subject "")
          body
          tenant.objection_window_days
          (objection_contact_email tenant) in
      (freeze str_eq e.reviewed_by_name review.reviewer_name ≡ ok e'.reviewed_by_name)
      × (freeze str_eq e.reviewed_by_email review.reviewer_email ≡ ok e'.reviewed_by_email)
      × (freeze ◌==◌ e.reviewed_at now ≡ ok e'.reviewed_at)
      × (freeze action_eq e.review_action notice_released_by_reviewer ≡ ok e'.review_action)
      × (freeze str_eq e.notice_frozen_subject texts.0 ≡ ok e'.notice_frozen_subject)
      × (freeze str_eq e.notice_frozen_body texts.1 ≡ ok e'.notice_frozen_body)
      × (freeze ◌==◌ e.notice_frozen_at now ≡ ok e'.notice_frozen_at)
      × (freeze ◌==◌ e.recipient_count n ≡ ok e'.recipient_count)
      × (e'.window_days ≡ e.window_days)
      × (e'.window_closes_at ≡ e.window_closes_at)
unfolding freeze_notice
freeze_notice-fields review now tenant body n e e' h = (
  ground arith,
  ground arith,
  ground arith,
  ground arith,
  ground arith,
  ground arith,
  ground arith,
  ground arith,
  ground arith,
  ground arith,
)

Keeps-eq : {A : Type 0} (o p : Option A) → p ≡ o → Keeps o p
Keeps-eq o p h = rw h (Keeps-refl o)

abbrev SameFrozen : ChangeEvent → ChangeEvent → Type 0
SameFrozen e e' =
    (e'.reviewed_by_name ≡ e.reviewed_by_name)
    × (e'.reviewed_by_email ≡ e.reviewed_by_email)
    × (e'.reviewed_at ≡ e.reviewed_at)
    × (e'.review_action ≡ e.review_action)
    × (e'.notice_frozen_subject ≡ e.notice_frozen_subject)
    × (e'.notice_frozen_body ≡ e.notice_frozen_body)
    × (e'.notice_frozen_at ≡ e.notice_frozen_at)
    × (e'.recipient_count ≡ e.recipient_count)
    × (e'.window_days ≡ e.window_days)
    × (e'.window_closes_at ≡ e.window_closes_at)

KeepsFrozen-eq : (e e' : ChangeEvent) → SameFrozen e e' → KeepsFrozen e e'
KeepsFrozen-eq e e' s = record {
  name = Keeps-eq _ _ s.0;
  email = Keeps-eq _ _ s.1;
  at = Keeps-eq _ _ s.2;
  action = Keeps-eq _ _ s.3;
  subject = Keeps-eq _ _ s.4;
  body = Keeps-eq _ _ s.5;
  frozen_at = Keeps-eq _ _ s.6;
  reached = Keeps-eq _ _ s.7;
  window = Keeps-eq _ _ s.8;
  closes = Keeps-eq _ _ s.9;
}

freeze_notice-KeepsFrozen :
    (review : Review) (now : Time) (tenant : Tenant) (body : String) (n : ℕ) (e e' : ChangeEvent)
    → freeze_notice review now tenant body n e ≡ ok e'
    → KeepsFrozen e e'
freeze_notice-KeepsFrozen review now tenant body n e e' h =
    let f = freeze_notice-fields review now tenant body n e e' h in
    record {
      name = freeze-Keeps str_eq str_sound _ _ _ f.0;
      email = freeze-Keeps str_eq str_sound _ _ _ f.1;
      at = freeze-Keeps ◌==◌ nat_sound _ _ _ f.2;
      action = freeze-Keeps action_eq action_sound _ _ _ f.3;
      subject = freeze-Keeps str_eq str_sound _ _ _ f.4;
      body = freeze-Keeps str_eq str_sound _ _ _ f.5;
      frozen_at = freeze-Keeps ◌==◌ nat_sound _ _ _ f.6;
      reached = freeze-Keeps ◌==◌ nat_sound _ _ _ f.7;
      window = Keeps-eq _ _ f.8;
      closes = Keeps-eq _ _ f.9;
    }

open_window-KeepsFrozen :
    (now : Time) (tenant : Tenant) (n : ℕ) (e e' : ChangeEvent)
    → open_window now tenant n e ≡ ok e'
    → KeepsFrozen e e'
unfolding open_window
open_window-KeepsFrozen now tenant zero e e' h =
    subst (KeepsFrozen e) (ground arith) (KeepsFrozen-refl e)
open_window-KeepsFrozen now tenant (suc n) e e' h = record {
  name = Keeps-eq _ _ (ground arith);
  email = Keeps-eq _ _ (ground arith);
  at = Keeps-eq _ _ (ground arith);
  action = Keeps-eq _ _ (ground arith);
  subject = Keeps-eq _ _ (ground arith);
  body = Keeps-eq _ _ (ground arith);
  frozen_at = Keeps-eq _ _ (ground arith);
  reached = Keeps-eq _ _ (ground arith);
  window = freeze-Keeps ◌==◌ nat_sound _ _ tenant.objection_window_days (ground arith);
  closes = freeze-Keeps ◌==◌ nat_sound _ _ (now + days tenant.objection_window_days) (ground arith);
}

-- What the program does to a change event after it was recorded, on the part of review: a decision,
-- a new draft of the notice, and a release.
pub data ReviewStep (e : ChangeEvent) (e' : ChangeEvent) : Type 0 where
  approves : (user : String) (now : Time) → e' ≡ approve user now e → ReviewStep e e'
  rejects : (user : String) (now : Time) → e' ≡ reject user now e → ReviewStep e e'
  drafts :
      (subject body : String)
      → e' ≡ record e { notice_subject = some subject; notice_body = some body }
      → ReviewStep e e'
  releases :
      (cfg : Settings) (services : Services) (now : Time) (tenant : Tenant)
      (subscribers : List Subscriber) (review : Review) (sent : Released)
      → release_event cfg services now tenant subscribers review e ≡ ok sent
      → e' ≡ sent.event
      → ReviewStep e e'

pub data ReviewReach (e : ChangeEvent) : ChangeEvent → Type 0 where
  here : ReviewReach e e
  next : {e' e'' : ChangeEvent} → ReviewReach e e' → ReviewStep e' e'' → ReviewReach e e''

-- A release that went through passed its guards, and made the assignments in order.
pub release_event-steps :
    (cfg : Settings) (services : Services) (now : Time) (tenant : Tenant)
    (subscribers : List Subscriber) (review : Review) (e : ChangeEvent) (sent : Released)
    → release_event cfg services now tenant subscribers review e ≡ ok sent
    → (body : String) × (mid : ChangeEvent) × (check_release services.notice_preview_token review e
        ≡ ok body)
      × (freeze_notice review now tenant body
            (length (confirmed_recipients cfg tenant.id subscribers))
            e
          ≡ ok mid)
      × (open_window now tenant (length (confirmed_recipients cfg tenant.id subscribers)) mid
          ≡ ok sent.event)
unfolding release_event
release_event-steps cfg services now tenant subscribers review e sent h =
    let (body, checked, rest) =
      >>=-eq-ok (check_release services.notice_preview_token review e) _ h in
    let (mid, froze, rest') =
      >>=-eq-ok
        (freeze_notice review now tenant body
          (length (confirmed_recipients cfg tenant.id subscribers)) e)
        _ rest in
    let (last, opened, done) =
      >>=-eq-ok
        (open_window now tenant (length (confirmed_recipients cfg tenant.id subscribers)) mid) _
        rest' in
    (body, mid, checked, froze, opened ∙ ap (λ (r : ChangeEvent). ok r) (ground (arith, done)))

approve-KeepsFrozen :
    (user : String) (now : Time) (e : ChangeEvent) → KeepsFrozen e (approve user now e)
unfolding approve
approve-KeepsFrozen user now e = KeepsFrozen-eq e (approve user now e) (ground arith)

reject-KeepsFrozen :
    (user : String) (now : Time) (e : ChangeEvent) → KeepsFrozen e (reject user now e)
unfolding reject
reject-KeepsFrozen user now e = KeepsFrozen-eq e (reject user now e) (ground arith)

ReviewStep-KeepsFrozen : {e e' : ChangeEvent} → ReviewStep e e' → KeepsFrozen e e'
ReviewStep-KeepsFrozen {e} {e'} (approves user now q) = rw q (approve-KeepsFrozen user now e)
ReviewStep-KeepsFrozen {e} {e'} (rejects user now q) = rw q (reject-KeepsFrozen user now e)
ReviewStep-KeepsFrozen {e} {e'} (drafts subject body q) =
    rw q (KeepsFrozen-eq e _ (refl, refl, refl, refl, refl, refl, refl, refl, refl, refl))
ReviewStep-KeepsFrozen {e} {e'} (releases cfg services now tenant subscribers review sent went q) =
    let (body, mid, checked, froze, opened) =
      release_event-steps cfg services now tenant subscribers review e sent went in
    rw q (
      KeepsFrozen-trans e mid sent.event
        (freeze_notice-KeepsFrozen review now tenant body _ e mid froze)
        (open_window-KeepsFrozen now tenant _ mid sent.event opened))

-- No sequence of decisions, drafts and releases, whatever succeeds or is refused on the way, changes
-- any of the ten frozen columns once it is set.
pub frozen_forever : {e e' : ChangeEvent} → ReviewReach e e' → KeepsFrozen e e'
frozen_forever {e} here = KeepsFrozen-refl e
frozen_forever {e} {e'} (next {e' = m} r s) =
    KeepsFrozen-trans e m e' (frozen_forever r) (ReviewStep-KeepsFrozen s)

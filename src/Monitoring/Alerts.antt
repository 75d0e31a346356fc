-- ===== src/Monitoring/Alerts.antt =====
-- The alarms of a source whose checks fail one after the other.
use truthpage.Prelude.{
  All, Bool-cases, List, Option-cases, String, Time, [], ap, arith, count, count-append, days,
  false, if_ind, inl, inr, length, lower, ltb, map, mem_str, refl, some, str_eq, str_eq_iff, true,
  ℕ, ◌+◌, ◌<◌, ◌∙◌, ◌∷◌, ◌≡◌, ◌≤◌, ◌⊎◌,
}
use truthpage.Settings.{Settings}
use truthpage.Tenant.{Tenant}
use truthpage.Subprocessor.{FailureReason}
use truthpage.Monitoring.{
  Cycle, Mail, alert_recipients, dedupe_and_send, monitoring_alert, record_fetch_failure,
  review_needed, safety_valve_alert, staleness_alert, within_window,
}

-- Failures in a row, each with its moment and its reason.
unfoldable pub fail_run : Settings → List (Time × FailureReason) → Cycle → Cycle
unfolding record_fetch_failure
fail_run cfg [] c = c
fail_run cfg (f ∷ fs) c = fail_run cfg fs (record_fetch_failure cfg f.0 f.1 c)

-- Every moment is in the window of deduplication that opens at `start`.
abbrev pub InWindow : Settings → Time → List (Time × FailureReason) → Type 0
InWindow cfg start fs =
    All (λ f. (start ≤ f.0) × (f.0 < start + days cfg.monitoring_alert_dedupe_days)) fs

abbrev IsStampedFrom : Time → Cycle → Type 0
IsStampedFrom start c = (t : Time) × (c.source.monitoring_alert_sent_at ≡ some t) × (start ≤ t)

-- The address that a mail goes to.
abbrev pub recipient_of : Mail → String
recipient_of (monitoring_alert email name url n) = email
recipient_of (staleness_alert email name url elapsed) = email
recipient_of (safety_valve_alert email name n m) = email
recipient_of (review_needed email name url summary classification) = email

-- How many of the mails go to an address, and how often it stands in a list of addresses.
abbrev pub sent_to : String → List Mail → ℕ
sent_to a = count (λ m. str_eq (recipient_of m) a)

abbrev pub among : String → List String → ℕ
among a = count (λ email. str_eq email a)

record_fetch_failure-tenant :
    (cfg : Settings) (now : Time) (reason : FailureReason) (c : Cycle)
    → (record_fetch_failure cfg now reason c).tenant ≡ c.tenant
unfolding record_fetch_failure dedupe_and_send
record_fetch_failure-tenant cfg now reason c = ground arith

record_fetch_failure-count :
    (cfg : Settings) (now : Time) (reason : FailureReason) (c : Cycle)
    → (record_fetch_failure cfg now reason c).source.consecutive_failure_count
      ≡ c.source.consecutive_failure_count + 1
unfolding record_fetch_failure dedupe_and_send
record_fetch_failure-count cfg now reason c = ground arith

module _ (a : String) where
  among-map :
      (mail : String → Mail) (emails : List String)
      → ((email : String) → recipient_of (mail email) ≡ email)
      → sent_to a (map mail emails) ≡ among a emails
  among-map mail [] to = refl
  among-map mail (email ∷ emails) to = ground (arith, to email, among-map mail emails to)

  -- Where no mail is sent, the stamp stays; where mails are sent, it is set.
  abbrev Alerted : Settings → Time → Cycle → Cycle → Type 0
  Alerted cfg now c c' =
      (c'.source.monitoring_alert_sent_at ≡ some now)
      × (sent_to a c'.mails ≡ sent_to a c.mails + among a (alert_recipients cfg c.tenant))

  abbrev Silent : Cycle → Cycle → Type 0
  Silent c c' =
      (c'.source.monitoring_alert_sent_at ≡ c.source.monitoring_alert_sent_at)
      × (sent_to a c'.mails ≡ sent_to a c.mails)

  dedupe_and_send-cases :
      (cfg : Settings) (now : Time) (mail : String → Mail) (c : Cycle)
      → ((email : String) → recipient_of (mail email) ≡ email)
      → let c' =
          dedupe_and_send cfg now c.source.monitoring_alert_sent_at
            (λ s. record s { monitoring_alert_sent_at = some now })
            mail
            c in
        Alerted cfg now c c' ⊎ Silent c c'
  unfolding dedupe_and_send
  dedupe_and_send-cases cfg now mail c to =
      elim (Bool-cases (within_window cfg c.source.monitoring_alert_sent_at now)) [
        | inl deduped ↦ inr (ground arith, ground arith)
        | inr due ↦ inl (
          ground arith,
          ground (
            arith,
            count-append (λ m. str_eq (recipient_of m) a) c.mails
                (map mail (alert_recipients cfg c.tenant)),
            among-map mail (alert_recipients cfg c.tenant) to,
          ),
        )
      ]

  record_fetch_failure-cases :
      (cfg : Settings) (now : Time) (reason : FailureReason) (c : Cycle)
      → let c' = record_fetch_failure cfg now reason c in Alerted cfg now c c' ⊎ Silent c c'
  unfolding record_fetch_failure
  record_fetch_failure-cases cfg now reason c =
      let n = c.source.consecutive_failure_count + 1 in
      let sp = record c.source {
        consecutive_failure_count = n;
        last_failure_reason = some reason;
      } in
      if_ind (λ c'. Alerted cfg now c c' ⊎ Silent c c')
        (ltb n cfg.monitoring_alert_failure_threshold) (λ few. inr (refl, refl))
        λ many.
          dedupe_and_send-cases cfg now (λ email. monitoring_alert email sp.name sp.monitored_url n)
            (record c { source = sp }) (λ email. refl)

  -- Once a mail was sent in the window, the rest of the window is silent.
  within_window-true :
      (cfg : Settings) (start now : Time) (c : Cycle)
      → IsStampedFrom start c
      → now < start + days cfg.monitoring_alert_dedupe_days
      → within_window cfg c.source.monitoring_alert_sent_at now ≡ true
  within_window-true cfg start now c (t, e, h) k = rw e (ground arith)

  record_fetch_failure-Silent :
      (cfg : Settings) (start now : Time) (reason : FailureReason) (c : Cycle)
      → IsStampedFrom start c
      → now < start + days cfg.monitoring_alert_dedupe_days
      → Silent c (record_fetch_failure cfg now reason c)
  unfolding record_fetch_failure dedupe_and_send
  record_fetch_failure-Silent cfg start now reason c s k = (
    ground (arith, within_window-true cfg start now c s k),
    ground (arith, within_window-true cfg start now c s k),
  )

  fail_run-Silent :
      (cfg : Settings) (start : Time) (fs : List (Time × FailureReason)) (c : Cycle)
      → InWindow cfg start fs
      → IsStampedFrom start c
      → sent_to a (fail_run cfg fs c).mails ≡ sent_to a c.mails
  unfolding fail_run
  fail_run-Silent cfg start [] c w s = refl
  fail_run-Silent cfg start ((now, reason) ∷ fs) c ((from, until), w) (t, e, h) =
      let (stamp, mails) = record_fetch_failure-Silent cfg start now reason c (t, e, h) until in
      fail_run-Silent cfg start fs (record_fetch_failure cfg now reason c) w (t, stamp ∙ e, h)
      ∙ mails

  fail_run-mails :
      (cfg : Settings) (start : Time) (fs : List (Time × FailureReason)) (c : Cycle)
      → InWindow cfg start fs
      → sent_to a (fail_run cfg fs c).mails
        ≤ sent_to a c.mails + among a (alert_recipients cfg c.tenant)
  unfolding fail_run
  fail_run-mails cfg start [] c w = omega arith
  fail_run-mails cfg start ((now, reason) ∷ fs) c ((from, until), w) =
      let c' = record_fetch_failure cfg now reason c in
      elim (record_fetch_failure-cases cfg now reason c) [
        | inl (stamp, mails) ↦
            omega (arith, fail_run-Silent cfg start fs c' w (now, stamp, from), mails)
        | inr (stamp, mails) ↦
            let tenants =
              ap (λ (t : Tenant). among a (alert_recipients cfg t))
                (record_fetch_failure-tenant cfg now reason c) in
            omega (arith, fail_run-mails cfg start fs c' w, mails, tenants)
      ]

fail_run-count :
    (cfg : Settings) (fs : List (Time × FailureReason)) (c : Cycle)
    → (fail_run cfg fs c).source.consecutive_failure_count
      ≡ c.source.consecutive_failure_count + length fs
unfolding fail_run
fail_run-count cfg [] c = omega arith
fail_run-count cfg (f ∷ fs) c =
    let c' = record_fetch_failure cfg f.0 f.1 c in
    omega (arith, fail_run-count cfg fs c', record_fetch_failure-count cfg f.0 f.1 c)

among-of_missing :
    (a : String) (emails : List String) → mem_str a emails ≡ false → among a emails ≡ 0
among-of_missing a [] h = refl
among-of_missing a (email ∷ emails) h =
    ground (arith, str_eq_iff a email, str_eq_iff email a, among-of_missing a emails)

-- The owner's address is added where it is missing, so no address stands there twice.
among-alert_recipients :
    (cfg : Settings) (tenant : Tenant) (a : String)
    → among a cfg.admin_emails ≤ 1
    → among a (alert_recipients cfg tenant) ≤ 1
unfolding alert_recipients
among-alert_recipients cfg tenant a h = elim (Option-cases tenant.email) [
  | inl none_there ↦ ground (arith, none_there)
  | inr (email, there) ↦ ground (
    arith,
    there,
    count-append (λ x. str_eq x a) cfg.admin_emails (lower email ∷ []),
    str_eq_iff (lower email) a,
    among-of_missing a cfg.admin_emails,
  )
]

-- Failures in a row are all counted. Where no address stands twice among those of administrators,
-- failures whose moments lie in one window of deduplication send at most one mail to each address,
-- and none to one that is not a recipient of alarms.
pub fail_run_lem :
    (cfg : Settings) (start : Time) (fs : List (Time × FailureReason)) (c : Cycle)
    → InWindow cfg start fs
    → ((a : String) → among a cfg.admin_emails ≤ 1)
    → ((fail_run cfg fs c).source.consecutive_failure_count
        ≡ c.source.consecutive_failure_count + length fs)
      × ((a : String)
          → (sent_to a (fail_run cfg fs c).mails ≤ sent_to a c.mails + 1)
            × (sent_to a (fail_run cfg fs c).mails
                ≤ sent_to a c.mails + among a (alert_recipients cfg c.tenant)))
fail_run_lem cfg start fs c w once = (
  fail_run-count cfg fs c,
  λ a.
      let few = fail_run-mails a cfg start fs c w in
      (omega (arith, few, among-alert_recipients cfg c.tenant a (once a)), few),
)

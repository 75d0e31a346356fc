-- ===== src/Monitoring.antt =====
-- app/services/monitoring.py: one monitoring cycle of a source. A cycle works on the source's row,
-- its tenant's row, the events that it adds and the mails that it sends, in order. The clock is read
-- several times in a cycle; each reading is a field of `Moments`. What the two tiers of the fetcher
-- answer, the normalizer (over BeautifulSoup), the hash, difflib and the classifier (an LLM) are
-- parameters. A confidence counts millionths.
pub mod Check
pub mod Health
pub mod Reading
pub mod Recorded
pub mod Events
pub mod Alerts
mod Tests
use truthpage.Prelude.{
  Bool, List, Option, String, Time, [], days, false, if◌then◌else◌, lower, ltb, map, mem_str,
  minutes, none, some, str_eq, true, ℕ, ◌++◌, ◌+◌, ◌-◌, ◌/◌, ◌∷◌,
}
use truthpage.Settings.{Settings}
use truthpage.Tenant.{Tenant, may_export_evidence, tier2_daily_limit}
use truthpage.Subprocessor.{
  Subprocessor, FailureReason, timeout, browser_error, http_error, bot_wall, empty_content, pending,
  is_stale, reference,
}
use truthpage.ContentHealth.{content_health_issue}
use truthpage.ChangeEvent.{
  ChangeEvent, ChangeStatus, pending_review, auto_published, auto_published_cosmetic,
  Classification, material, cosmetic, uncertain,
}
use truthpage.Detector.{diff_for_llm, diff_for_llm_max_chars}
use truthpage.Fetcher.{Fetched, Tier1Reply, Tier2Reply, timed_out}
use truthpage.Tier2.{try_spend_source_budget, try_spend_tenant_budget}

pub record Moments : Type 0 where
  pub stale_read : Time
  pub stale_days : Time
  pub stale_alert : Time
  pub budget : Time
  pub deferral : Time
  pub failure : Time
  pub failure_alert : Time
  pub success : Time

pub data Mail : Type 0 where
  monitoring_alert : String → String → String → ℕ → Mail
  staleness_alert : String → String → String → ℕ → Mail
  safety_valve_alert : String → String → ℕ → ℕ → Mail
  review_needed : String → String → String → String → Classification → Mail

pub record Cycle : Type 0 where
  pub source : Subprocessor
  pub tenant : Tenant
  pub events : List ChangeEvent
  pub mails : List Mail

pub record Analysis : Type 0 where
  pub summary : String
  pub classification : Classification
  pub confidence : ℕ

pub record Reader : Type 0 where
  pub normalize : String → String
  pub hash : String → String
  pub unified_diff : String → String → String → String
  -- `none` where the call raises.
  pub analyze : String → Option Analysis
  -- What the database gives a new row: its id, and `now()` for `created_at`.
  pub new_id : ℕ
  pub inserted_at : Time

-- The answers of the web in this cycle: to the first fetch, and to the second one if it is made;
-- whether each takes longer than 90 seconds.
pub record Web : Type 0 where
  pub tier1 : Tier1Reply
  pub tier2 : Tier2Reply
  pub too_slow : Bool
  pub retry : Tier2Reply
  pub retry_too_slow : Bool

-- asyncio.wait_for(…, timeout=90.0)
abbrev pub wait_for : Bool → Fetched → Fetched
wait_for true reply = timed_out
wait_for false reply = reply

abbrev pub normalizer_version : ℕ
normalizer_version = 2

abbrev pub auto_publish_confidence_threshold : ℕ
auto_publish_confidence_threshold = 850000

-- `_BUDGET_RETRY` and `_FETCH_FAILURE_RETRY`
abbrev pub budget_retry : ℕ
budget_retry = minutes 60

abbrev pub fetch_failure_retry : ℕ
fetch_failure_retry = minutes 30

-- `recipients.add(address)` on a set.
abbrev add_address : String → List String → List String
add_address a set = if mem_str a set then set else set ++ a ∷ []

abbrev add_owner : Option String → List String → List String
add_owner none set = set
add_owner (some email) set = if str_eq email "" then set else add_address (lower email) set

-- The admins, and the tenant's owner if it has an address.
unfoldable pub alert_recipients : Settings → Tenant → List String
alert_recipients cfg tenant = add_owner tenant.email cfg.admin_emails

-- `sent_at is not None and (now - sent_at) < timedelta(days=…)`
abbrev pub within_window : Settings → Option Time → Time → Bool
within_window cfg none now = false
within_window cfg (some sent_at) now = ltb now (sent_at + days cfg.monitoring_alert_dedupe_days)

-- The stamp that is read and the one that is written are those of one column.
unfoldable pub dedupe_and_send :
    Settings → Time → Option Time → (Subprocessor → Subprocessor) → (String → Mail) → Cycle → Cycle
dedupe_and_send cfg now sent_at stamp mail c =
    if within_window cfg sent_at now then c else record c {
      source = stamp c.source;
      mails = c.mails ++ map mail (alert_recipients cfg c.tenant);
    }

unfoldable pub record_fetch_failure : Settings → Time → FailureReason → Cycle → Cycle
unfolding dedupe_and_send
record_fetch_failure cfg now reason c =
    let sp = record c.source {
      consecutive_failure_count = c.source.consecutive_failure_count + 1;
      last_failure_reason = some reason;
    } in
    if ltb sp.consecutive_failure_count cfg.monitoring_alert_failure_threshold
    then record c { source = sp }
    else dedupe_and_send cfg now sp.monitoring_alert_sent_at
        (λ s. record s { monitoring_alert_sent_at = some now })
        (λ email. monitoring_alert email sp.name sp.monitored_url sp.consecutive_failure_count)
        (record c { source = sp })

unfoldable pub check_staleness : Settings → Moments → Cycle → Cycle
unfolding dedupe_and_send
check_staleness cfg m c =
    let sp = c.source in
    let elapsed = (m.stale_days - reference sp) / days 1 in
    if is_stale cfg sp m.stale_read
    then dedupe_and_send cfg m.stale_alert sp.staleness_alert_sent_at
        (λ s. record s { staleness_alert_sent_at = some m.stale_alert })
        (λ email. staleness_alert email sp.name sp.monitored_url elapsed) c
    else c

abbrev pub reset_health : Subprocessor → Subprocessor
reset_health sp = record sp {
  consecutive_failure_count = 0;
  last_failure_reason = none;
  monitoring_alert_sent_at = none;
  staleness_alert_sent_at = none;
}

-- The tenant's pool, after the source's own quota allowed the run. The alert goes to every admin.
unfoldable pub spend_tenant : Settings → ℕ → Cycle → Cycle × Bool
spend_tenant cfg today c =
    let (tenant, tenant_ok) = try_spend_tenant_budget cfg today c.tenant in
    let alert = λ (email : String).
      safety_valve_alert email tenant.name tenant.tier2_daily_count
        (tier2_daily_limit cfg tenant) in
    (
      record c {
        tenant = tenant;
        mails = c.mails ++ (if tenant_ok then [] else map alert cfg.admin_emails);
      },
      tenant_ok,
    )

-- Whether the run may go on.
unfoldable pub spend_budget : Settings → ℕ → Cycle → Cycle × Bool
unfolding spend_tenant
spend_budget cfg today c =
    let (sp, source_ok) = try_spend_source_budget cfg today c.source in
    if source_ok
    then spend_tenant cfg today (record c { source = sp })
    else (record c { source = sp }, false)

-- A check without the budget for it is queued.
unfoldable pub defer : Moments → Cycle → Cycle
defer m c = record c {
  source = record c.source {
    next_check_at = some (m.deferral + budget_retry);
    tier2_deferred = true;
  };
}

-- A failed check is tried again in half an hour.
unfoldable pub fail_check : Settings → Moments → FailureReason → Cycle → Cycle
unfolding record_fetch_failure
fail_check cfg m reason c = record_fetch_failure cfg m.failure_alert reason (record c {
  source = record c.source { next_check_at = some (m.failure + fetch_failure_retry) };
})

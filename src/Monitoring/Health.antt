-- ===== src/Monitoring/Health.antt =====
-- How a cycle ends: skipped, queued for lack of budget, failed, or read.
use truthpage.Prelude.{
  ap, arith, days, false, is_some, minutes, none, some, true, ℕ, ◌+◌, ◌/◌, ◌∙◌, ◌≡◌, ◌⊎◌,
}
use truthpage.Settings.{Settings}
use truthpage.Subprocessor.{Subprocessor}
use truthpage.Tier2.{try_spend_source_budget, try_spend_tenant_budget}
use truthpage.Monitoring.{
  Cycle, Moments, Reader, Web, budget_retry, check_staleness, fetch_failure_retry, spend_budget,
}
use truthpage.Monitoring.Check.{Page, compare_page, mark_requires_browser, retry_thin}

-- The snapshot of a source, its baseline and when it was last read; and the tenant's own settings.
pub record SameSnapshot (sp : Subprocessor) (sp' : Subprocessor) : Type 0 where
  pub id : sp'.id ≡ sp.id
  pub url : sp'.monitored_url ≡ sp.monitored_url
  pub enabled : sp'.monitoring_enabled ≡ sp.monitoring_enabled
  pub interval : sp'.check_interval_minutes ≡ sp.check_interval_minutes
  pub content_hash : sp'.last_content_hash ≡ sp.last_content_hash
  pub version : sp'.content_format_version ≡ sp.content_format_version
  pub text : sp'.last_content_text ≡ sp.last_content_text
  pub html : sp'.last_raw_html ≡ sp.last_raw_html
  pub html_hash : sp'.last_raw_html_hash ≡ sp.last_raw_html_hash
  pub checked_at : sp'.last_checked_at ≡ sp.last_checked_at
  pub baseline : sp'.baseline_raw_html_hash ≡ sp.baseline_raw_html_hash
  pub baseline_status : sp'.baseline_timestamp_status ≡ sp.baseline_timestamp_status

-- A step before the page is read: nothing of the snapshot, the failures or the events changes.
pub record Quiet (c : Cycle) (c' : Cycle) : Type 0 where
  pub snapshot : SameSnapshot c.source c'.source
  pub failures : c'.source.consecutive_failure_count ≡ c.source.consecutive_failure_count
  pub events : c'.events ≡ c.events

pub check_staleness-Quiet :
    (cfg : Settings) (m : Moments) (c : Cycle) → Quiet c (check_staleness cfg m c)
unfolding check_staleness
check_staleness-Quiet cfg m c = ground arith

pub spend_budget-Quiet :
    (cfg : Settings) (today : ℕ) (c : Cycle) → Quiet c (spend_budget cfg today c).0
unfolding spend_budget try_spend_source_budget try_spend_tenant_budget
spend_budget-Quiet cfg today c = ground arith

pub retry_thin-Quiet :
    (cfg : Settings) (reader : Reader) (web : Web) (page : Page) (c : Cycle)
    → Quiet c (retry_thin cfg reader web page c).1
unfolding retry_thin
retry_thin-Quiet cfg reader web page c = ground arith

SameSnapshot-trans : (a b c : Subprocessor) → SameSnapshot a b → SameSnapshot b c → SameSnapshot a c
SameSnapshot-trans a b c h k = record {
  id = k.id ∙ h.id;
  url = k.url ∙ h.url;
  enabled = k.enabled ∙ h.enabled;
  interval = k.interval ∙ h.interval;
  content_hash = k.content_hash ∙ h.content_hash;
  version = k.version ∙ h.version;
  text = k.text ∙ h.text;
  html = k.html ∙ h.html;
  html_hash = k.html_hash ∙ h.html_hash;
  checked_at = k.checked_at ∙ h.checked_at;
  baseline = k.baseline ∙ h.baseline;
  baseline_status = k.baseline_status ∙ h.baseline_status;
}

pub Quiet-trans : (c d e : Cycle) → Quiet c d → Quiet d e → Quiet c e
Quiet-trans c d e h k = record {
  snapshot = SameSnapshot-trans c.source d.source e.source h.snapshot k.snapshot;
  failures = k.failures ∙ h.failures;
  events = k.events ∙ h.events;
}

-- The check failed: one more failure, the next try in half an hour, nothing else of the source's
-- record changed.
pub record HasFailed (m : Moments) (c : Cycle) (c' : Cycle) : Type 0 where
  pub snapshot : SameSnapshot c.source c'.source
  pub failures : c'.source.consecutive_failure_count ≡ c.source.consecutive_failure_count + 1
  pub reason : is_some c'.source.last_failure_reason ≡ true
  pub next_check : c'.source.next_check_at ≡ some (m.failure + fetch_failure_retry)
  pub not_deferred : c'.source.tier2_deferred ≡ false
  pub events : c'.events ≡ c.events

-- The check was queued: no failure is counted.
pub record IsQueued (m : Moments) (c : Cycle) (c' : Cycle) : Type 0 where
  pub quiet : Quiet c c'
  pub marked : c'.source.tier2_deferred ≡ true
  pub next_check : c'.source.next_check_at ≡ some (m.deferral + budget_retry)

-- The page was read and is healthy: the alarms are reset, and the next check comes at the interval.
pub record WasRead (m : Moments) (c : Cycle) (c' : Cycle) : Type 0 where
  pub checked_at : c'.source.last_checked_at ≡ some m.success
  pub next_check :
      c'.source.next_check_at ≡ some (m.success + minutes c.source.check_interval_minutes)
  pub failures : c'.source.consecutive_failure_count ≡ 0
  pub reason : c'.source.last_failure_reason ≡ none
  pub alarm : c'.source.monitoring_alert_sent_at ≡ none
  pub stale_alarm : c'.source.staleness_alert_sent_at ≡ none
  pub not_deferred : c'.source.tier2_deferred ≡ false
  pub has_snapshot : is_some c'.source.last_content_hash ≡ true

-- A page that needs the browser has the budget of its source and of its tenant for today.
abbrev pub MayFetch : Settings → Moments → Cycle → Type 0
MayFetch cfg m c =
    (c.source.requires_browser ≡ false)
    ⊎ ((spend_budget cfg (m.budget / days 1) (check_staleness cfg m c)).1 ≡ true)

pub data CycleEnd (cfg : Settings) (m : Moments) (c : Cycle) (c' : Cycle) : Type 0 where
  skips : c.source.monitoring_enabled ≡ false → c' ≡ c → CycleEnd cfg m c c'
  queues :
      c.source.monitoring_enabled ≡ true
      → c.source.requires_browser ≡ true
      → (spend_budget cfg (m.budget / days 1) (check_staleness cfg m c)).1 ≡ false
      → IsQueued m c c'
      → CycleEnd cfg m c c'
  fails :
      c.source.monitoring_enabled ≡ true → MayFetch cfg m c → HasFailed m c c' → CycleEnd cfg m c c'
  reads :
      c.source.monitoring_enabled ≡ true → MayFetch cfg m c → WasRead m c c' → CycleEnd cfg m c c'

-- From the fetch on a cycle fails or reads.
abbrev FailsOrReads : Moments → Cycle → Cycle → Type 0
FailsOrReads m c c' = HasFailed m c c' ⊎ WasRead m c c'

pub compare_page-WasRead :
    (reader : Reader) (m : Moments) (page : Page) (c : Cycle)
    → c.source.tier2_deferred ≡ false
    → WasRead m c (compare_page reader m page c)
unfolding compare_page
compare_page-WasRead reader m page c h = ground arith

pub WasRead-Quiet : (m : Moments) (c d e : Cycle) → Quiet c d → WasRead m d e → WasRead m c e
WasRead-Quiet m c d e q r = record {
  checked_at = r.checked_at;
  next_check = r.next_check ∙ ap (λ (n : ℕ). some (m.success + minutes n)) q.snapshot.interval;
  failures = r.failures;
  reason = r.reason;
  alarm = r.alarm;
  stale_alarm = r.stale_alarm;
  not_deferred = r.not_deferred;
  has_snapshot = r.has_snapshot;
}

pub mark-Quiet : (c : Cycle) → Quiet c (mark_requires_browser c)
mark-Quiet c = ground arith

pub clear-Quiet :
    (c : Cycle) → Quiet c (record c { source = record c.source { tier2_deferred = false } })
clear-Quiet c = ground arith

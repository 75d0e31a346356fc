-- ===== src/Monitoring/Check.antt =====
-- `run_subprocessor_check` from the fetch on: the page is read, compared and recorded.
use truthpage.Prelude.{
  Bool, List, Option, String, [], days, false, get_or, if◌then◌else◌, ltb, minutes, none, not, some,
  str_eq, true, ◌&&◌, ◌++◌, ◌+◌, ◌/◌, ◌==◌, ◌∷◌,
}
use truthpage.Settings.{Settings}
use truthpage.Tenant.{Tenant, may_export_evidence}
use truthpage.Subprocessor.{
  Subprocessor, FailureReason, timeout, browser_error, http_error, empty_content, pending,
}
use truthpage.ContentHealth.{content_health_issue}
use truthpage.ChangeEvent.{
  ChangeEvent, pending_review, auto_published, auto_published_cosmetic, Classification, cosmetic,
  uncertain,
}
use truthpage.Detector.{diff_for_llm, diff_for_llm_max_chars}
use truthpage.Fetcher.{Fetched, fetch_raised, fetch_raw_html, fetched, timed_out}
use truthpage.Monitoring.{
  Analysis, Cycle, Mail, Moments, Reader, Web, auto_publish_confidence_threshold, check_staleness,
  defer, fail_check, normalizer_version, reset_health, review_needed, spend_budget, wait_for,
}

abbrev pub is_empty_content : Option FailureReason → Bool
is_empty_content (some empty_content) = true
is_empty_content _ = false

-- A page that was fetched: the document, its text and what is wrong with it.
pub record Page : Type 0 where
  pub html : String
  pub text : String
  pub issue : Option FailureReason

unfoldable pub read_page : Settings → Reader → String → Page
read_page cfg reader html = record {
  html = html;
  text = reader.normalize html;
  issue = content_health_issue cfg html (reader.normalize html);
}

abbrev pub mark_requires_browser : Cycle → Cycle
mark_requires_browser c = record c { source = record c.source { requires_browser = true } }

-- The second fetch, if it answers in time, replaces the page.
retried : Settings → Reader → Page → Cycle → Fetched → Page × Cycle
retried cfg reader page c (fetched html escalated) =
    (read_page cfg reader html, mark_requires_browser c)
retried cfg reader page c fetch_raised = (page, c)
retried cfg reader page c timed_out = (page, c)

unfoldable pub retry_thin : Settings → Reader → Web → Page → Cycle → Page × Cycle
unfolding retried
retry_thin cfg reader web page c =
    if is_empty_content page.issue && not c.source.requires_browser
    then retried cfg reader page c
        (wait_for web.retry_too_slow (fetch_raw_html true web.tier1 web.retry))
    else (page, c)

-- The columns that every successful check writes.
abbrev pub checked : Moments → Subprocessor → Subprocessor
checked m sp = record (reset_health sp) {
  last_checked_at = some m.success;
  next_check_at = some (m.success + minutes sp.check_interval_minutes);
}

abbrev pub store_snapshot : Reader → Page → Subprocessor → Subprocessor
store_snapshot reader page sp = record sp {
  last_content_hash = some (reader.hash page.text);
  last_content_text = some page.text;
  last_raw_html = some page.html;
  last_raw_html_hash = some (reader.hash page.html);
}

abbrev pub first_check : Reader → Moments → Page → Subprocessor → Subprocessor
first_check reader m page sp = record (checked m (store_snapshot reader page sp)) {
  content_format_version = normalizer_version;
  baseline_raw_html_hash = some (reader.hash page.html);
  baseline_timestamp_status = pending;
}

abbrev pub rebaseline : Reader → Moments → Page → Subprocessor → Subprocessor
rebaseline reader m page sp = record (checked m (store_snapshot reader page sp)) {
  content_format_version = normalizer_version;
}

abbrev pub fallback_analysis : Analysis
fallback_analysis = record {
  summary = "LLM analysis failed — manual review required.";
  classification = uncertain;
  confidence = 0;
}

abbrev is_cosmetic : Classification → Bool
is_cosmetic cosmetic = true
is_cosmetic _ = false

abbrev pub auto_publish : Analysis → Bool
auto_publish a = is_cosmetic a.classification && ltb auto_publish_confidence_threshold a.confidence

unfoldable pub raw_diff_of : Reader → Page → Subprocessor → String
raw_diff_of reader page sp =
    reader.unified_diff (get_or sp.last_content_text "") page.text sp.monitored_url

unfoldable pub analysis_of : Reader → Page → Subprocessor → Analysis
unfolding raw_diff_of
analysis_of reader page sp =
    get_or (reader.analyze (diff_for_llm (raw_diff_of reader page sp) diff_for_llm_max_chars))
      fallback_analysis

unfoldable pub new_event : Reader → Page → Tenant → Subprocessor → ChangeEvent
new_event reader page tenant sp =
    let analysis = analysis_of reader page sp in
    record {
      id = reader.new_id;
      subprocessor_id = sp.id;
      old_hash = get_or sp.last_content_hash "";
      new_hash = reader.hash page.text;
      export_entitled = may_export_evidence tenant;
      raw_diff = raw_diff_of reader page sp;
      old_content_text = sp.last_content_text;
      new_content_text = some page.text;
      old_raw_html = sp.last_raw_html;
      new_raw_html = some page.html;
      old_raw_html_hash = sp.last_raw_html_hash;
      new_raw_html_hash = some (reader.hash page.html);
      llm_summary = some analysis.summary;
      llm_classification = some analysis.classification;
      llm_confidence = some analysis.confidence;
      status = if auto_publish analysis then auto_published else pending_review;
      notice_subject = none;
      notice_body = none;
      approved_by = none;
      approved_at = none;
      notified_at = none;
      timestamp_status = pending;
      tsa_token = none;
      tsa_authority_url = none;
      tsa_time_utc = none;
      tsa_attempt_count = 0;
      tsa_last_error = none;
      reviewed_by_name = none;
      reviewed_by_email = none;
      reviewed_at = none;
      review_action = if auto_publish analysis then some auto_published_cosmetic else none;
      notice_frozen_subject = none;
      notice_frozen_body = none;
      notice_frozen_at = none;
      recipient_count = none;
      window_days = none;
      window_closes_at = none;
      created_at = reader.inserted_at;
    }

-- `if not auto_publish and subprocessor.tenant.email`
abbrev review_mail : Option String → Subprocessor → Analysis → List Mail
review_mail none sp a = []
review_mail (some email) sp a =
    if auto_publish a
    then []
    else if str_eq email ""
    then []
    else review_needed email sp.name sp.monitored_url a.summary a.classification ∷ []

unfoldable pub record_change : Reader → Moments → Page → Cycle → Cycle
unfolding new_event
record_change reader m page c = record c {
  source = checked m (store_snapshot reader page c.source);
  events = c.events ++ new_event reader page c.tenant c.source ∷ [];
  mails = c.mails ++ review_mail c.tenant.email c.source (analysis_of reader page c.source);
}

-- A healthy page, against the last one.
unfoldable pub compare_page : Reader → Moments → Page → Cycle → Cycle
unfolding record_change
compare_page reader m page c = elim c.source.last_content_hash [
  | none ↦ record c { source = first_check reader m page c.source }
  | some old_hash ↦
      if not (c.source.content_format_version == normalizer_version)
      then record c { source = rebaseline reader m page c.source }
      else if str_eq old_hash (reader.hash page.text)
      then record c { source = checked m c.source }
      else record_change reader m page c
]

unfoldable pub judge_page : Settings → Reader → Moments → Page → Cycle → Cycle
unfolding fail_check compare_page
judge_page cfg reader m page c = elim page.issue [
  | none ↦ compare_page reader m page c
  | some reason ↦ fail_check cfg m reason c
]

-- What came of the first fetch.
unfoldable pub read_reply : Settings → Reader → Moments → Web → Cycle → Fetched → Cycle
unfolding judge_page retry_thin read_page
read_reply cfg reader m web c timed_out = fail_check cfg m timeout c
read_reply cfg reader m web c fetch_raised =
    fail_check cfg m (if c.source.requires_browser then browser_error else http_error) c
read_reply cfg reader m web c (fetched html escalated) =
    let c' = if escalated then mark_requires_browser c else c in
    let (page, c'') = retry_thin cfg reader web (read_page cfg reader html) c' in
    judge_page cfg reader m page c''

unfoldable pub fetch_and_read : Settings → Reader → Moments → Web → Cycle → Cycle
unfolding read_reply
fetch_and_read cfg reader m web c =
    let c' = record c { source = record c.source { tier2_deferred = false } } in
    read_reply cfg reader m web c'
      (wait_for web.too_slow (fetch_raw_html c.source.requires_browser web.tier1 web.tier2))

-- The cycle of a source that was found, with its tenant. `days 1` turns a moment into its date.
unfoldable pub run_subprocessor_check : Settings → Reader → Moments → Web → Cycle → Cycle
run_subprocessor_check cfg reader m web c =
    let stale = check_staleness cfg m c in
    let (spent, within_budget) = spend_budget cfg (m.budget / days 1) stale in
    if not c.source.monitoring_enabled
    then c
    else if not stale.source.requires_browser
    then fetch_and_read cfg reader m web stale
    else if within_budget
    then fetch_and_read cfg reader m web spent
    else defer m spent

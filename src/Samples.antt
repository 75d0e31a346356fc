-- ===== src/Samples.antt =====
-- Concrete rows for the tests.
use truthpage.Prelude.{false, none, some, true}
use truthpage.Tenant.{Tenant, active, growth}
use truthpage.Subprocessor.{Subprocessor, pending}
use truthpage.ChangeEvent.{ChangeEvent, pending_review, material}

abbrev pub acme : Tenant
acme = record {
  id = 1;
  name = "Acme";
  email = some "owner@acme.test";
  slug = "acme";
  paddle_customer_id = some "ctm_1";
  paddle_subscription_id = some "sub_1";
  subscription_status = active;
  trial_ends_at = none;
  plan = growth;
  hide_powered_by = false;
  onboarded_at = some 10;
  objection_window_days = 30;
  privacy_contact_email = none;
  tier2_daily_count = 0;
  tier2_daily_date = none;
}

abbrev pub stripe : Subprocessor
stripe = record {
  id = 7;
  tenant_id = 1;
  name = "Stripe";
  monitored_url = "https://stripe.test/list";
  monitoring_enabled = true;
  last_content_hash = some "aa";
  content_format_version = 2;
  last_content_text = some "old text";
  last_raw_html = some "<p>old text</p>";
  last_raw_html_hash = some "bb";
  requires_browser = false;
  check_interval_minutes = 1440;
  next_check_at = none;
  last_checked_at = some 1000;
  consecutive_failure_count = 0;
  monitoring_alert_sent_at = none;
  last_failure_reason = none;
  tier2_deferred = false;
  tier2_daily_count = 0;
  tier2_daily_date = none;
  staleness_alert_sent_at = none;
  baseline_raw_html_hash = some "bb";
  baseline_timestamp_status = pending;
  baseline_tsa_token = none;
  baseline_tsa_authority_url = none;
  baseline_tsa_time_utc = none;
  baseline_tsa_attempt_count = 0;
  baseline_tsa_last_error = none;
  created_at = 500;
}

abbrev pub change : ChangeEvent
change = record {
  id = 3;
  subprocessor_id = 7;
  old_hash = "aa";
  new_hash = "cc";
  export_entitled = true;
  raw_diff = "@@ -1 +1 @@";
  old_content_text = some "old text";
  new_content_text = some "new text";
  old_raw_html = some "<p>old text</p>";
  new_raw_html = some "<p>new text</p>";
  old_raw_html_hash = some "bb";
  new_raw_html_hash = some "bb";
  llm_summary = some "A vendor was added.";
  llm_classification = some material;
  llm_confidence = some 900000;
  status = pending_review;
  notice_subject = none;
  notice_body = none;
  approved_by = none;
  approved_at = none;
  notified_at = none;
  timestamp_status = pending;
  tsa_token = none;
  tsa_authority_url = none;
  tsa_time_utc = none;
  tsa_attempt_count = 0;
  tsa_last_error = none;
  reviewed_by_name = none;
  reviewed_by_email = none;
  reviewed_at = none;
  review_action = none;
  notice_frozen_subject = none;
  notice_frozen_body = none;
  notice_frozen_at = none;
  recipient_count = none;
  window_days = none;
  window_closes_at = none;
  created_at = 1000;
}

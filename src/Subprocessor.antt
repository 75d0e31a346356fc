-- ===== src/Subprocessor.antt =====
-- app/db/models/subprocessor.py: one page that a tenant has watched. The evidence columns of the
-- baseline stand in `Timestamp`.
use truthpage.Prelude.{Bool, Option, String, Time, days, get_or, leb, ℕ, ◌+◌, ◌||◌}
use truthpage.Settings.{Settings}

-- TimestampStatus of app/db/models/change_event.py.
pub data TimestampStatus : Type 0 where
  pending retrying timestamped failed not_available_pre_tsa : TimestampStatus

-- What `last_failure_reason` may hold: "timeout", "browser_error", "http_error" and the two codes
-- of content_health.py.
pub data FailureReason : Type 0 where
  timeout browser_error http_error bot_wall empty_content : FailureReason

pub record Subprocessor : Type 0 where
  pub id : ℕ
  pub tenant_id : ℕ
  pub name : String
  pub monitored_url : String
  pub monitoring_enabled : Bool
  pub last_content_hash : Option String
  pub content_format_version : ℕ
  pub last_content_text : Option String
  pub last_raw_html : Option String
  pub last_raw_html_hash : Option String
  pub requires_browser : Bool
  pub check_interval_minutes : ℕ
  pub next_check_at : Option Time
  pub last_checked_at : Option Time
  pub consecutive_failure_count : ℕ
  pub monitoring_alert_sent_at : Option Time
  pub last_failure_reason : Option FailureReason
  pub tier2_deferred : Bool
  pub tier2_daily_count : ℕ
  pub tier2_daily_date : Option ℕ
  pub staleness_alert_sent_at : Option Time
  pub baseline_raw_html_hash : Option String
  pub baseline_timestamp_status : TimestampStatus
  pub baseline_tsa_token : Option String
  pub baseline_tsa_authority_url : Option String
  pub baseline_tsa_time_utc : Option Time
  pub baseline_tsa_attempt_count : ℕ
  pub baseline_tsa_last_error : Option String
  pub created_at : Time

-- When the source was last read, or when it was added.
unfoldable pub reference : Subprocessor → Time
reference sp = get_or sp.last_checked_at sp.created_at

-- `now - reference >= timedelta(days=…)`, with the subtraction moved to the other side.
unfoldable pub is_stale : Settings → Subprocessor → Time → Bool
unfolding reference
is_stale cfg sp now = leb (reference sp + days cfg.staleness_alert_days) now

unfoldable pub has_monitoring_alert : Settings → Subprocessor → Time → Bool
unfolding is_stale
has_monitoring_alert cfg sp now =
    leb cfg.monitoring_alert_failure_threshold sp.consecutive_failure_count || is_stale cfg sp now

-- ===== src/Settings.antt =====
-- app/core/config.py: the settings that the modelled parts read. `admin_emails` stands for the
-- property `admin_email_set`, the addresses of ADMIN_EMAILS in lower case.
use truthpage.Prelude.{List, String, [], ℕ}

pub record Settings : Type 0 where
  pub app_url : String
  pub paddle_price_id_growth : String
  pub paddle_price_id_growth_yearly : String
  pub paddle_price_id_starter : String
  pub paddle_price_id_starter_yearly : String
  pub max_subprocessors_per_tenant : ℕ
  pub starter_max_subprocessors : ℕ
  pub free_tier_max_subprocessors : ℕ
  pub admin_emails : List String
  pub tsa_primary_url : String
  pub tsa_fallback_url : String
  pub tsa_max_attempts : ℕ
  pub monitoring_alert_failure_threshold : ℕ
  pub monitoring_alert_dedupe_days : ℕ
  pub staleness_alert_days : ℕ
  pub tier2_daily_per_source : ℕ
  pub tier2_daily_limit_free : ℕ
  pub tier2_daily_limit_starter : ℕ
  pub tier2_daily_limit_growth : ℕ
  pub content_health_min_text_length : ℕ

-- The values that the class gives.
abbrev pub defaults : Settings
defaults = record {
  app_url = "http://localhost:8000";
  paddle_price_id_growth = "";
  paddle_price_id_growth_yearly = "";
  paddle_price_id_starter = "";
  paddle_price_id_starter_yearly = "";
  max_subprocessors_per_tenant = 30;
  starter_max_subprocessors = 10;
  free_tier_max_subprocessors = 3;
  admin_emails = [];
  tsa_primary_url = "https://freetsa.org/tsr";
  tsa_fallback_url = "";
  tsa_max_attempts = 5;
  monitoring_alert_failure_threshold = 3;
  monitoring_alert_dedupe_days = 7;
  staleness_alert_days = 3;
  tier2_daily_per_source = 2;
  tier2_daily_limit_free = 6;
  tier2_daily_limit_starter = 20;
  tier2_daily_limit_growth = 60;
  content_health_min_text_length = 500;
}

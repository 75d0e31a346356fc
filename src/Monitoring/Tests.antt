-- ===== src/Monitoring/Tests.antt =====
-- Instances of the theorems on monitoring.
use truthpage.Prelude.{List, String, Time, [], arith, false, length, refl, some, ◌+◌, ◌∷◌, ◌≡◌, ◌≤◌}
use truthpage.Settings.{Settings, defaults}
use truthpage.Subprocessor.{FailureReason, http_error, is_stale, timeout}
use truthpage.ChangeEvent.{cosmetic}
use truthpage.ContentHealth.{content_health_issue, is_bot_wall_body}
use truthpage.Fetcher.{fetch_raw_html, tier1_page, tier2_page}
use truthpage.Monitoring.{Cycle, Moments, Reader, Web, alert_recipients, check_staleness}
use truthpage.Monitoring.Check.{fetch_and_read, run_subprocessor_check}
use truthpage.Monitoring.Health.{WasRead}
use truthpage.Monitoring.Reading.{Answers, run_subprocessor_check-reads}
use truthpage.Monitoring.Recorded.{NoneOrOne}
use truthpage.Monitoring.Events.{run_subprocessor_check-events}
use truthpage.Monitoring.Alerts.{among, fail_run, fail_run_lem, sent_to}
use truthpage.Samples.{acme, stripe}

abbrev moments : Moments
moments = record {
  stale_read = 2000;
  stale_days = 2000;
  stale_alert = 2000;
  budget = 2000;
  deferral = 2000;
  failure = 2001;
  failure_alert = 2001;
  success = 2002;
}

abbrev web_reader : Reader
web_reader = record {
  normalize = λ html. html;
  hash = λ text. text;
  unified_diff = λ old new url. "@@ -1 +1 @@";
  analyze =
      λ diff. some (record { summary = "Spaces."; classification = cosmetic; confidence = 900000 });
  new_id = 3;
  inserted_at = 2000;
}

abbrev web : Web
web = record {
  tier1 = tier1_page "<p>new text</p>" false;
  tier2 = tier2_page "<p>new text</p>";
  too_slow = false;
  retry = tier2_page "<p>new text</p>";
  retry_too_slow = false;
}

abbrev cycle : Cycle
cycle = record { source = stripe; tenant = acme; events = []; mails = [] }

abbrev lenient : Settings
lenient = record defaults { admin_emails = "admin@t.test" ∷ []; content_health_min_text_length = 3 }

run_subprocessor_check-events_example :
    NoneOrOne cycle (run_subprocessor_check lenient web_reader moments web cycle)
run_subprocessor_check-events_example =
    run_subprocessor_check-events lenient web_reader moments web cycle

abbrev document : String
document = "<p>new text</p>"

web-Answers : Answers lenient web_reader web document
unfolding content_health_issue is_bot_wall_body
web-Answers = record { in_time = refl; page = refl; healthy = refl }

run_subprocessor_check-reads_example :
    let after = run_subprocessor_check lenient web_reader moments web cycle in
    WasRead moments cycle after × (after.source.last_content_hash ≡ some document)
run_subprocessor_check-reads_example =
    run_subprocessor_check-reads lenient web_reader moments web document cycle web-Answers refl refl

-- This cycle finds the change and publishes it.
finds_change : length (run_subprocessor_check lenient web_reader moments web cycle).events ≡ 1
unfolding run_subprocessor_check check_staleness is_stale fetch_and_read fetch_raw_html
    content_health_issue is_bot_wall_body
finds_change = refl

abbrev failures : List (Time × FailureReason)
failures = (10, timeout) ∷ (20, http_error) ∷ (30, timeout) ∷ (40, timeout) ∷ []

one_admin : (a : String) → among a lenient.admin_emails ≤ 1
one_admin a = ground arith

fail_run_lem_example :
    ((fail_run lenient failures cycle).source.consecutive_failure_count ≡ 4)
    × ((a : String)
        → (sent_to a (fail_run lenient failures cycle).mails ≤ sent_to a cycle.mails + 1)
          × (sent_to a (fail_run lenient failures cycle).mails
              ≤ sent_to a cycle.mails + among a (alert_recipients lenient cycle.tenant)))
fail_run_lem_example =
    fail_run_lem lenient 10 failures cycle
      (
        (omega arith, omega arith),
        (
          (omega arith, omega arith),
          ((omega arith, omega arith), ((omega arith, omega arith), tt)),
        ),
      )
      one_admin

-- The third failure sends the two mails, and the fourth none.
two_mails : length (fail_run lenient failures cycle).mails ≡ 2
unfolding fail_run alert_recipients
two_mails = refl

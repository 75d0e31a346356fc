-- ===== src/Lib.antt =====
-- TrustPages: a service that watches the sub-processor pages of a tenant's vendors, opens a
-- change event when a page changes, has a human decide on it and release a notice, and keeps
-- evidence of what was seen and of who was told.
--
-- The parts and how they interact. The sweep runs one monitoring cycle for each due source
-- (app/services/monitoring.py). A cycle raises the staleness alarm, spends the daily browser
-- budget (app/services/tier2_budget.py) of the source and of its tenant, fetches the page
-- (app/core/scraper/fetcher.py), tests that it is content
-- (app/core/scraper/content_health.py), compares it with the stored snapshot and, on a change,
-- adds a change event whose difference is trimmed for the classifier
-- (app/core/scraper/detector.py). Every new event and every first snapshot is stamped by a
-- timestamp authority, with retries (app/services/tsa_retry.py). A reviewer approves or
-- rejects the event and releases its notice (app/services/approval.py), which freezes columns
-- of the event (app/db/models/change_event.py); deliveries are logged and summed up
-- (app/services/notifications.py). An event goes to auditors as a pack of files with a
-- manifest (app/services/evidence.py), which anybody can have checked
-- (app/services/verify.py). A trial that ends, or a cancelled subscription, moves the tenant
-- to the free plan (app/services/plans.py).
--
-- Files and code.
--   Settings       app/core/config.py, the settings that the other files read
--   Tenant         app/db/models/tenant.py: the row, and the properties of the class by their
--                  names
--   Subprocessor   app/db/models/subprocessor.py: the row, is_stale, has_monitoring_alert
--   ChangeEvent    app/db/models/change_event.py: the row and _guard_frozen_notification_fields;
--                  Classification is that of app/core/llm/schemas.py
--   Plans          app/services/plans.py; Plans/Split on free_plan_split, Plans/Downgrade and
--                  Plans/Stable on move_tenant_to_free
--   Tier2          app/services/tier2_budget.py; Tier2/Daily on the days of one source
--   ContentHealth  app/core/scraper/content_health.py
--   Detector       app/core/scraper/detector.py, diff_for_llm; Detector/Hunks on its loop
--                  keep_loop
--   Fetcher        app/core/scraper/fetcher.py, fetch_raw_html; Fetcher/Tier1: _fetch_tier1 with
--                  its redirects, and app/core/scraper/pdf_extract.py
--   UrlGuard       app/core/urlguard.py
--   Robots         app/core/scraper/robots.py; the cache's state is passed on
--   RateLimit      app/core/ratelimit.py and app/core/llm/rate_limit.py; RateLimit/Window on the
--                  window, RateLimit/Client on get_client_ip
--   Platform       what evidence packs ask of libraries and of the files under certs/tsa/
--   TsaChains      app/core/tsa_chains.py
--   Evidence       app/services/evidence.py: the CSV and the validators; Evidence/Manifest:
--                  _render_manifest_v2, Evidence/Script: _verify_sh, Evidence/Pack: evidence_zip,
--                  Evidence/Parse: parse_manifest_v2 and detect_manifest_version;
--                  Evidence/Reading, Evidence/RoundTrip, Evidence/Schema and Evidence/Written on
--                  reading what was written, Evidence/Redacted on the redacted log, Evidence/Toy:
--                  a platform for the tests
--   Verify         app/services/verify.py; Verify/Guard on the size of archives, Verify/Safe on
--                  what a verdict stands for, Verify/Named, Verify/Chains, Verify/Packs and
--                  Verify/Built on packs that evidence_zip made
--   Monitoring     app/services/monitoring.py: alarms and budget; Monitoring/Check: the cycle
--                  from the fetch on and run_subprocessor_check; Monitoring/Health on how cycles
--                  end, Monitoring/Reading on a page that answers, Monitoring/Recorded and
--                  Monitoring/Events on what they record, Monitoring/Alerts on alarms
--   Timestamp      app/services/tsa_retry.py and retry_timestamp of app/routers/dashboard.py;
--                  Timestamp/Pass, Timestamp/Parallel and Timestamp/Life on one pass over the
--                  tables, on the two state machines and on sequences of attempts
--   Notification   app/services/notifications.py and app/db/models/notification.py;
--                  Notification/Derived on the status, Notification/Counts on the sums
--   Notice         app/core/llm/notice.py, resolve_notice_placeholders
--   Approval       app/services/approval.py; Approval/Release on a release, Approval/Frozen and
--                  Approval/Once on sequences of decisions, drafts and releases
--   Jobs           app/scheduler/jobs.py: downgrade_expired_trials (Jobs/Trials) and the query of
--                  sweep_due_subprocessors (Jobs/Due)
--   Sweep          app/scheduler/jobs.py, run_sweep_cycle, and app/services/system_state.py;
--                  Sweep/Heartbeat on what the heartbeats say
--   Webhooks       app/routers/webhooks.py, the route of Resend; Webhooks/Delivery on the log
--   Paddle         app/routers/webhooks.py, the handlers of Paddle's events; Paddle/Route: its
--                  signature and dispatch; Paddle/Payment on a payment, Paddle/Ending on the
--                  end of a subscription, Paddle/Signed on replays
--   Prelude        what the other files share; Samples: concrete rows for the tests
--
-- A function keeps its name, without a leading underscore. A row is a record with the columns
-- of its class, a table is a list of rows, and a function that changes a row returns the new
-- one. Where a function commits several times, the model gives the state after the last one.
--
-- Numbers and bounds. A moment counts microseconds, a date counts days, a confidence counts
-- millionths, and an identifier is a number, ordered as the text of a UUID is. A difference of
-- two moments is taken with the later one first, as a clock that does not go back gives them.
-- A text is a list of its characters. The trimming loop of diff_for_llm runs on fuel, the
-- number of hunks, and each of its rounds takes one hunk, so it never runs out. The loop over
-- redirects has the six turns of the program. Everything else is structural recursion.
--
-- Parameters. The replies of timestamp authorities, of web servers, of the name service, of
-- the browser, of the classifier and of the mail service, the codecs of a webhook, the
-- normalizer, the hash, difflib, the parser of robots.txt and its cache, the digest of the
-- preview token, the parser of UUIDs and the readings of the clock are arguments; so are the
-- passes of the scheduler's cycle, two of which are defined here. The cache of a rate limiter
-- holds an entry for as long as a parameter says. A request is sent after the guard looked its
-- host up, and what the name service says by then may differ. A fetch that takes too long is
-- assumed to have changed nothing. Of the archive format it is assumed that what is written is
-- read back, of UTF-8 that it is undone, and of a SHA-256 digest that it is neither empty nor
-- "not_available". Addresses of administrators are a list without repetition; a set's order is
-- not that of the program.
--
-- Not modelled: HTML pages and mails, languages, statistics, the database and its migrations,
-- HTTP, openssl, Playwright and LLM clients, which are input and output; the loop of the
-- scheduler over the checks, onboarding, the public directory and accounts, which are yet to
-- be done.
pub mod Approval
pub mod ChangeEvent
pub mod ContentHealth
pub mod Detector
pub mod Evidence
pub mod Fetcher
pub mod Jobs
pub mod Monitoring
pub mod Notice
pub mod Notification
pub mod Paddle
pub mod Plans
pub mod Platform
pub mod Prelude
pub mod RateLimit
pub mod Robots
pub mod Samples
pub mod Settings
pub mod Subprocessor
pub mod Sweep
pub mod Tenant
pub mod Tier2
pub mod Timestamp
pub mod TsaChains
pub mod UrlGuard
pub mod Verify
pub mod Webhooks

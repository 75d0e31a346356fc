-- ===== src/Timestamp.antt =====
-- app/services/tsa_retry.py and the route `retry_timestamp` of app/routers/dashboard.py. The call of
-- a timestamp authority (app/core/tsa.py, over HTTP and openssl) is a parameter.
pub mod Pass
pub mod Parallel
pub mod Life
mod Tests
use truthpage.Prelude.{
  Bool, List, Option, Result, String, Time, [], err, false, filter, if◌then◌else◌, leb, map, none,
  ok, or_unchanged, some, str_eq, true, ℕ, ◌+◌, ◌==◌, ◌∷◌,
}
use truthpage.Settings.{Settings}
use truthpage.Subprocessor.{
  Subprocessor, TimestampStatus, failed, not_available_pre_tsa, pending, retrying, timestamped,
}
use truthpage.ChangeEvent.{ChangeEvent}

-- What `request_timestamp` does: the token with the time it reports, a TSAError, or any other
-- exception.
pub data TsaReply : Type 0 where
  granted : String → Option Time → TsaReply
  tsa_error : String → TsaReply
  crashed : TsaReply

-- digest, then authority URL.
abbrev pub Tsa : Type 0
Tsa = String → String → TsaReply

pub data StampError : Type 0 where
  backdated_timestamp unhandled : StampError

-- How the loop over the authorities ends.
pub data Round : Type 0 where
  stamped : String → String → Option Time → Round
  all_failed : Option String → Round
  broke : Round

-- `if settings.TSA_FALLBACK_URL: urls.append(…)`
abbrev pub tsa_urls : Settings → List String
tsa_urls cfg =
    cfg.tsa_primary_url ∷ (if str_eq cfg.tsa_fallback_url "" then [] else cfg.tsa_fallback_url ∷ [])

unfoldable pub ask : Tsa → String → List String → Option String → Round
ask tsa digest [] last_error = all_failed last_error
ask tsa digest (url ∷ urls) last_error = elim (tsa digest url) [
  | granted token time ↦ stamped url token time
  | tsa_error message ↦ ask tsa digest urls (some message)
  | crashed ↦ broke
]

abbrev pub is_pre_tsa : TimestampStatus → Bool
is_pre_tsa not_available_pre_tsa = true
is_pre_tsa _ = false

abbrev pub is_failed : TimestampStatus → Bool
is_failed failed = true
is_failed _ = false

-- `_DUE_STATUSES`
abbrev pub is_due : TimestampStatus → Bool
is_due pending = true
is_due retrying = true
is_due _ = false

settle_event : Settings → ChangeEvent → Round → Result StampError ChangeEvent
settle_event cfg event (stamped url token time) = ok (record event {
  timestamp_status = timestamped;
  tsa_token = some token;
  tsa_authority_url = some url;
  tsa_time_utc = time;
  tsa_attempt_count = event.tsa_attempt_count + 1;
  tsa_last_error = none;
})
settle_event cfg event (all_failed last_error) =
    let attempt = event.tsa_attempt_count + 1 in
    ok (record event {
      tsa_attempt_count = attempt;
      tsa_last_error = last_error;
      timestamp_status = if leb cfg.tsa_max_attempts attempt then failed else retrying;
    })
settle_event cfg event broke = err unhandled

unfoldable pub stamp_change_event : Settings → Tsa → ChangeEvent → Result StampError ChangeEvent
unfolding settle_event
stamp_change_event cfg tsa event =
    if is_pre_tsa event.timestamp_status
    then err backdated_timestamp
    else elim event.new_raw_html_hash [
      | none ↦ ok (record event { timestamp_status = not_available_pre_tsa })
      | some digest ↦ settle_event cfg event (ask tsa digest (tsa_urls cfg) none)
    ]

settle_baseline : Settings → Subprocessor → Round → Result StampError Subprocessor
settle_baseline cfg sp (stamped url token time) = ok (record sp {
  baseline_timestamp_status = timestamped;
  baseline_tsa_token = some token;
  baseline_tsa_authority_url = some url;
  baseline_tsa_time_utc = time;
  baseline_tsa_attempt_count = sp.baseline_tsa_attempt_count + 1;
  baseline_tsa_last_error = none;
})
settle_baseline cfg sp (all_failed last_error) =
    let attempt = sp.baseline_tsa_attempt_count + 1 in
    ok (record sp {
      baseline_tsa_attempt_count = attempt;
      baseline_tsa_last_error = last_error;
      baseline_timestamp_status = if leb cfg.tsa_max_attempts attempt then failed else retrying;
    })
settle_baseline cfg sp broke = err unhandled

unfoldable pub stamp_subprocessor_baseline :
    Settings → Tsa → Subprocessor → Result StampError Subprocessor
unfolding settle_baseline
stamp_subprocessor_baseline cfg tsa sp =
    if is_pre_tsa sp.baseline_timestamp_status
    then err backdated_timestamp
    else elim sp.baseline_raw_html_hash [
      | none ↦ ok (record sp { baseline_timestamp_status = not_available_pre_tsa })
      | some digest ↦ settle_baseline cfg sp (ask tsa digest (tsa_urls cfg) none)
    ]

-- The loop over the due ids: `session.get`, one attempt, and whatever was raised is logged.
unfoldable pub stamp_loop :
    {A : Type 0} → (A → ℕ) → (A → Result StampError A) → List ℕ → List A → List A
stamp_loop key stamp [] rows = rows
stamp_loop key stamp (i ∷ ids) rows =
    stamp_loop key stamp ids
      (map (λ row. if key row == i then or_unchanged row (stamp row) else row) rows)

-- One pass over both tables. The replies may differ from row to row.
unfoldable pub run_timestamp_retry_pass :
    Settings
    → (ℕ → Tsa)
    → (ℕ → Tsa)
    → List ChangeEvent
    → List Subprocessor
    → List ChangeEvent × List Subprocessor
run_timestamp_retry_pass cfg event_tsa baseline_tsa events sources =
    let due_events = map (λ e. e.id) (filter (λ e. is_due e.timestamp_status) events) in
    let due_sources =
      map (λ sp. sp.id) (filter (λ sp. is_due sp.baseline_timestamp_status) sources) in
    (
      stamp_loop (λ e. e.id) (λ e. stamp_change_event cfg (event_tsa e.id) e) due_events events,
      stamp_loop (λ sp. sp.id) (λ sp. stamp_subprocessor_baseline cfg (baseline_tsa sp.id) sp)
          due_sources sources,
    )

-- POST /dashboard/events/{event_id}/retry-timestamp, on the tenant's own event.
unfoldable pub retry_timestamp : ChangeEvent → ChangeEvent
retry_timestamp event =
    if is_failed event.timestamp_status
    then record event { timestamp_status = retrying; tsa_attempt_count = 0; tsa_last_error = none }
    else event

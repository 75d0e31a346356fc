-- ===== src/Timestamp/Parallel.antt =====
-- The two copies of the timestamp state machine: the columns of an event and the `baseline_*`
-- columns of a source.
use truthpage.Prelude.{
  Option, Result, String, Time, ap, arith, err, if◌then◌else◌, leb, map_ok, none, ok, refl, some,
  sym, ℕ, ◌+◌, ◌∙◌, ◌≡◌,
}
use truthpage.Settings.{Settings}
use truthpage.Subprocessor.{
  Subprocessor, TimestampStatus, failed, retrying, timestamped, not_available_pre_tsa,
}
use truthpage.ChangeEvent.{ChangeEvent}
use truthpage.Timestamp.{
  Tsa, Round, stamped, all_failed, broke, StampError, backdated_timestamp, unhandled, is_pre_tsa,
  ask, tsa_urls, settle_event, settle_baseline, stamp_change_event, stamp_subprocessor_baseline,
}

-- The columns that both have.
pub record Evidence : Type 0 where
  pub status : TimestampStatus
  pub digest : Option String
  pub token : Option String
  pub authority_url : Option String
  pub time_utc : Option Time
  pub attempt_count : ℕ
  pub last_error : Option String

abbrev pub of_event : ChangeEvent → Evidence
of_event e = record {
  status = e.timestamp_status;
  digest = e.new_raw_html_hash;
  token = e.tsa_token;
  authority_url = e.tsa_authority_url;
  time_utc = e.tsa_time_utc;
  attempt_count = e.tsa_attempt_count;
  last_error = e.tsa_last_error;
}

abbrev pub of_baseline : Subprocessor → Evidence
of_baseline sp = record {
  status = sp.baseline_timestamp_status;
  digest = sp.baseline_raw_html_hash;
  token = sp.baseline_tsa_token;
  authority_url = sp.baseline_tsa_authority_url;
  time_utc = sp.baseline_tsa_time_utc;
  attempt_count = sp.baseline_tsa_attempt_count;
  last_error = sp.baseline_tsa_last_error;
}

-- One attempt on those columns alone.
settle : Settings → Evidence → Round → Result StampError Evidence
settle cfg x (stamped url token time) = ok (record x {
  status = timestamped;
  token = some token;
  authority_url = some url;
  time_utc = time;
  attempt_count = x.attempt_count + 1;
  last_error = none;
})
settle cfg x (all_failed last_error) = ok (record x {
  attempt_count = x.attempt_count + 1;
  last_error = last_error;
  status = if leb cfg.tsa_max_attempts (x.attempt_count + 1) then failed else retrying;
})
settle cfg x broke = err unhandled

pub stamp_evidence : Settings → Tsa → Evidence → Result StampError Evidence
unfolding settle
stamp_evidence cfg tsa x = if is_pre_tsa x.status then err backdated_timestamp else elim x.digest [
  | none ↦ ok (record x { status = not_available_pre_tsa })
  | some digest ↦ settle cfg x (ask tsa digest (tsa_urls cfg) none)
]

settle-of_event :
    (cfg : Settings) (e : ChangeEvent) (r : Round)
    → map_ok of_event (settle_event cfg e r) ≡ settle cfg (of_event e) r
unfolding settle settle_event
settle-of_event cfg e (stamped url token time) = refl
settle-of_event cfg e (all_failed last_error) = refl
settle-of_event cfg e broke = refl

settle-of_baseline :
    (cfg : Settings) (sp : Subprocessor) (r : Round)
    → map_ok of_baseline (settle_baseline cfg sp r) ≡ settle cfg (of_baseline sp) r
unfolding settle settle_baseline
settle-of_baseline cfg sp (stamped url token time) = refl
settle-of_baseline cfg sp (all_failed last_error) = refl
settle-of_baseline cfg sp broke = refl

pub stamp-of_event :
    (cfg : Settings) (tsa : Tsa) (e : ChangeEvent)
    → map_ok of_event (stamp_change_event cfg tsa e) ≡ stamp_evidence cfg tsa (of_event e)
unfolding stamp_evidence stamp_change_event
stamp-of_event cfg tsa e = ground arith

pub stamp-of_baseline :
    (cfg : Settings) (tsa : Tsa) (sp : Subprocessor)
    → map_ok of_baseline (stamp_subprocessor_baseline cfg tsa sp)
      ≡ stamp_evidence cfg tsa (of_baseline sp)
unfolding stamp_evidence stamp_subprocessor_baseline
stamp-of_baseline cfg tsa sp = ground arith

-- The two state machines agree: from an event and a baseline with equal timestamp columns, one
-- attempt with the same replies leads to equal timestamp columns, or raises the same error.
pub stamp_parallel :
    (cfg : Settings) (tsa : Tsa) (e : ChangeEvent) (sp : Subprocessor)
    → of_event e ≡ of_baseline sp
    → map_ok of_event (stamp_change_event cfg tsa e)
      ≡ map_ok of_baseline (stamp_subprocessor_baseline cfg tsa sp)
stamp_parallel cfg tsa e sp h =
    stamp-of_event cfg tsa e ∙ ap (stamp_evidence cfg tsa) h ∙ sym (stamp-of_baseline cfg tsa sp)

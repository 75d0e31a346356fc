-- ===== src/ChangeEvent.antt =====
-- app/db/models/change_event.py: one detected change, its review, its notice and its timestamp. The
-- guard on the frozen columns is the validator of the class.
use truthpage.Prelude.{
  Bool, Option, Result, String, Time, err, false, if◌then◌else◌, none, not, ok, some, true, ℕ,
}
use truthpage.Subprocessor.{TimestampStatus}

pub data ChangeStatus : Type 0 where
  pending_review approved rejected auto_published : ChangeStatus

pub data ReviewAction : Type 0 where
  notice_released_by_reviewer auto_published_cosmetic : ReviewAction

-- The three words of `DiffAnalysis.classification`.
pub data Classification : Type 0 where
  material cosmetic uncertain : Classification

pub record ChangeEvent : Type 0 where
  pub id : ℕ
  pub subprocessor_id : ℕ
  pub old_hash : String
  pub new_hash : String
  pub export_entitled : Bool
  pub raw_diff : String
  pub old_content_text : Option String
  pub new_content_text : Option String
  pub old_raw_html : Option String
  pub new_raw_html : Option String
  pub old_raw_html_hash : Option String
  pub new_raw_html_hash : Option String
  pub llm_summary : Option String
  pub llm_classification : Option Classification
  -- A confidence is a float from 0 to 1; here it counts millionths.
  pub llm_confidence : Option ℕ
  pub status : ChangeStatus
  pub notice_subject : Option String
  pub notice_body : Option String
  pub approved_by : Option String
  pub approved_at : Option Time
  pub notified_at : Option Time
  pub timestamp_status : TimestampStatus
  pub tsa_token : Option String
  pub tsa_authority_url : Option String
  pub tsa_time_utc : Option Time
  pub tsa_attempt_count : ℕ
  pub tsa_last_error : Option String
  pub reviewed_by_name : Option String
  pub reviewed_by_email : Option String
  pub reviewed_at : Option Time
  pub review_action : Option ReviewAction
  pub notice_frozen_subject : Option String
  pub notice_frozen_body : Option String
  pub notice_frozen_at : Option Time
  pub recipient_count : Option ℕ
  pub window_days : Option ℕ
  pub window_closes_at : Option Time
  pub created_at : Time

abbrev pub action_eq : ReviewAction → ReviewAction → Bool
action_eq notice_released_by_reviewer notice_released_by_reviewer = true
action_eq auto_published_cosmetic auto_published_cosmetic = true
action_eq _ _ = false

pub data FrozenNotificationFieldError : Type 0 where
  frozen : FrozenNotificationFieldError

module _ {A : Type 0} (eq : A → A → Bool) where
  -- `value != current` where `current` is not None.
  abbrev differs : A → Option A → Bool
  differs current none = true
  differs current (some value) = not (eq value current)

  -- `event.field = value` for a frozen field: the new value, or the error.
  unfoldable pub guard_frozen : Option A → Option A → Result FrozenNotificationFieldError (Option A)
  guard_frozen none value = ok value
  guard_frozen (some current) value = if differs current value then err frozen else ok value

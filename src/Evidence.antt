-- ===== src/Evidence.antt =====
-- app/services/evidence.py: the evidence of a change as CSV and as a pack. This file has the rows of
-- the CSV, the words the manifest may hold, and its validators.
pub mod Manifest
pub mod Parse
pub mod Reading
pub mod RoundTrip
pub mod Schema
pub mod Written
pub mod Script
pub mod Toy
pub mod Pack
pub mod Redacted
mod Tests
use truthpage.Prelude.{
  Bool, List, Option, Result, String, Time, [], any_char, err, false, if◌then◌else◌, is_blank,
  is_in, join_with, leb, lower, map, mem_str, none, not, ok, show, some, str_eq, ℕ, ◌&&◌, ◌<>◌,
  ◌==◌, ◌||◌, ◌∷◌,
}
use Prim.Native.Char.{code}
use mathlib.Core.Option.{map as map_option}
use truthpage.Platform.{Platform}
use truthpage.Subprocessor.{
  Subprocessor, TimestampStatus, failed, not_available_pre_tsa, pending, retrying, timestamped,
}
use truthpage.ChangeEvent.{
  ChangeEvent, ChangeStatus, Classification, ReviewAction, approved, auto_published,
  auto_published_cosmetic, cosmetic, material, notice_released_by_reviewer, pending_review,
  rejected, uncertain,
}
use truthpage.Notification.{failed}

pub data EvidenceError : Type 0 where
  forbidden_manifest_language : String → EvidenceError
  bad_objection_status bad_review_action no_chain_file : EvidenceError

abbrev pub not_available_word : String
not_available_word = "not_available"

abbrev pub manifest_version : ℕ
manifest_version = 2

abbrev pub generator_version : String
generator_version = "0.1.0"

-- `_MODEL` of app/core/llm/analyzer.py
abbrev pub classifier_model : String
classifier_model = "gemini-2.5-flash"

-- The words that the columns hold in the database.
abbrev pub classification_word : Classification → String
classification_word material = "MATERIAL"
classification_word cosmetic = "COSMETIC"
classification_word uncertain = "UNCERTAIN"

abbrev pub status_word : ChangeStatus → String
status_word pending_review = "pending_review"
status_word approved = "approved"
status_word rejected = "rejected"
status_word auto_published = "auto_published"

abbrev pub timestamp_word : TimestampStatus → String
timestamp_word pending = "pending"
timestamp_word retrying = "retrying"
timestamp_word timestamped = "timestamped"
timestamp_word failed = "failed"
timestamp_word not_available_pre_tsa = "not_available_pre_tsa"

abbrev pub action_word : ReviewAction → String
action_word notice_released_by_reviewer = "notice_released_by_reviewer"
action_word auto_published_cosmetic = "auto_published_cosmetic"

-- `value or default` for a text or None.
abbrev pub or_text : Option String → String → String
or_text none default = default
or_text (some s) default = if str_eq s "" then default else s

-- `_na`
abbrev pub na : Option String → String
na value = or_text value not_available_word

-- `app_url.rstrip('/')`
abbrev pub rstrip_slash : String → String
rstrip_slash String.[] = String.[]
rstrip_slash (String.◌∷◌ c s) =
    let rest = rstrip_slash s in
    if (code c == 47) && is_blank rest then String.[] else String.◌∷◌ c rest

-- `s.replace("\r", " ").replace("\n", " ")`
abbrev pub flatten : String → String
flatten String.[] = String.[]
flatten (String.◌∷◌ c s) =
    if (code c == 13) || (code c == 10) then " " <> flatten s else String.◌∷◌ c (flatten s)

module _ (os : Platform) where
  unfoldable pub iso_utc : Option Time → String
  iso_utc none = ""
  iso_utc (some value) = os.strftime "%Y-%m-%dT%H:%M:%SZ" value

  unfoldable pub display_utc : Option Time → String
  display_utc none = ""
  display_utc (some value) = os.strftime "%Y-%m-%d %H:%M UTC" value

  -- `_sha256` of a text or None.
  unfoldable pub sha256_text : Option String → String
  sha256_text none = not_available_word
  sha256_text (some text) = os.sha256 (os.encode text)

  abbrev pub confidence_text : Option ℕ → String
  confidence_text none = ""
  confidence_text (some millionths) = os.format_2f millionths

  abbrev pub columns : List String
  columns =
      "detected_at_utc" ∷ "sub_processor" ∷ "monitored_url" ∷ "classification" ∷ "confidence"
      ∷ "summary" ∷ "status" ∷ "decided_by" ∷ "decided_at_utc" ∷ "subscribers_notified_at_utc"
      ∷ "content_hash_before" ∷ "content_hash_after" ∷ "evidence_record" ∷ []

  -- `_row`, of an event with its page.
  unfoldable pub csv_cells : String → ChangeEvent × Subprocessor → List String
  csv_cells app_url (event, page) =
      iso_utc (some event.created_at)
      ∷ page.name
      ∷ page.monitored_url
      ∷ or_text (map_option classification_word event.llm_classification) ""
      ∷ confidence_text event.llm_confidence
      ∷ flatten (or_text event.llm_summary "")
      ∷ status_word event.status
      ∷ or_text event.approved_by ""
      ∷ iso_utc event.approved_at
      ∷ iso_utc event.notified_at
      ∷ event.old_hash
      ∷ event.new_hash
      ∷ (rstrip_slash app_url <> "/dashboard/events/" <> show event.id)
      ∷ []

  unfoldable pub evidence_csv : List (ChangeEvent × Subprocessor) → String → String
  unfolding csv_cells
  evidence_csv events app_url =
      join_with "" (os.csv_row columns ∷ map (λ row. os.csv_row (csv_cells app_url row)) events)

-- The terms that a manifest must not hold.
abbrev pub forbidden_manifest_terms : List String
forbidden_manifest_terms =
    "compliant" ∷ "uyumlu" ∷ "approved" ∷ "onaylandı" ∷ "valid consent" ∷ "gdpr compliant"
    ∷ "meets article 28" ∷ []

unfoldable pub first_term : String → List String → Option String
first_term text [] = none
first_term text (term ∷ terms) =
    let later = first_term text terms in if is_in term text then some term else later

-- `_assert_no_forbidden_terms`, in front of the statement that follows it.
unfoldable pub assert_no_forbidden_terms : String → Result EvidenceError String
unfolding first_term
assert_no_forbidden_terms text = elim (first_term (lower text) forbidden_manifest_terms) [
  | none ↦ ok text
  | some term ↦ err (forbidden_manifest_language term)
]

-- One newline at the end, before which `$` also matches.
abbrev chomp : String → String
chomp String.[] = String.[]
chomp (String.◌∷◌ c s) =
    let rest = chomp s in if (code c == 10) && is_blank s then String.[] else String.◌∷◌ c rest

-- What stands behind a prefix.
abbrev pub after_prefix : String → String → Option String
after_prefix String.[] s = some s
after_prefix (String.◌∷◌ c p) String.[] = none
after_prefix (String.◌∷◌ c p) (String.◌∷◌ d s) =
    let rest = after_prefix p s in if code c == code d then rest else none

-- `.+` up to the end
abbrev is_filled : String → Bool
is_filled s = not (is_blank s) && not (any_char (λ c. c == 10) s)

-- The last character, as a text.
abbrev pub last_char : String → String
last_char String.[] = ""
last_char (String.◌∷◌ c s) =
    let rest = last_char s in if is_blank s then String.◌∷◌ c String.[] else rest

-- `.+\)` up to the end
abbrev is_closed : String → Bool
is_closed String.[] = false
is_closed (String.◌∷◌ c s) = is_filled s && str_eq (last_char s) ")" && not (code c == 10)

-- Digits are 0 to 9 here.
abbrev pub is_digit : ℕ → Bool
is_digit c = leb 48 c && leb c 57

abbrev drop_digits : String → String
drop_digits String.[] = String.[]
drop_digits (String.◌∷◌ c s) =
    let rest = drop_digits s in if is_digit (code c) then rest else String.◌∷◌ c s

abbrev pub starts_digit : String → Bool
starts_digit String.[] = false
starts_digit (String.◌∷◌ c s) = is_digit (code c)

abbrev holds : (String → Bool) → Option String → Bool
holds p none = false
holds p (some s) = p s

-- The four patterns of `_OBJECTION_STATUS_PATTERNS`.
unfoldable pub is_objection_status : String → Bool
is_objection_status text =
    let s = chomp text in
    holds is_closed (after_prefix "Window open (closes " s)
    || holds is_filled (after_prefix "No objection recorded via TrustPages as of " s)
    || (starts_digit s && str_eq (drop_digits s) " objection(s) recorded")
    || str_eq s not_available_word

unfoldable pub validate_objection_status : String → Result EvidenceError String
unfolding is_objection_status
validate_objection_status text =
    if is_objection_status text then ok text else err bad_objection_status

unfoldable pub validate_review_action : String → Result EvidenceError String
validate_review_action text =
    if mem_str text
      ("notice_released_by_reviewer" ∷ "auto_published_cosmetic" ∷ not_available_word ∷ [])
    then ok text
    else err bad_review_action

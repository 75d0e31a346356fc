-- ===== src/Evidence/Manifest.antt =====
-- The manifest of a pack: `_render_manifest_v2` with its sections, as lists of lines. What is read off
-- the clock, the objections and the recipients are arguments.
use Prim.Native.Char.{code}
use mathlib.Core.Option.{map as map_option}
use truthpage.Prelude.{
  Bool, List, Option, Result, String, Time, [], false, get_or, if◌then◌else◌, join_with, lower, ltb,
  map, none, ok, show, some, sort_by, str_eq, true, ℕ, ◌++◌, ◌<>◌, ◌==◌, ◌>>=◌, ◌∷◌,
}
use truthpage.Platform.{Platform}
use truthpage.Tenant.{Tenant}
use truthpage.Subprocessor.{Subprocessor, TimestampStatus, timestamped}
use truthpage.ChangeEvent.{ChangeEvent, ReviewAction}
use truthpage.Notification.{
  NotificationDeliveryEvent, NotificationRecipient, ObjectionStatus, compute_objection_status,
  no_objection_as_of, not_available, objections_recorded, summarize_recipients, window_open,
}
use truthpage.TsaChains.{chain_filename_for_authority}
use truthpage.Evidence.{
  EvidenceError, action_word, assert_no_forbidden_terms, classification_word, classifier_model,
  generator_version, iso_utc, manifest_version, na, not_available_word, rstrip_slash, sha256_text,
  timestamp_word, validate_objection_status, validate_review_action,
}

-- What the pack of an event is made from: the event with its page, its tenant, its recipients with
-- their logs, and the number of its objections.
pub record Dossier : Type 0 where
  pub event : ChangeEvent
  pub page : Subprocessor
  pub tenant : Tenant
  pub recipients : List (NotificationRecipient × List NotificationDeliveryEvent)
  pub objections : ℕ
  pub app_url : String
  pub default_window_days : ℕ
  pub now : Time

pub data Variant : Type 0 where
  redacted full : Variant

abbrev pub tsa_token_filename : String
tsa_token_filename = "after.html.sha256.tsr"

abbrev pub notice_filename : String
notice_filename = "notice.txt"

abbrev pub delivery_log_filename : Variant → String
delivery_log_filename redacted = "delivery_log_redacted.csv"
delivery_log_filename full = "delivery_log_full.csv"

-- f"{key}: {value}"
unfoldable pub field : String → String → String
field key value = key <> ": " <> value

abbrev pub is_timestamped : TimestampStatus → Bool
is_timestamped timestamped = true
is_timestamped _ = false

-- The truth of a number or None.
abbrev pub is_positive : Option ℕ → Bool
is_positive none = false
is_positive (some n) = ltb 0 n

abbrev pub review_word : Option ReviewAction → String
review_word action = na (map_option action_word action)

abbrev pub window_source : ℕ → ℕ → String
window_source window_days default_days =
    if window_days == default_days
    then "tenant configuration (default " <> show default_days <> ")"
    else "tenant configuration ("
      <> show window_days
      <> " days, default "
      <> show default_days
      <> ")"

-- `sorted(pack_files, key=str.lower)`
abbrev text_leb : String → String → Bool
text_leb String.[] t = true
text_leb (String.◌∷◌ c s) String.[] = false
text_leb (String.◌∷◌ c s) (String.◌∷◌ d t) =
    let rest = text_leb s t in
    if ltb (code c) (code d) then true else if code c == code d then rest else false

unfoldable pub by_name : List (String × String) → List (String × String)
by_name = sort_by λ x y. text_leb (lower x.0) (lower y.0)

unfoldable pub content_line : String × String → String
content_line (name, digest) = name <> "  " <> digest

module _ (os : Platform) where
  -- `iso_utc(value) or NOT_AVAILABLE`
  abbrev pub iso_or_na : Option Time → String
  iso_or_na value = na (some (iso_utc os value))

  -- `_timestamp_section_lines`
  unfoldable pub timestamp_section : ChangeEvent → List String
  timestamp_section event =
      field "timestamp_status" (timestamp_word event.timestamp_status)
      ∷ (if is_timestamped event.timestamp_status
          then field "tsa_token_file" tsa_token_filename
            ∷ field "tsa_authority_url" (na event.tsa_authority_url)
            ∷ field "tsa_time_utc" (iso_or_na event.tsa_time_utc)
            ∷ field "tsa_chain_file" (na (chain_filename_for_authority os event.tsa_authority_url))
            ∷ []
          else field "tsa_token_file" not_available_word
            ∷ field "tsa_authority_url" not_available_word
            ∷ field "tsa_time_utc" not_available_word
            ∷ field "tsa_chain_file" not_available_word
            ∷ [])

  -- `_review_section_lines`
  unfoldable pub review_section : ChangeEvent → Result EvidenceError (List String)
  review_section event = validate_review_action (review_word event.review_action) >>= λ action. ok (
      field "reviewed_by_name" (na event.reviewed_by_name)
      ∷ field "reviewed_by_email" (na event.reviewed_by_email)
      ∷ field "reviewed_at" (iso_or_na event.reviewed_at)
      ∷ field "review_action" action
      ∷ [])

  -- `_notification_section_lines`
  unfoldable pub notification_section : Dossier → Variant → List String
  notification_section d variant =
      let counts = summarize_recipients d.recipients in
      if is_positive d.event.recipient_count
      then field "notice_frozen_at" (iso_or_na d.event.notice_frozen_at)
        ∷ field "notice_file" notice_filename
        ∷ field "sent_at" (iso_or_na d.event.notified_at)
        ∷ field "recipient_count" (show (get_or d.event.recipient_count 0))
        ∷ field "delivered_count" (show counts.delivered_count)
        ∷ field "bounced_count" (show counts.bounced_count)
        ∷ field "delivery_log_file" (delivery_log_filename variant)
        ∷ []
      else field "notice_frozen_at" not_available_word
        ∷ field "notice_file" not_available_word
        ∷ field "sent_at" not_available_word
        ∷ field "recipient_count" not_available_word
        ∷ field "delivered_count" not_available_word
        ∷ field "bounced_count" not_available_word
        ∷ field "delivery_log_file" not_available_word
        ∷ []

  -- The texts that `compute_objection_status` returns.
  unfoldable pub objection_text : ObjectionStatus → String
  objection_text not_available = not_available_word
  objection_text (objections_recorded n) = show n <> " objection(s) recorded"
  objection_text (window_open closes_at) =
      "Window open (closes " <> iso_utc os (some closes_at) <> ")"
  objection_text (no_objection_as_of now) =
      "No objection recorded via TrustPages as of " <> iso_utc os (some now)

  abbrev pub objection_status_of : Dossier → String
  objection_status_of d =
      objection_text (
        compute_objection_status d.event.recipient_count d.objections d.event.window_closes_at
          d.now)

  unfoldable pub window_fields : Dossier → Option ℕ → List String
  window_fields d none =
      field "window_days" not_available_word
      ∷ field "window_source" not_available_word
      ∷ field "window_opened_at" not_available_word
      ∷ field "window_closes_at" not_available_word
      ∷ []
  window_fields d (some window_days) =
      field "window_days" (show window_days)
      ∷ field "window_source" (window_source window_days d.default_window_days)
      ∷ field "window_opened_at" (iso_or_na d.event.notified_at)
      ∷ field "window_closes_at" (iso_or_na d.event.window_closes_at)
      ∷ []

  -- `_objection_window_section_lines`
  unfoldable pub objection_window_section : Dossier → Result EvidenceError (List String)
  unfolding window_fields
  objection_window_section d = validate_objection_status (objection_status_of d) >>= λ status.
      ok (window_fields d d.event.window_days ++ field "objection_status" status ∷ [])

  -- The lines up to the section [TIMESTAMP].
  unfoldable pub opening_lines : Dossier → List String
  opening_lines d =
      let event = d.event in
      "TrustPages Audit Evidence Pack"
      ∷ field "manifest_version" (show manifest_version)
      ∷ field "generated_at" (iso_utc os (some d.now))
      ∷ field "generator" ("TrustPages " <> generator_version)
      ∷ ""
      ∷ "[NOTICE]"
      ∷ "This pack records observed facts and cryptographic digests. It is not a"
      ∷ "legal opinion and does not assert compliance with any regulation."
      ∷ ""
      ∷ "[SUBJECT]"
      ∷ field "tenant_name" (na (some d.tenant.name))
      ∷ field "trust_page_url" (rstrip_slash d.app_url <> "/trust/" <> d.tenant.slug)
      ∷ field "subprocessor_name" (na (some d.page.name))
      ∷ field "source_url" (na (some d.page.monitored_url))
      ∷ field "change_id" (na (some (show event.id)))
      ∷ ""
      ∷ "[DETECTION]"
      ∷ field "detected_at" (iso_or_na (some event.created_at))
      ∷ field "previous_snapshot_captured_at" not_available_word
      ∷ field "current_snapshot_captured_at" (iso_or_na (some event.created_at))
      ∷ field "classification" (na (map_option classification_word event.llm_classification))
      ∷ field "classifier_model" classifier_model
      ∷ field "classifier_note" "Automated assessment. Not a legal determination."
      ∷ ""
      ∷ "[EVIDENCE]"
      ∷ field "hash_algorithm" "SHA-256"
      ∷ field "before_html_file" "before.html"
      ∷ field "before_sha256" (na event.old_raw_html_hash)
      ∷ field "after_html_file" "after.html"
      ∷ field "after_sha256" (na event.new_raw_html_hash)
      ∷ field "before_text_file" "before.txt"
      ∷ field "before_text_sha256" (sha256_text os event.old_content_text)
      ∷ field "after_text_file" "after.txt"
      ∷ field "after_text_sha256" (sha256_text os event.new_content_text)
      ∷ field "diff_file" "diff.txt"
      ∷ field "diff_sha256" (
          if str_eq event.raw_diff ""
          then not_available_word
          else sha256_text os (some event.raw_diff))
      ∷ ""
      ∷ []

  -- The lines up to the list of files, from the parts that were validated.
  unfoldable pub manifest_lines : Dossier → Variant → List String → List String → List String
  manifest_lines d variant review window =
      opening_lines d
      ++ ("[TIMESTAMP]"
          ∷ (timestamp_section d.event
              ++ (field "verification_instructions" "See README.txt — run ./verify.sh offline."
                  ∷ ""
                  ∷ "[REVIEW]"
                  ∷ (review
                      ++ (""
                          ∷ "[NOTIFICATION]"
                          ∷ (notification_section d variant
                              ++ ("" ∷ "[OBJECTION WINDOW]" ∷ (window ++ "" ∷ []))))))))

  -- `_render_manifest_v2`; `pack_files` has the name and the digest of each other file.
  unfoldable pub render_manifest_v2 :
      Dossier → List (String × String) → Variant → Result EvidenceError String
  render_manifest_v2 d pack_files variant = review_section d.event >>= λ review.
      objection_window_section d >>= λ window. assert_no_forbidden_terms (
        join_with "\n" (
          (manifest_lines d variant review window
            ++ "[PACK CONTENTS]" ∷ map content_line (by_name pack_files))
          ++ "" ∷ []))

-- ===== src/Evidence/Schema.antt =====
-- docs/manifest_v2.md: the fields of a manifest in their order, with their values. Every field is
-- there for every event.
use mathlib.Core.Option.{map as map_option}
use truthpage.Prelude.{
  Bool, List, String, [], get_or, if◌then◌else◌, is_some, show, some, str_eq, ◌++◌, ◌<>◌, ◌∷◌,
}
use truthpage.Platform.{Platform}
use truthpage.ChangeEvent.{ChangeEvent}
use truthpage.Notification.{summarize_recipients}
use truthpage.TsaChains.{chain_filename_for_authority}
use truthpage.Evidence.{
  classification_word, classifier_model, generator_version, iso_utc, manifest_version, na,
  not_available_word, rstrip_slash, sha256_text, timestamp_word,
}
use truthpage.Evidence.Manifest.{
  Dossier, Variant, delivery_log_filename, is_positive, is_timestamped, iso_or_na, notice_filename,
  objection_status_of, review_word, tsa_token_filename, window_source,
}

module _ (os : Platform) (d : Dossier) where
  abbrev pub opening_fields : List (String × String)
  opening_fields =
      let event = d.event in
      ("manifest_version", (show manifest_version))
      ∷ ("generated_at", (iso_utc os (some d.now)))
      ∷ ("generator", ("TrustPages " <> generator_version))
      ∷ ("tenant_name", (na (some d.tenant.name)))
      ∷ ("trust_page_url", (rstrip_slash d.app_url <> "/trust/" <> d.tenant.slug))
      ∷ ("subprocessor_name", (na (some d.page.name)))
      ∷ ("source_url", (na (some d.page.monitored_url)))
      ∷ ("change_id", (na (some (show event.id))))
      ∷ ("detected_at", (iso_or_na os (some event.created_at)))
      ∷ ("previous_snapshot_captured_at", not_available_word)
      ∷ ("current_snapshot_captured_at", (iso_or_na os (some event.created_at)))
      ∷ ("classification", (na (map_option classification_word event.llm_classification)))
      ∷ ("classifier_model", classifier_model)
      ∷ ("classifier_note", "Automated assessment. Not a legal determination.")
      ∷ ("hash_algorithm", "SHA-256")
      ∷ ("before_html_file", "before.html")
      ∷ ("before_sha256", (na event.old_raw_html_hash))
      ∷ ("after_html_file", "after.html")
      ∷ ("after_sha256", (na event.new_raw_html_hash))
      ∷ ("before_text_file", "before.txt")
      ∷ ("before_text_sha256", (sha256_text os event.old_content_text))
      ∷ ("after_text_file", "after.txt")
      ∷ ("after_text_sha256", (sha256_text os event.new_content_text))
      ∷ ("diff_file", "diff.txt")
      ∷ (
        "diff_sha256",
        if str_eq event.raw_diff ""
            then not_available_word
            else sha256_text os (some event.raw_diff),
      )
      ∷ []

  -- A value, or `not_available` where the test fails.
  abbrev pub given : Bool → String → String
  given b value = if b then value else not_available_word

  abbrev pub timestamp_fields : ChangeEvent → List (String × String)
  timestamp_fields event =
      let stamped = is_timestamped event.timestamp_status in
      ("timestamp_status", timestamp_word event.timestamp_status)
      ∷ ("tsa_token_file", given stamped tsa_token_filename)
      ∷ ("tsa_authority_url", given stamped (na event.tsa_authority_url))
      ∷ ("tsa_time_utc", given stamped (iso_or_na os event.tsa_time_utc))
      ∷ (
        "tsa_chain_file",
        given stamped (na (chain_filename_for_authority os event.tsa_authority_url)),
      )
      ∷ []

  abbrev pub review_fields : ChangeEvent → List (String × String)
  review_fields event =
      ("reviewed_by_name", na event.reviewed_by_name)
      ∷ ("reviewed_by_email", na event.reviewed_by_email)
      ∷ ("reviewed_at", iso_or_na os event.reviewed_at)
      ∷ ("review_action", review_word event.review_action)
      ∷ []

  abbrev pub notification_fields : Variant → List (String × String)
  notification_fields variant =
      let told = is_positive d.event.recipient_count in
      let counts = summarize_recipients d.recipients in
      ("notice_frozen_at", given told (iso_or_na os d.event.notice_frozen_at))
      ∷ ("notice_file", given told notice_filename)
      ∷ ("sent_at", given told (iso_or_na os d.event.notified_at))
      ∷ ("recipient_count", given told (show (get_or d.event.recipient_count 0)))
      ∷ ("delivered_count", given told (show counts.delivered_count))
      ∷ ("bounced_count", given told (show counts.bounced_count))
      ∷ ("delivery_log_file", given told (delivery_log_filename variant))
      ∷ []

  abbrev pub window_fields_of : List (String × String)
  window_fields_of =
      let open_days = d.event.window_days in
      let opened = is_some open_days in
      ("window_days", given opened (show (get_or open_days 0)))
      ∷ ("window_source", given opened (window_source (get_or open_days 0) d.default_window_days))
      ∷ ("window_opened_at", given opened (iso_or_na os d.event.notified_at))
      ∷ ("window_closes_at", given opened (iso_or_na os d.event.window_closes_at))
      ∷ ("objection_status", objection_status_of os d)
      ∷ []

  unfoldable pub schema_fields : Variant → List (String × String)
  schema_fields variant =
      opening_fields
      ++ (timestamp_fields d.event
          ++ (("verification_instructions", "See README.txt — run ./verify.sh offline.")
              ∷ (review_fields d.event
                  ++ (notification_fields variant ++ (window_fields_of ++ [])))))

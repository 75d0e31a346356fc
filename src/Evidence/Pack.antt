-- ===== src/Evidence/Pack.antt =====
-- app/services/evidence.py: the files of a pack, with the delivery log, and the archive of them.
use truthpage.Prelude.{
  Bool, List, Option, Result, String, Time, [], err, false, get_or, if◌then◌else◌, is_blank,
  is_some, join_with, leb, map, none, ok, partition, some, sort_by, suc, take_chars, true, zero, ℕ,
  ◌++◌, ◌<>◌, ◌>>=◌, ◌∷◌,
}
use truthpage.Platform.{Platform}
use truthpage.ChangeEvent.{ChangeEvent}
use truthpage.Notification.{
  DeliveryStatus, NotificationDeliveryEvent, NotificationRecipient, derive_recipient_status,
  has_bounced, has_failed, is_deferred, is_truthy, queued, resolved, send_failed, was_delivered,
}
use truthpage.TsaChains.{chain_filename_for_authority}
use truthpage.Evidence.{EvidenceError, iso_utc, no_chain_file, or_text}
use truthpage.Evidence.Manifest.{
  Dossier, Variant, delivery_log_filename, full, is_positive, is_timestamped, notice_filename,
  redacted, render_manifest_v2, tsa_token_filename,
}
use truthpage.Evidence.Script.{verify_sh}

-- `s.ljust(width)`
abbrev ljust : ℕ → String → String
ljust zero s = s
ljust (suc width) String.[] = " " <> ljust width String.[]
ljust (suc width) (String.◌∷◌ c s) = String.◌∷◌ c (ljust width s)

-- The name in an f-string: None is printed as "None".
abbrev printed : Option String → String
printed none = "None"
printed (some s) = s

stamped_files : Bool → Option String → List String
stamped_files false chain_filename = []
stamped_files true chain_filename =
    "  after.html.sha256.tsr  — RFC 3161 timestamp token for after.html's digest"
    ∷ (ljust 27 ("  " <> printed chain_filename)
        <> "— the timestamp authority's CA chain, for offline checking")
    ∷ []

abbrev variant_note : Variant → String
variant_note redacted = "email addresses masked"
variant_note full = "FULL email addresses — handle accordingly"

notice_files : Bool → Variant → List String
notice_files false variant = []
notice_files true variant =
    "  notice.txt              — the customer notice as actually sent"
    ∷ ("  delivery_log*.csv       — per-recipient delivery status (" <> variant_note variant <> ")")
    ∷ []

stamp_note : Bool → List String
stamp_note true =
    "This pack's content hash is attested by an independent third-party"
    ∷ "timestamp authority (RFC 3161) — not just TrustPages' own record."
    ∷ "The TSA only ever received a SHA-256 digest, never the page content." ∷ []
stamp_note false =
    "This pack has NO independent timestamp — it predates RFC 3161"
    ∷ "timestamping, or one could not be obtained. The content hash above"
    ∷ "is still valid; only the *when* isn't independently attested." ∷ []

unfoldable pub readme_v2 : Bool → Option String → Bool → Variant → String
unfolding stamped_files notice_files stamp_note
readme_v2 stamped chain_filename has_notification variant =
    join_with "\n" (
      ("TrustPages Audit Evidence Pack — README" ∷ ""
        ∷ "manifest.txt describes every file in this ZIP and its SHA-256 digest."
        ∷ "manifest.sha256 is the digest of manifest.txt itself." ∷ "" ∷ "Files:"
        ∷ "  before.html / after.html — raw HTML fetched from the vendor's page"
        ∷ "  before.txt  / after.txt  — normalized text extracted from that HTML"
        ∷ "  diff.txt                — unified diff between before.txt and after.txt"
        ∷ "  verify.sh               — offline check: run it, needs only openssl" ∷ [])
      ++ stamped_files stamped chain_filename
      ++ notice_files has_notification variant
      ++ ("" ∷ "To verify by hand: compute a file's SHA-256 and compare it to the"
          ∷ "value manifest.txt lists for it. Easier: run ./verify.sh (openssl"
          ∷ "required; on Windows use WSL or Git Bash)." ∷ "" ∷ [])
      ++ stamp_note stamped
      ++ ("" ∷ "This pack states observed facts and digests. It is not a legal opinion." ∷ []))
    <> "\n"

-- The local part is cut to its first character; an address with no domain is hidden.
unfoldable pub redact_email : String → String
redact_email email =
    let parts = partition 64 email in
    let domain = parts.1.1 in
    if is_blank domain then "***" else take_chars 1 parts.0 <> "***@" <> domain

abbrev pub delivery_log_columns : List String
delivery_log_columns =
    "recipient" ∷ "status" ∷ "last_event_at_utc" ∷ "resend_message_id" ∷ "manually_resolved"
    ∷ "resolution_note" ∷ []

abbrev pub delivery_word : DeliveryStatus → String
delivery_word send_failed = "send_failed"
delivery_word resolved = "resolved"
delivery_word has_bounced = "bounced"
delivery_word has_failed = "failed"
delivery_word was_delivered = "delivered"
delivery_word is_deferred = "deferred"
delivery_word queued = "queued"

last_time : List NotificationDeliveryEvent → Option Time
last_time [] = none
last_time (e ∷ []) = some e.occurred_at
last_time (e ∷ f ∷ events) = last_time (f ∷ events)

-- `sorted(events, key=lambda e: e.occurred_at)[-1].occurred_at`, or None
unfoldable pub last_event_at : List NotificationDeliveryEvent → Option Time
unfolding last_time
last_event_at events = last_time (sort_by (λ e f. leb e.occurred_at f.occurred_at) events)

abbrev shown_email : Variant → String → String
shown_email full email = email
shown_email redacted email = redact_email email

module _ (os : Platform) where
  unfoldable pub delivery_log_row :
      Variant → NotificationRecipient × List NotificationDeliveryEvent → List String
  delivery_log_row variant (r, events) =
      shown_email variant r.recipient_email
      ∷ delivery_word (derive_recipient_status r events)
      ∷ iso_utc os (last_event_at events)
      ∷ or_text r.resend_message_id ""
      ∷ (if is_some r.manually_resolved_at then "yes" else "no")
      ∷ or_text r.manually_resolved_note ""
      ∷ []

  unfoldable pub delivery_log_csv :
      List (NotificationRecipient × List NotificationDeliveryEvent) → Variant → String
  unfolding delivery_log_row
  delivery_log_csv recipients variant = join_with "" (
      os.csv_row delivery_log_columns
      ∷ map (λ r. os.csv_row (delivery_log_row variant r)) recipients)

  -- The chain of a timestamped event: None if it is not timestamped, an error if there is none.
  unfoldable pub chain_of : ChangeEvent → Result EvidenceError (Option String)
  chain_of event =
      if is_timestamped event.timestamp_status
      then elim (chain_filename_for_authority os event.tsa_authority_url) [
        | none ↦ err no_chain_file
        | some filename ↦ ok (some filename)
      ]
      else ok none

  -- The token and its chain.
  unfoldable pub token_files : Option String → ChangeEvent → List (String × String)
  token_files none event = []
  token_files (some chain_filename) event =
      if is_truthy event.tsa_token
      then (tsa_token_filename, get_or event.tsa_token "")
        ∷ (chain_filename, get_or (os.read_chain chain_filename) "")
        ∷ []
      else []

  unfoldable pub notice_file : ChangeEvent → List (String × String)
  notice_file event =
      if is_truthy event.notice_frozen_body
      then (
        notice_filename,
        os.encode (
            "Subject: "
            <> printed event.notice_frozen_subject
            <> "\n\n"
            <> printed event.notice_frozen_body
            <> "\n"),
      )
        ∷ []
      else []

  unfoldable pub log_file : Dossier → Variant → List (String × String)
  log_file d variant =
      if is_positive d.event.recipient_count
      then (delivery_log_filename variant, os.encode (delivery_log_csv d.recipients variant)) ∷ []
      else []

  abbrev pub captured : Option String → String
  captured text = os.encode (or_text text "Not captured for this change.")

  -- The files that not every pack has.
  abbrev pub extra_files : Dossier → Option String → Variant → List (String × String)
  extra_files d chain_filename variant =
      token_files chain_filename d.event ++ (notice_file d.event ++ log_file d variant)

  -- The files behind the two pages.
  abbrev pub other_files : Dossier → Option String → Variant → List (String × String)
  other_files d chain_filename variant =
      let event = d.event in
      ("before.txt", captured event.old_content_text)
      ∷ ("after.txt", captured event.new_content_text)
      ∷ ("diff.txt", os.encode event.raw_diff)
      ∷ ("verify.sh", os.encode verify_sh)
      ∷ (
        "README.txt",
        os.encode (
            readme_v2 (is_timestamped event.timestamp_status) chain_filename
              (is_truthy event.notice_frozen_body) variant),
      )
      ∷ extra_files d chain_filename variant

  -- `pack_files`, in the order of insertion; a text stands as the bytes that are written of it.
  unfoldable pub pack_files : Dossier → Option String → Variant → List (String × String)
  unfolding token_files notice_file log_file
  pack_files d chain_filename variant =
      ("before.html", captured d.event.old_raw_html)
      ∷ ("after.html", captured d.event.new_raw_html)
      ∷ other_files d chain_filename variant

  -- `pack_hashes`
  abbrev pub pack_hashes : List (String × String) → List (String × String)
  pack_hashes files = map (λ file. (file.0, os.sha256 file.1)) files

  -- The members of the archive: the manifest, its digest and the files.
  unfoldable pub members_of : String → List (String × String) → List (String × String)
  members_of manifest files =
      ("manifest.txt", os.encode manifest)
      ∷ ("manifest.sha256", os.encode (os.sha256 (os.encode manifest) <> "\n"))
      ∷ files

  unfoldable pub evidence_zip : Dossier → Variant → Result EvidenceError String
  evidence_zip d variant = chain_of d.event >>= λ chain_filename.
      let files = pack_files d chain_filename variant in
      render_manifest_v2 os d (pack_hashes files) variant >>= λ manifest.
      ok (os.zip_bytes (members_of manifest files))

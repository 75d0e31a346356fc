-- ===== src/Evidence/Redacted.antt =====
-- What the redacted delivery log gives away.
use Prim.Native.Char.{Char, code}
use truthpage.Prelude.{
  All-of_All, List, String, [], any_char, ap, false, if◌then◌else◌, is_blank, is_some, join_with,
  map, map-map, map_on, partition-append, refl, sym, take_chars, ◌<>◌, ◌==◌, ◌∙◌, ◌∷◌, ◌≡◌,
}
use truthpage.Platform.{Platform}
use truthpage.Notification.{
  NotificationDeliveryEvent, NotificationRecipient, derive_recipient_status,
}
use truthpage.Evidence.{iso_utc, or_text}
use truthpage.Evidence.Manifest.{redacted}
use truthpage.Evidence.Pack.{
  delivery_log_columns, delivery_log_csv, delivery_log_row, delivery_word, last_event_at,
  redact_email,
}

-- A recipient with its log, whose address is given in parts: `first` and one of two texts that may
-- follow it, and the domain behind the "@".
pub record NamedReader : Type 0 where
  pub recipient : NotificationRecipient
  pub events : List NotificationDeliveryEvent
  pub first : Char
  pub domain : String
  pub rest : String
  pub other : String
  pub first_named : (code first == 64) ≡ false
  pub rest_named : any_char (λ d. d == 64) rest ≡ false
  pub other_named : any_char (λ d. d == 64) other ≡ false

abbrev pub addressed :
    (NamedReader → String) → NamedReader → NotificationRecipient × List NotificationDeliveryEvent
addressed rest_of x = (
  record x.recipient { recipient_email = String.◌∷◌ x.first (rest_of x) <> "@" <> x.domain },
  x.events,
)

redact_email-parts :
    (c : Char) (local domain : String)
    → (code c == 64) ≡ false
    → any_char (λ d. d == 64) local ≡ false
    → redact_email (String.◌∷◌ c local <> "@" <> domain)
      ≡ (if is_blank domain then "***" else String.◌∷◌ c String.[] <> "***@" <> domain)
unfolding redact_email take_chars
redact_email-parts c local domain named none_in =
    rw (named, partition-append 64 local domain _ refl none_in) refl

module _ (os : Platform) where
  row-hides :
      (x : NamedReader)
      → delivery_log_row os redacted (addressed (λ y. y.rest) x)
        ≡ delivery_log_row os redacted (addressed (λ y. y.other) x)
  unfolding delivery_log_row derive_recipient_status
  row-hides x =
      let r = x.recipient in
      ap
        (λ email.
          email
          ∷ delivery_word (derive_recipient_status r x.events)
          ∷ iso_utc os (last_event_at x.events)
          ∷ or_text r.resend_message_id ""
          ∷ (if is_some r.manually_resolved_at then "yes" else "no")
          ∷ or_text r.manually_resolved_note ""
          ∷ [])
        (redact_email-parts x.first x.rest x.domain x.first_named x.rest_named
          ∙ sym (redact_email-parts x.first x.other x.domain x.first_named x.other_named))

  -- The redacted log gives nothing away of an address but its first character and its domain: it is
  -- the same file when what stands between them is exchanged, in any of the recipients, for another
  -- text without an "@".
  pub delivery_log_csv-masked :
      (xs : List NamedReader)
      → delivery_log_csv os (map (addressed (λ y. y.rest)) xs) redacted
        ≡ delivery_log_csv os (map (addressed (λ y. y.other)) xs) redacted
  unfolding delivery_log_csv
  delivery_log_csv-masked xs =
      ap (λ rows. join_with "" (os.csv_row delivery_log_columns ∷ rows))
        (map-map (λ r. os.csv_row (delivery_log_row os redacted r)) (addressed (λ y. y.rest)) xs
          ∙ map_on _ _ xs (All-of_All _ xs (λ x. ap os.csv_row (row-hides x)))
          ∙ sym (
              map-map (λ r. os.csv_row (delivery_log_row os redacted r)) (addressed (λ y. y.other))
                xs))

-- ===== src/Verify/Tests.antt =====
-- Tests of the evidence packs and of their check.
use truthpage.Prelude.{
  All, Bool, List, String, [], any_char, ap, arith, get_or, is_break, is_space, length, none, not,
  ok, or_unchanged, refl, show, some, sort_by, str_eq, str_eq_iff, strip, subst, suc, true, zero, ℕ,
  ◌&&◌, ◌↔◌, ◌∷◌, ◌≡◌, ◌≤◌,
}
use truthpage.Subprocessor.{timestamped}
use truthpage.ChangeEvent.{ChangeEvent}
use truthpage.Samples.{acme, change, stripe}
use truthpage.Evidence.{
  assert_no_forbidden_terms, iso_utc, sha256_text, validate_objection_status,
  validate_review_action,
}
use truthpage.Evidence.Manifest.{
  Dossier, by_name, content_line, field, full, manifest_lines, notification_section, objection_text,
  objection_window_section, opening_lines, redacted, render_manifest_v2, review_section,
  timestamp_section, window_fields,
}
use truthpage.Evidence.Parse.{parse_manifest_v2}
use truthpage.Evidence.RoundTrip.{AllValues, AllWords}
use truthpage.TsaChains.{chain_filename_for_authority}
use truthpage.Notification.{compute_objection_status, summarize_recipients}
use truthpage.Evidence.Script.{verify_sh}
use truthpage.Evidence.Reading.{IsValue, is_word}
use truthpage.Evidence.Pack.{
  chain_of, delivery_log_csv, evidence_zip, members_of, pack_files, pack_hashes, readme_v2,
}
use truthpage.Verify.{
  VerifyResult, max_zip_uncompressed_bytes, no_timestamp, pass, too_many_files, verify_pack,
  zip_bomb_guard,
}
use truthpage.Verify.Guard.{AllSmall, total_size, zip_bomb_guard_lem}
use truthpage.Verify.Safe.{IsGenuine, verify_pack-IsGenuine}
use truthpage.Platform.{Member}
use truthpage.Verify.Built.{
  IsCaptured, IsReadable, IsStampedBy, verify_pack-evidence_zip, verify_pack-evidence_zip_plain,
}
use truthpage.Evidence.Written.{parse-render_manifest_v2}
use truthpage.Evidence.Schema.{schema_fields}
use truthpage.Evidence.Toy.{toy, toy-IsReliable, zip_bytes, zip_members}

abbrev stamped_change : ChangeEvent
stamped_change = record change {
  new_raw_html_hash = some "d15";
  timestamp_status = timestamped;
  tsa_token = some "over d15";
  tsa_authority_url = some "https://tsa.test/tsr";
  tsa_time_utc = some 5;
}

abbrev dossier : Dossier
dossier = record {
  event = stamped_change;
  page = stripe;
  tenant = acme;
  recipients = [];
  objections = 0;
  app_url = "https://app.test/";
  default_window_days = 30;
  now = 9;
}

abbrev is_value : String → Bool
is_value v = not (any_char is_break v) && str_eq (strip v) v

is_value-IsValue : (v : String) → is_value v ≡ true → IsValue v
is_value-IsValue v good = (ground arith, ground (arith, str_eq_iff (strip v) v))

every : {A : Type 0} → (A → Bool) → List A → Bool
every p [] = true
every p (x ∷ xs) = p x && every p xs

every-All :
    {A : Type 0} (P : A → Type 0) (p : A → Bool) (xs : List A)
    → ((x : A) → p x ≡ true → P x)
    → every p xs ≡ true
    → All P xs
unfolding every
every-All P p [] holds good = tt
every-All P p (x ∷ xs) holds good = (holds x (ground arith), every-All P p xs holds (ground arith))

abbrev files : List (String × String)
files = pack_files toy dossier (some "tsa.test.pem") redacted

abbrev manifest : String
manifest = or_unchanged "" (render_manifest_v2 toy dossier (pack_hashes toy files) redacted)

dossier-AllValues : AllValues (schema_fields toy dossier redacted)
unfolding schema_fields strip is_space is_break iso_utc sha256_text show
    chain_filename_for_authority summarize_recipients compute_objection_status objection_text every
dossier-AllValues =
    every-All {A = String × String} _ (λ e. is_value e.1) (schema_fields toy dossier redacted)
      (λ e. is_value-IsValue e.1) refl

files-AllWords : AllWords (pack_hashes toy files)
unfolding is_space pack_files show every verify_sh readme_v2 delivery_log_csv
files-AllWords =
    every-All {A = String × String} (λ e. (is_word e.0 ≡ true) × (is_word e.1 ≡ true))
      (λ e. is_word e.0 && is_word e.1) (pack_hashes toy files)
      (λ e good. (ground arith, ground arith)) refl

rendered : render_manifest_v2 toy dossier (pack_hashes toy files) redacted ≡ ok manifest
unfolding render_manifest_v2 review_section validate_review_action objection_window_section
    validate_objection_status objection_text compute_objection_status assert_no_forbidden_terms
    manifest_lines opening_lines timestamp_section notification_section summarize_recipients field
    show iso_utc sha256_text chain_filename_for_authority by_name content_line pack_files verify_sh
    readme_v2 delivery_log_csv window_fields sort_by
rendered = refl

parse-render_manifest_v2_example : parse_manifest_v2 manifest ≡ record {
  fields = schema_fields toy dossier redacted;
  pack_contents = by_name (pack_hashes toy files);
}
parse-render_manifest_v2_example =
    parse-render_manifest_v2 toy dossier (pack_hashes toy files) redacted manifest dossier-AllValues
      files-AllWords rendered

abbrev bytes : String
bytes = or_unchanged "" (evidence_zip toy dossier redacted)

built : evidence_zip toy dossier redacted ≡ ok bytes
unfolding evidence_zip chain_of render_manifest_v2 review_section validate_review_action
    objection_window_section validate_objection_status objection_text compute_objection_status
    assert_no_forbidden_terms manifest_lines opening_lines timestamp_section notification_section
    summarize_recipients field show iso_utc sha256_text chain_filename_for_authority by_name
    content_line pack_files verify_sh readme_v2 delivery_log_csv window_fields sort_by
built = refl

bytes-IsReadable : IsReadable toy dossier redacted (some "tsa.test.pem") bytes
unfolding evidence_zip chain_of members_of zip_bytes zip_members zip_bomb_guard render_manifest_v2
    review_section validate_review_action objection_window_section validate_objection_status
    objection_text compute_objection_status assert_no_forbidden_terms manifest_lines opening_lines
    timestamp_section notification_section summarize_recipients field show iso_utc sha256_text
    chain_filename_for_authority by_name content_line pack_files verify_sh readme_v2
    delivery_log_csv window_fields sort_by
bytes-IsReadable = record {
  fits = refl;
  safe = λ zf opened. subst (λ ms. zip_bomb_guard (get_or ms []) ≡ none) opened refl;
  values = dossier-AllValues;
  words = files-AllWords;
}

dossier-IsCaptured : IsCaptured toy stamped_change "<p>new text</p>"
unfolding show
dossier-IsCaptured = record { page = refl; filled = refl; digest = refl }

dossier-IsStampedBy :
    IsStampedBy toy stamped_change "https://tsa.test/tsr" "tsa.test.pem" "over d15"
unfolding chain_filename_for_authority
dossier-IsStampedBy = record {
  status = refl;
  authority = refl;
  named = refl;
  held = refl;
  filled = refl;
}

abbrev verdict : VerifyResult
verdict = record {
  passed = true;
  message = pass;
  manifest_version = some 2;
  content_hash = some "d15";
  timestamp_status = some "timestamped";
  tsa_authority_url = some "https://tsa.test/tsr";
  tsa_time_utc = some "t5";
  tsa_cert_window = some "window";
}

verify_pack-evidence_zip_example : verify_pack toy bytes ≡ verdict
unfolding show iso_utc
verify_pack-evidence_zip_example =
    verify_pack-evidence_zip toy dossier redacted toy-IsReliable "<p>new text</p>"
      dossier-IsCaptured "https://tsa.test/tsr" "tsa.test.pem" "over d15" dossier-IsStampedBy bytes
      refl built bytes-IsReadable

verdict-passed : (verify_pack toy bytes).passed ≡ true
unfolding show iso_utc
verdict-passed =
    ap (λ r. r.passed)
      (verify_pack-evidence_zip toy dossier redacted toy-IsReliable "<p>new text</p>"
        dossier-IsCaptured "https://tsa.test/tsr" "tsa.test.pem" "over d15" dossier-IsStampedBy
        bytes refl built bytes-IsReadable)

verify_pack-IsGenuine_example : IsGenuine toy bytes (verify_pack toy bytes)
verify_pack-IsGenuine_example = verify_pack-IsGenuine toy bytes verdict-passed

-- 101 small files are refused, and one of 21 MB.
abbrev crowd : ℕ → List Member
crowd zero = []
crowd (suc n) = record { filename = "a"; file_size = 1; content = "a" } ∷ crowd n

crowd-refused : zip_bomb_guard (crowd 101) ≡ some too_many_files
unfolding zip_bomb_guard
crowd-refused = refl

zip_bomb_guard_example : (zip_bomb_guard (crowd 100) ≡ none) ↔ (
    (length (crowd 100) ≤ 100)
    × (AllSmall (crowd 100) × (total_size (crowd 100) ≤ max_zip_uncompressed_bytes)))
zip_bomb_guard_example = zip_bomb_guard_lem (crowd 100)

-- The same page before its timestamp.
abbrev plain_dossier : Dossier
plain_dossier = record dossier { event = record change { new_raw_html_hash = some "d15" } }

abbrev plain_bytes : String
plain_bytes = or_unchanged "" (evidence_zip toy plain_dossier full)

plain_built : evidence_zip toy plain_dossier full ≡ ok plain_bytes
unfolding evidence_zip chain_of render_manifest_v2 review_section validate_review_action
    objection_window_section validate_objection_status objection_text compute_objection_status
    assert_no_forbidden_terms manifest_lines opening_lines timestamp_section notification_section
    summarize_recipients field show iso_utc sha256_text chain_filename_for_authority by_name
    content_line pack_files verify_sh readme_v2 delivery_log_csv window_fields sort_by
plain_built = refl

plain-AllValues : AllValues (schema_fields toy plain_dossier full)
unfolding schema_fields strip is_space is_break iso_utc sha256_text show
    chain_filename_for_authority summarize_recipients compute_objection_status objection_text every
plain-AllValues =
    every-All {A = String × String} _ (λ e. is_value e.1) (schema_fields toy plain_dossier full)
      (λ e. is_value-IsValue e.1) refl

plain-AllWords : AllWords (pack_hashes toy (pack_files toy plain_dossier none full))
unfolding is_space pack_files show every verify_sh readme_v2 delivery_log_csv
plain-AllWords =
    every-All {A = String × String} (λ e. (is_word e.0 ≡ true) × (is_word e.1 ≡ true))
      (λ e. is_word e.0 && is_word e.1) (pack_hashes toy (pack_files toy plain_dossier none full))
      (λ e good. (ground arith, ground arith)) refl

plain-IsReadable : IsReadable toy plain_dossier full none plain_bytes
unfolding evidence_zip chain_of members_of zip_bytes zip_members zip_bomb_guard render_manifest_v2
    review_section validate_review_action objection_window_section validate_objection_status
    objection_text compute_objection_status assert_no_forbidden_terms manifest_lines opening_lines
    timestamp_section notification_section summarize_recipients field show iso_utc sha256_text
    chain_filename_for_authority by_name content_line pack_files verify_sh readme_v2
    delivery_log_csv window_fields sort_by
plain-IsReadable = record {
  fits = refl;
  safe = λ zf opened. subst (λ ms. zip_bomb_guard (get_or ms []) ≡ none) opened refl;
  values = plain-AllValues;
  words = plain-AllWords;
}

plain-IsCaptured : IsCaptured toy plain_dossier.event "<p>new text</p>"
unfolding show
plain-IsCaptured = record { page = refl; filled = refl; digest = refl }

verify_pack-evidence_zip_plain_example : verify_pack toy plain_bytes ≡ record {
  passed = true;
  message = no_timestamp;
  manifest_version = some 2;
  content_hash = some "d15";
  timestamp_status = some "pending";
  tsa_authority_url = none;
  tsa_time_utc = none;
  tsa_cert_window = none;
}
unfolding show
verify_pack-evidence_zip_plain_example =
    verify_pack-evidence_zip_plain toy plain_dossier full toy-IsReliable "<p>new text</p>"
      plain-IsCaptured plain_bytes refl plain_built plain-IsReadable

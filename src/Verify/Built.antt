-- ===== src/Verify/Built.antt =====
-- The verdict on a pack that the program built itself.
use truthpage.Prelude.{
  All-append, List, Option, String, [], ap, arith, false, get_or, ltb, map, none, not, ok, refl,
  some, str_eq, sym, true, ◌++◌, ◌<>◌, ◌∙◌, ◌∷◌, ◌≡◌,
}
use truthpage.Notice.{size}
use truthpage.Platform.{Member, Platform}
use truthpage.TsaChains.{chain_filename_for_authority, chain_path_for_authority}
use truthpage.Subprocessor.{
  TimestampStatus, failed, not_available_pre_tsa, pending, retrying, timestamped,
}
use truthpage.ChangeEvent.{ChangeEvent}
use truthpage.Evidence.{na, timestamp_word}
use truthpage.Evidence.Manifest.{
  Dossier, Variant, by_name, is_timestamped, iso_or_na, tsa_token_filename,
}
use truthpage.Evidence.Parse.{Parsed, get}
use truthpage.Evidence.RoundTrip.{AllValues, AllWords}
use truthpage.Evidence.Pack.{
  captured, chain_of, evidence_zip, extra_files, log_file, members_of, notice_file, pack_files,
  pack_hashes, token_files,
}
use truthpage.Evidence.Schema.{schema_fields}
use truthpage.Verify.{
  max_upload_bytes, names_no_hash, no_timestamp, pass, read_member, verify_fields, verify_named,
  verify_pack, zip_bomb_guard,
}
use truthpage.Notification.{failed, is_truthy}
use truthpage.Verify.Chains.{chain_filename-pem}
use truthpage.Verify.Named.{
  IsReliable, read_member-cons, read_member-stored, stored, verify_named-no_timestamp,
  verify_named-pass,
}
use truthpage.Verify.Packs.{
  chain-ne, log_file-IsAbsent, log_name, notice_file-IsAbsent, read-after, verify_pack-named, zf_of,
}

-- The page of the event was captured, and its digest stored with it.
pub record IsCaptured (os : Platform) (event : ChangeEvent) (html : String) : Type 0 where
  pub page : event.new_raw_html ≡ some html
  pub filled : str_eq html "" ≡ false
  pub digest : event.new_raw_html_hash ≡ some (os.sha256 (os.encode html))

-- The event holds a token of an authority whose chain the program holds.
pub record IsStampedBy (os : Platform) (event : ChangeEvent) (url chain token : String)
    : Type 0 where
  pub status : event.timestamp_status ≡ timestamped
  pub authority : event.tsa_authority_url ≡ some url
  pub named : chain_filename_for_authority os (some url) ≡ some chain
  pub held : event.tsa_token ≡ some token
  pub filled : str_eq token "" ≡ false

unstamped_word :
    (status : TimestampStatus)
    → is_timestamped status ≡ false
    → str_eq (timestamp_word status) "timestamped" ≡ false
unstamped_word timestamped plain = absurd (ground arith)
unstamped_word pending plain = refl
unstamped_word retrying plain = refl
unstamped_word failed plain = refl
unstamped_word not_available_pre_tsa plain = refl

no_chain :
    (filename : String)
    → ◌≡◌ {A = Option String} none (some filename)
    → (stem : String) × (filename ≡ stem <> ".pem")
no_chain filename same = absurd (ground arith)

module _ (os : Platform) (d : Dossier) (variant : Variant) where
  -- What an upload of the bytes must keep to: the limits of `verify_pack`, and a manifest whose values
  -- and names can be read back.
  pub record IsReadable (chain : Option String) (bytes : String) : Type 0 where
    pub fits : ltb max_upload_bytes (size bytes) ≡ false
    pub safe : (zf : List Member) → os.zip_members bytes ≡ some zf → zip_bomb_guard zf ≡ none
    pub values : AllValues (schema_fields os d variant)
    pub words : AllWords (pack_hashes os (pack_files os d chain variant))

  module _ (reliable : IsReliable os) (html : String) (page : IsCaptured os d.event html) where
    abbrev parsed_of : Option String → Parsed
    parsed_of chain = record {
      fields = schema_fields os d variant;
      pack_contents = by_name (pack_hashes os (pack_files os d chain variant));
    }

    after_file-named : get_or (get "after_html_file" (schema_fields os d variant)) "" ≡ "after.html"
    unfolding get schema_fields
    after_file-named = refl

    after_sha256-named :
        get_or (get "after_sha256" (schema_fields os d variant)) "" ≡ os.sha256 (os.encode html)
    unfolding get schema_fields
    after_sha256-named = ap na page.digest ∙ rw (reliable.digest-filled (os.encode html)) refl

    captured-page : captured os d.event.new_raw_html ≡ os.encode html
    captured-page = ap (captured os) page.page ∙ ap os.encode (rw page.filled refl)

    names_a_hash : names_no_hash "after.html" (os.sha256 (os.encode html)) ≡ false
    names_a_hash =
        rw (reliable.digest-filled (os.encode html), reliable.digest-available (os.encode html))
          refl

    status-named :
        (status : TimestampStatus)
        → d.event.timestamp_status ≡ status
        → get "timestamp_status" (schema_fields os d variant) ≡ some (timestamp_word status)
    unfolding get schema_fields
    status-named status e = ap (λ s. some (timestamp_word s)) e

    verify_fields-named :
        (zf : List Member) (parsed : Parsed)
        → parsed.fields ≡ schema_fields os d variant
        → verify_fields os zf parsed
          ≡ verify_named os zf parsed "after.html" (os.sha256 (os.encode html))
    unfolding verify_fields
    verify_fields-named zf parsed same =
        ap (λ file. verify_named os zf parsed file (get_or (get "after_sha256" parsed.fields) ""))
          (ap (λ fields. get_or (get "after_html_file" fields) "") same ∙ after_file-named)
        ∙ ap (verify_named os zf parsed "after.html")
            (ap (λ fields. get_or (get "after_sha256" fields) "") same ∙ after_sha256-named)

    chain_of-unstamped :
        is_timestamped d.event.timestamp_status ≡ false → chain_of os d.event ≡ ok none
    unfolding chain_of
    chain_of-unstamped plain = rw plain refl

    -- A pack of a captured page without a timestamp passes as such, and the result names the digest of
    -- the page and the status of the event. The conditions: the platform is reliable; the upload is the
    -- bytes that `evidence_zip` returns, within the limits of `verify_pack`; every value of the
    -- manifest, the reviewer's name too, fits on one line without a blank at its ends; and every name
    -- and digest in it is one word that starts neither with "[" nor with "T".
    pub verify_pack-evidence_zip_plain :
        (bytes : String)
        → is_timestamped d.event.timestamp_status ≡ false
        → evidence_zip os d variant ≡ ok bytes
        → IsReadable none bytes
        → verify_pack os bytes ≡ record {
          passed = true;
          message = no_timestamp;
          manifest_version = some 2;
          content_hash = some (os.sha256 (os.encode html));
          timestamp_status = some (timestamp_word d.event.timestamp_status);
          tsa_authority_url = none;
          tsa_time_utc = none;
          tsa_cert_window = none;
        }
    verify_pack-evidence_zip_plain bytes plain built readable =
        let (manifest, checked) =
          verify_pack-named os d variant reliable none no_chain bytes (chain_of-unstamped plain)
            built readable.fits readable.safe readable.values readable.words in
        let zf = zf_of os d variant reliable none no_chain manifest in
        checked
        ∙ verify_fields-named zf (parsed_of none) refl
        ∙ verify_named-no_timestamp os zf (parsed_of none) "after.html" (os.encode html) _
            names_a_hash
            (read-after os d variant reliable none no_chain manifest ∙ ap some captured-page)
            (status-named d.event.timestamp_status refl)
            (unstamped_word d.event.timestamp_status plain)

    module _ (url chain token : String) (stamp : IsStampedBy os d.event url chain token) where
      pem :
          (filename : String)
          → ◌≡◌ {A = Option String} (some chain) (some filename)
          → (stem : String) × (filename ≡ stem <> ".pem")
      pem filename same =
          let (filled, (stem, e)) = chain_filename-pem os url chain stamp.named in
          (stem, sym (ap (λ c. get_or c "") same) ∙ e)

      is_stamped : is_timestamped d.event.timestamp_status ≡ true
      is_stamped = ap is_timestamped stamp.status

      url-filled : str_eq url "" ≡ false
      url-filled = (chain_filename-pem os url chain stamp.named).0

      chain_path-named : chain_path_for_authority os (some url) ≡ some chain
      unfolding chain_path_for_authority
      chain_path-named = stamp.named

      chain_of-stamped : chain_of os d.event ≡ ok (some chain)
      unfolding chain_of
      chain_of-stamped =
          rw (is_stamped, ap (chain_filename_for_authority os) stamp.authority ∙ stamp.named) refl

      authority-named : get "tsa_authority_url" (schema_fields os d variant) ≡ some url
      unfolding get schema_fields
      authority-named = rw is_stamped (ap some (ap na stamp.authority ∙ rw url-filled refl))

      token_file-named : get "tsa_token_file" (schema_fields os d variant) ≡ some tsa_token_filename
      unfolding get schema_fields
      token_file-named = rw is_stamped refl

      time-named :
          get "tsa_time_utc" (schema_fields os d variant) ≡ some (iso_or_na os d.event.tsa_time_utc)
      unfolding get schema_fields
      time-named = rw is_stamped refl

      token-filled : is_truthy d.event.tsa_token ≡ true
      token-filled = ap is_truthy stamp.held ∙ ap not stamp.filled

      token_files-held :
          token_files os (some chain) d.event
          ≡ (tsa_token_filename, token) ∷ (chain, get_or (os.read_chain chain) "") ∷ []
      unfolding token_files
      token_files-held = rw token-filled (
          ap
            (λ held.
              (tsa_token_filename, get_or held "") ∷ (chain, get_or (os.read_chain chain) "") ∷ [])
            stamp.held)

      read-extra :
          read_member tsa_token_filename (map stored (extra_files os d (some chain) variant))
          ≡ some token
      read-extra = rw token_files-held (
          read_member-stored tsa_token_filename token []
            ((chain, get_or (os.read_chain chain) "")
              ∷ (notice_file os d.event ++ log_file os d variant))
            refl
            (
              chain-ne os d variant reliable (some chain) pem tsa_token_filename refl chain refl,
              All-append _ (notice_file os d.event) _
                  (notice_file-IsAbsent os d variant tsa_token_filename refl)
                  (log_file-IsAbsent os d variant tsa_token_filename
                    (log_name os d variant tsa_token_filename refl refl)),
            ))

      read-token :
          (manifest : String)
          → read_member tsa_token_filename (zf_of os d variant reliable (some chain) pem manifest)
            ≡ some token
      unfolding members_of pack_files
      read-token manifest =
          let later = read_member-cons tsa_token_filename token in
          later _ _ (
            later _ _ (
              later _ _
                (later _ _ (later _ _ (later _ _ (later _ _ (later _ _ (later _ _ read-extra))))))))

      -- A pack of a captured page with a token passes, if openssl accepts the token over the digest of
      -- the page, and the result names the digest, the authority and the time of the event. The
      -- conditions: the platform is reliable; the upload is the bytes that `evidence_zip` returns,
      -- within the limits of `verify_pack`; every value of the manifest, the reviewer's name too, fits
      -- on one line without a blank at its ends; and every name and digest in it is one word that
      -- starts neither with "[" nor with "T".
      pub verify_pack-evidence_zip :
          (bytes : String)
          → os.openssl_verify token (os.sha256 (os.encode html)) chain ≡ true
          → evidence_zip os d variant ≡ ok bytes
          → IsReadable (some chain) bytes
          → verify_pack os bytes ≡ record {
            passed = true;
            message = pass;
            manifest_version = some 2;
            content_hash = some (os.sha256 (os.encode html));
            timestamp_status = some "timestamped";
            tsa_authority_url = some url;
            tsa_time_utc = some (iso_or_na os d.event.tsa_time_utc);
            tsa_cert_window = os.cert_window chain;
          }
      verify_pack-evidence_zip bytes accepted built readable =
          let (manifest, checked) =
            verify_pack-named os d variant reliable (some chain) pem bytes chain_of-stamped built
              readable.fits readable.safe readable.values readable.words in
          let zf = zf_of os d variant reliable (some chain) pem manifest in
          checked
          ∙ verify_fields-named zf (parsed_of (some chain)) refl
          ∙ verify_named-pass os zf (parsed_of (some chain)) "after.html" (os.encode html)
              tsa_token_filename token url chain _ names_a_hash
              (read-after os d variant reliable (some chain) pem manifest ∙ ap some captured-page)
              (status-named timestamped stamp.status) token_file-named refl (read-token manifest)
              authority-named time-named chain_path-named accepted

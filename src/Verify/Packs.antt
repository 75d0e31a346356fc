-- ===== src/Verify/Packs.antt =====
-- A pack that `evidence_zip` builds, handed to `verify_pack`.
use truthpage.Prelude.{
  >>=-eq-ok, All-append, List, Option, String, [], ap, false, if_ind, ltb, map, none, ok,
  or_unchanged, refl, some, str_eq, sym, ◌<>◌, ◌∙◌, ◌∷◌, ◌≡◌,
}
use truthpage.Notice.{size}
use truthpage.Platform.{Member, Platform}
use truthpage.Notification.{is_truthy}
use truthpage.Evidence.{last_char}
use truthpage.Evidence.Manifest.{
  Dossier, Variant, by_name, delivery_log_filename, full, is_positive, notice_filename, redacted,
  render_manifest_v2, tsa_token_filename,
}
use truthpage.Evidence.Parse.{Parsed, detect_manifest_version, parse_manifest_v2}
use truthpage.Evidence.RoundTrip.{AllValues, AllWords}
use truthpage.Evidence.Pack.{
  captured, chain_of, evidence_zip, extra_files, log_file, members_of, notice_file, other_files,
  pack_files, pack_hashes, token_files,
}
use truthpage.Evidence.Written.{detect-render_manifest_v2, parse-render_manifest_v2}
use truthpage.Evidence.Schema.{schema_fields}
use truthpage.Verify.{
  guarded, max_upload_bytes, read_member, verify_fields, verify_members, verify_opened, verify_pack,
  verify_v2, zip_bomb_guard,
}
use truthpage.Verify.Named.{IsAbsent, IsReliable, read_member-stored, stored}
use truthpage.Verify.Chains.{pem-ne}

module _ (os : Platform) (d : Dossier) (variant : Variant) where
  token_files-IsAbsent :
      (name : String) (chain : Option String)
      → ((filename : String) → chain ≡ some filename → str_eq filename name ≡ false)
      → str_eq tsa_token_filename name ≡ false
      → IsAbsent name (token_files os chain d.event)
  unfolding token_files
  token_files-IsAbsent name none other token = tt
  token_files-IsAbsent name (some filename) other token =
      if_ind (IsAbsent name) (is_truthy d.event.tsa_token) (λ _. (token, (other filename refl, tt)))
        (λ _. tt)

  pub notice_file-IsAbsent :
      (name : String) → str_eq notice_filename name ≡ false → IsAbsent name (notice_file os d.event)
  unfolding notice_file
  notice_file-IsAbsent name notice =
      if_ind (IsAbsent name) (is_truthy d.event.notice_frozen_body) (λ _. (notice, tt)) (λ _. tt)

  pub log_file-IsAbsent :
      (name : String)
      → str_eq (delivery_log_filename variant) name ≡ false
      → IsAbsent name (log_file os d variant)
  unfolding log_file
  log_file-IsAbsent name log =
      if_ind (IsAbsent name) (is_positive d.event.recipient_count) (λ _. (log, tt)) (λ _. tt)

  -- A name that none of the files has which only some packs hold.
  pub extra_files-IsAbsent :
      (name : String) (chain : Option String)
      → ((filename : String) → chain ≡ some filename → str_eq filename name ≡ false)
      → str_eq tsa_token_filename name ≡ false
      → str_eq notice_filename name ≡ false
      → str_eq (delivery_log_filename variant) name ≡ false
      → IsAbsent name (extra_files os d chain variant)
  extra_files-IsAbsent name chain other token notice log =
      All-append _ (token_files os chain d.event) _ (token_files-IsAbsent name chain other token) (
        All-append _ (notice_file os d.event) _ (notice_file-IsAbsent name notice)
          (log_file-IsAbsent name log))

  -- What `evidence_zip` wrote.
  evidence_zip-ok :
      (chain : Option String) (bytes : String)
      → chain_of os d.event ≡ ok chain
      → evidence_zip os d variant ≡ ok bytes
      → (manifest : String) × (render_manifest_v2 os d
            (pack_hashes os (pack_files os d chain variant))
            variant
          ≡ ok manifest)
        × (os.zip_bytes (members_of os manifest (pack_files os d chain variant)) ≡ bytes)
  unfolding evidence_zip
  evidence_zip-ok chain bytes chained returned =
      let files = pack_files os d chain variant in
      let (manifest, rendered, written) =
        >>=-eq-ok (render_manifest_v2 os d (pack_hashes os files) variant) _
          (rw chained at returned) in
      (manifest, rendered, ap (or_unchanged bytes) written)

  pub log_name :
      (name : String)
      → str_eq "delivery_log_redacted.csv" name ≡ false
      → str_eq "delivery_log_full.csv" name ≡ false
      → str_eq (delivery_log_filename variant) name ≡ false
  log_name name short long = elim variant as (λ v. str_eq (delivery_log_filename v) name ≡ false) [
    | redacted ↦ short
    | full ↦ long
  ]

  module _ (reliable : IsReliable os) (chain : Option String)
      (pem : (filename : String)
        → chain ≡ some filename
        → (stem : String) × (filename ≡ stem <> ".pem")) where
    pub chain-ne :
        (name : String)
        → str_eq (last_char name) "m" ≡ false
        → (filename : String) → chain ≡ some filename
        → str_eq filename name ≡ false
    chain-ne name other filename same =
        let (stem, e) = pem filename same in rw e (pem-ne stem name other)

    pub other_files-IsAbsent :
        (name : String)
        → str_eq (last_char name) "m" ≡ false
        → str_eq "before.txt" name ≡ false
        → str_eq "after.txt" name ≡ false
        → str_eq "diff.txt" name ≡ false
        → str_eq "verify.sh" name ≡ false
        → str_eq "README.txt" name ≡ false
        → str_eq tsa_token_filename name ≡ false
        → str_eq notice_filename name ≡ false
        → str_eq "delivery_log_redacted.csv" name ≡ false
        → str_eq "delivery_log_full.csv" name ≡ false
        → IsAbsent name (other_files os d chain variant)
    other_files-IsAbsent name ending a b c e f token notice short long = (
      a,
      (
        b,
        (
          c,
          (
            e,
            (
              f,
              extra_files-IsAbsent name chain (chain-ne name ending) token notice
                  (log_name name short long),
            ),
          ),
        ),
      ),
    )

    abbrev pub digest_line : String → String × String
    digest_line manifest = ("manifest.sha256", os.encode (os.sha256 (os.encode manifest) <> "\n"))

    -- The members of the archive, read back.
    abbrev pub zf_of : String → List Member
    zf_of manifest = map stored (members_of os manifest (pack_files os d chain variant))

    read-manifest :
        (manifest : String)
        → read_member "manifest.txt" (zf_of manifest) ≡ some (os.encode manifest)
    unfolding members_of pack_files
    read-manifest manifest =
        read_member-stored "manifest.txt" (os.encode manifest) []
          (digest_line manifest
            ∷ ("before.html", captured os d.event.old_raw_html)
            ∷ ("after.html", captured os d.event.new_raw_html)
            ∷ other_files os d chain variant)
          refl
          (
            refl,
            (
              refl,
              (
                refl,
                other_files-IsAbsent "manifest.txt" refl refl refl refl refl refl refl refl refl
                    refl,
              ),
            ),
          )

    pub read-after :
        (manifest : String)
        → read_member "after.html" (zf_of manifest) ≡ some (captured os d.event.new_raw_html)
    unfolding members_of pack_files
    read-after manifest =
        read_member-stored "after.html" (captured os d.event.new_raw_html)
          (("manifest.txt", os.encode manifest)
            ∷ digest_line manifest
            ∷ ("before.html", captured os d.event.old_raw_html)
            ∷ [])
          (other_files os d chain variant) refl
          (other_files-IsAbsent "after.html" refl refl refl refl refl refl refl refl refl refl)

    -- An archive within the limits is read as far as its manifest.
    verify_pack-opened :
        (bytes : String) (zf : List Member)
        → ltb max_upload_bytes (size bytes) ≡ false
        → os.zip_members bytes ≡ some zf
        → zip_bomb_guard zf ≡ none
        → verify_pack os bytes ≡ verify_members os zf
    unfolding verify_pack verify_opened guarded
    verify_pack-opened bytes zf fits opened safe =
        rw fits (ap (verify_opened os) opened ∙ ap (guarded os zf) safe)

    verify_members-v2 :
        (zf : List Member) (manifest : String) (parsed : Parsed)
        → read_member "manifest.txt" zf ≡ some (os.encode manifest)
        → detect_manifest_version manifest ≡ 2
        → parse_manifest_v2 manifest ≡ parsed
        → verify_members os zf ≡ verify_fields os zf parsed
    unfolding verify_members verify_v2
    verify_members-v2 zf manifest parsed there version same =
        rw (there, verify_members)
          (rw (reliable.decode-encode manifest, version) (ap (verify_fields os zf) same))

    -- The pack is opened, its manifest is one of version 2, and the named file is checked.
    pub verify_pack-named :
        (bytes : String)
        → chain_of os d.event ≡ ok chain
        → evidence_zip os d variant ≡ ok bytes
        → ltb max_upload_bytes (size bytes) ≡ false
        → ((zf : List Member) → os.zip_members bytes ≡ some zf → zip_bomb_guard zf ≡ none)
        → AllValues (schema_fields os d variant)
        → AllWords (pack_hashes os (pack_files os d chain variant))
        → (manifest : String) × (verify_pack os bytes
            ≡ verify_fields os (zf_of manifest) (record {
              fields = schema_fields os d variant;
              pack_contents = by_name (pack_hashes os (pack_files os d chain variant));
            }))
    verify_pack-named bytes chained built fits safe values words =
        let files = pack_files os d chain variant in
        let (manifest, rendered, written) = evidence_zip-ok chain bytes chained built in
        let opened : os.zip_members bytes ≡ some (zf_of manifest) =
          ap os.zip_members (sym written) ∙ reliable.zip_members-zip_bytes _ in
        (
          manifest,
          verify_pack-opened bytes (zf_of manifest) fits opened (safe _ opened)
              ∙ verify_members-v2 (zf_of manifest) manifest _ (read-manifest manifest)
                  (detect-render_manifest_v2 os d (pack_hashes os files) variant manifest rendered)
                  (parse-render_manifest_v2 os d (pack_hashes os files) variant manifest values
                    words rendered),
        )

-- ===== src/Verify/Safe.antt =====
-- What stands behind a check that passes, whatever was uploaded.
use truthpage.Prelude.{
  Bool-cases, List, Option, Option-cases, String, [], ap, arith, false, get_or, if_ind, inl, inr,
  ltb, none, refl, some, str_eq_iff, sym, true, ℕ, ◌==◌, ◌∷◌, ◌≡◌, ◌⊎◌,
}
use truthpage.Platform.{Member, Platform}
use truthpage.TsaChains.{chain_path_for_authority}
use truthpage.Evidence.Parse.{Parsed, detect_manifest_version, get, parse_manifest_v2}
use truthpage.Notice.{size}
use truthpage.Verify.{
  Message, VerifyResult, after_hash, after_v1, anchor_hash, check_timestamp, check_token,
  file_too_large, guarded, hash_and_check, max_upload_bytes, names_no_hash, no_timestamp,
  no_v2_hash, pass, read_member, refused, run_openssl_verify, says_timestamped, token_of,
  verify_fields, verify_members, verify_named, verify_opened, verify_pack, verify_v1, verify_v2,
  zip_bomb_guard,
}

module _ (os : Platform) where
  -- A member of the archive has the digest of the result.
  pub record IsBacked (zf : List Member) (r : VerifyResult) : Type 0 where
    pub filename : String
    pub content : String
    pub is_member : read_member filename zf ≡ some content
    pub has_digest : r.content_hash ≡ some (os.sha256 content)

  -- A member of the archive is a token that openssl accepts over the digest of the result, against the
  -- program's own chain of the authority of the result.
  pub record IsStamped (zf : List Member) (r : VerifyResult) : Type 0 where
    pub token_name : String
    pub token : String
    pub digest : String
    pub chain : String
    pub is_member : read_member token_name zf ≡ some token
    pub is_digest : r.content_hash ≡ some digest
    pub is_chain : chain_path_for_authority os r.tsa_authority_url ≡ some chain
    pub accepted : os.openssl_verify token digest chain ≡ true

  -- The result says that there is a timestamp.
  abbrev ClaimsStamp : VerifyResult → Type 0
  ClaimsStamp r = (says_timestamped r.timestamp_status ≡ true) ⊎ (r.message ≡ pass)

  -- The word "timestamped" goes with a token that was checked.
  abbrev pub IsSound : List Member → VerifyResult → Type 0
  IsSound zf r = r.passed ≡ true → IsBacked zf r × (ClaimsStamp r → IsStamped zf r)

  hash_and_check-none :
      (zf : List Member) (filename expected : String)
      → hash_and_check os zf filename expected ≡ none
      → (content : String) × (read_member filename zf ≡ some content)
        × (os.sha256 content ≡ expected)
  unfolding hash_and_check
  hash_and_check-none zf filename expected checked = elim (Option-cases (read_member filename zf)) [
    | inl e ↦ absurd (ground arith)
    | inr (content, e) ↦ (content, e, ground (arith, str_eq_iff (os.sha256 content) expected))
  ]

  accepted_by :
      (token digest chain : String)
      → (run_openssl_verify os token digest (chain ∷ [])).0 ≡ true
      → os.openssl_verify token digest chain ≡ true
  unfolding run_openssl_verify
  accepted_by token digest chain verified =
      elim (Bool-cases (os.openssl_verify token digest chain)) [
        | inl e ↦ e
        | inr e ↦ absurd (ground arith)
      ]

  passed_stamp :
      (zf : List Member) (parsed : Parsed) (expected token_name token filename content : String)
      (chain : Option String)
      → read_member token_name zf ≡ some token
      → read_member filename zf ≡ some content
      → os.sha256 content ≡ expected
      → chain_path_for_authority os (get "tsa_authority_url" parsed.fields) ≡ chain
      → IsSound zf (check_token os parsed expected token chain)
  unfolding check_token
  passed_stamp zf parsed expected token_name token filename content none there is_file digest
        named =
      λ passed. absurd (ground arith)
  passed_stamp zf parsed expected token_name token filename content (some chain) there is_file
        digest named =
      elim (Bool-cases (run_openssl_verify os token expected (chain ∷ [])).0) [
        | inl e ↦ rw e λ _. (
          record {
            filename = filename;
            content = content;
            is_member = is_file;
            has_digest = ap some (sym digest);
          },
          λ _. record {
            token_name = token_name;
            token = token;
            digest = expected;
            chain = chain;
            is_member = there;
            is_digest = refl;
            is_chain = named;
            accepted = accepted_by token expected chain e;
          },
        )
        | inr e ↦ rw e λ passed. absurd (ground arith)
      ]

  token_of-some :
      (zf : List Member) (name : Option String) (token : String)
      → token_of os zf name ≡ some token
      → (found : String) × (read_member found zf ≡ some token)
  unfolding token_of
  token_of-some zf none token found = absurd (ground arith)
  token_of-some zf (some name) token found = (name, ground arith)

  check_timestamp-IsSound :
      (zf : List Member) (parsed : Parsed) (expected filename content : String)
      → read_member filename zf ≡ some content
      → os.sha256 content ≡ expected
      → IsSound zf (check_timestamp os zf parsed expected)
  unfolding check_timestamp
  check_timestamp-IsSound zf parsed expected filename content is_file digest =
      elim (Option-cases (token_of os zf (get "tsa_token_file" parsed.fields))) [
        | inl e ↦ rw (e, check_timestamp) λ passed. absurd (ground arith)
        | inr (token, e) ↦
            let (token_name, there) =
              token_of-some zf (get "tsa_token_file" parsed.fields) token e in
            rw (e, check_timestamp)
              (passed_stamp zf parsed expected token_name token filename content _ there is_file
                digest refl)
      ]

  refused-IsSound :
      (zf : List Member) (message : Message) (version : Option ℕ)
      → IsSound zf (refused message version)
  refused-IsSound zf message version passed = absurd (ground arith)

  unstamped-IsSound :
      (zf : List Member) (status : Option String) (content filename expected : String)
      → read_member filename zf ≡ some content
      → os.sha256 content ≡ expected
      → says_timestamped status ≡ false
      → IsSound zf (record (refused no_timestamp (some 2)) {
        passed = true;
        content_hash = some expected;
        timestamp_status = status;
      })
  unstamped-IsSound zf status content filename expected is_file digest silent _ = (
    record {
      filename = filename;
      content = content;
      is_member = is_file;
      has_digest = ap some (sym digest);
    },
    λ claim. elim claim [ inl said ↦ absurd (ground arith) | inr m ↦ absurd (ground arith) ],
  )

  after_hash-IsSound :
      (zf : List Member) (parsed : Parsed) (filename expected : String)
      → IsSound zf (after_hash os zf parsed expected (hash_and_check os zf filename expected))
  unfolding after_hash
  after_hash-IsSound zf parsed filename expected =
      elim (Option-cases (hash_and_check os zf filename expected)) [
        | inr (message, e) ↦ rw e λ passed. absurd (ground arith)
        | inl e ↦
            let (content, is_file, digest) = hash_and_check-none zf filename expected e in
            rw e (
              if_ind (IsSound zf) (says_timestamped (get "timestamp_status" parsed.fields))
                (λ _. check_timestamp-IsSound zf parsed expected filename content is_file digest)
                (λ s.
                  unstamped-IsSound zf (get "timestamp_status" parsed.fields) content filename
                    expected is_file digest s))
      ]

  verify_named-IsSound :
      (zf : List Member) (parsed : Parsed) (after_file expected : String)
      → IsSound zf (verify_named os zf parsed after_file expected)
  unfolding verify_named
  verify_named-IsSound zf parsed after_file expected =
      if_ind (IsSound zf) (names_no_hash after_file expected)
        (λ _. refused-IsSound zf no_v2_hash (some 2))
        (λ _. after_hash-IsSound zf parsed after_file expected)

  verify_v2-IsSound : (zf : List Member) (manifest : String) → IsSound zf (verify_v2 os zf manifest)
  unfolding verify_v2 verify_fields
  verify_v2-IsSound zf manifest =
      verify_named-IsSound zf (parse_manifest_v2 manifest)
        (get_or (get "after_html_file" (parse_manifest_v2 manifest).fields) "")
        (get_or (get "after_sha256" (parse_manifest_v2 manifest).fields) "")

  verify_v1-IsSound : (zf : List Member) (manifest : String) → IsSound zf (verify_v1 os zf manifest)
  unfolding verify_v1 after_v1
  verify_v1-IsSound zf manifest = elim (Option-cases (anchor_hash manifest)) [
    | inl e ↦ rw (e, verify_v1) λ passed. absurd (ground arith)
    | inr (expected, e) ↦
        rw (e, verify_v1)
          (elim (Option-cases (hash_and_check os zf "after.html" expected)) [
            | inr (message, f) ↦ rw f λ passed. absurd (ground arith)
            | inl f ↦
                let (content, is_file, digest) = hash_and_check-none zf "after.html" expected f in
                rw f λ _. (
                  record {
                    filename = "after.html";
                    content = content;
                    is_member = is_file;
                    has_digest = ap some (sym digest);
                  },
                  λ claim. elim claim [
                    | inl said ↦ absurd (ground arith)
                    | inr m ↦ absurd (ground arith)
                  ],
                )
          ])
  ]

  verify_members-IsSound : (zf : List Member) → IsSound zf (verify_members os zf)
  unfolding verify_members
  verify_members-IsSound zf = elim (Option-cases (read_member "manifest.txt" zf)) [
    | inl e ↦ rw (e, verify_members) λ passed. absurd (ground arith)
    | inr (manifest, e) ↦
        rw (e, verify_members)
          (if_ind (IsSound zf) (detect_manifest_version (os.decode manifest) == 1)
            (λ _. verify_v1-IsSound zf (os.decode manifest))
            (λ _. verify_v2-IsSound zf (os.decode manifest)))
  ]

  -- What an upload that passes is made of: an archive that the guard lets through, with a member of
  -- the digest of the result, and with a token if the result claims one.
  pub record IsGenuine (upload : String) (r : VerifyResult) : Type 0 where
    pub zf : List Member
    pub opened : os.zip_members upload ≡ some zf
    pub safe : zip_bomb_guard zf ≡ none
    pub backed : IsBacked zf r
    pub stamped : ClaimsStamp r → IsStamped zf r

  abbrev Genuine : String → VerifyResult → Type 0
  Genuine upload r = r.passed ≡ true → IsGenuine upload r

  refused-Genuine : {upload : String} → Genuine upload (refused file_too_large none)
  refused-Genuine passed = absurd (ground arith)

  guarded-Genuine :
      (upload : String) (zf : List Member) (verdict : Option Message)
      → os.zip_members upload ≡ some zf
      → zip_bomb_guard zf ≡ verdict
      → Genuine upload (guarded os zf verdict)
  unfolding guarded
  guarded-Genuine upload zf (some message) opened judged = λ passed. absurd (ground arith)
  guarded-Genuine upload zf none opened judged = λ passed.
      let (backed, stamped) = verify_members-IsSound zf passed in
      record { zf = zf; opened = opened; safe = judged; backed = backed; stamped = stamped }

  opened-Genuine :
      (upload : String) (members : Option (List Member))
      → os.zip_members upload ≡ members
      → Genuine upload (verify_opened os members)
  unfolding verify_opened
  opened-Genuine upload none read = λ passed. absurd (ground arith)
  opened-Genuine upload (some zf) read = guarded-Genuine upload zf (zip_bomb_guard zf) read refl

  -- A check that passes is never for nothing. The upload is an archive within the limits, one of its
  -- files has the digest that the result names, and if the result speaks of a timestamp then a file
  -- of the archive is a token that openssl accepts over that digest, against the chain that the
  -- program itself holds for the authority that the result names.
  pub verify_pack-IsGenuine :
      (upload : String)
      → (verify_pack os upload).passed ≡ true
      → IsGenuine upload (verify_pack os upload)
  unfolding verify_pack
  verify_pack-IsGenuine upload =
      if_ind (Genuine upload) (ltb max_upload_bytes (size upload)) (λ _. refused-Genuine)
        (λ _. opened-Genuine upload (os.zip_members upload) refl)

-- ===== src/Verify/Named.antt =====
-- The members of a pack as they are read back, and the check of named members.
use truthpage.Prelude.{
  All, List, Option, String, [], ap, arith, false, map, none, refl, some, str_eq, true, ◌++◌, ◌∙◌,
  ◌∷◌, ◌≡◌,
}
use truthpage.Notice.{size}
use truthpage.Platform.{Member, Platform}
use truthpage.TsaChains.{chain_path_for_authority}
use truthpage.Evidence.Parse.{Parsed, get}
use truthpage.Verify.{
  after_hash, check_timestamp, check_token, hash_and_check, names_no_hash, no_timestamp, pass,
  read_member, run_openssl_verify, token_of, verify_named,
}
use text.Mathlib.TextPositions.{eq_refl}

-- A member as `zipfile` reads it back.
abbrev pub stored : String × String → Member
stored (name, content) = record { filename = name; file_size = size content; content = content }

-- What the program relies on: UTF-8 is undone, an archive holds what was written to it, and a digest is
-- a text of hexadecimal digits.
pub record IsReliable (os : Platform) : Type 0 where
  pub decode-encode : (text : String) → os.decode (os.encode text) ≡ text
  pub zip_members-zip_bytes :
      (members : List (String × String))
      → os.zip_members (os.zip_bytes members) ≡ some (map stored members)
  pub digest-filled : (bytes : String) → str_eq (os.sha256 bytes) "" ≡ false
  pub digest-available : (bytes : String) → str_eq (os.sha256 bytes) "not_available" ≡ false

-- No member has this name.
abbrev pub IsAbsent : String → List (String × String) → Type 0
IsAbsent name members = All (λ m. str_eq m.0 name ≡ false) members

pub read_member-absent :
    (name : String) (members : List (String × String))
    → IsAbsent name members
    → read_member name (map stored members) ≡ none
unfolding read_member
read_member-absent name [] absent = refl
read_member-absent name (m ∷ members) (other, absent) =
    ground (arith, read_member-absent name members absent)

-- What is read of the later members is read of all.
pub read_member-cons :
    (name content : String) (m : Member) (members : List Member)
    → read_member name members ≡ some content
    → read_member name (m ∷ members) ≡ some content
unfolding read_member
read_member-cons name content m members later = rw later refl

-- The last member of a name is read.
pub read_member-stored :
    (name content : String) (front back : List (String × String))
    → str_eq name name ≡ true
    → IsAbsent name back
    → read_member name (map stored (front ++ (name, content) ∷ back)) ≡ some content
unfolding read_member
read_member-stored name content [] back same absent =
    rw (read_member-absent name back absent, same) refl
read_member-stored name content (m ∷ front) back same absent =
    ground (arith, read_member-stored name content front back same absent)

module _ (os : Platform) where
  hash_and_check-member :
      (zf : List Member) (filename content : String)
      → read_member filename zf ≡ some content
      → hash_and_check os zf filename (os.sha256 content) ≡ none
  unfolding hash_and_check
  hash_and_check-member zf filename content there =
      rw (there, hash_and_check) (rw (eq_refl (os.sha256 content)) refl)

  verify_named-after_hash :
      (zf : List Member) (parsed : Parsed) (after_file content : String)
      → names_no_hash after_file (os.sha256 content) ≡ false
      → read_member after_file zf ≡ some content
      → verify_named os zf parsed after_file (os.sha256 content)
        ≡ after_hash os zf parsed (os.sha256 content) none
  unfolding verify_named
  verify_named-after_hash zf parsed after_file content named there = rw named (
      ap (after_hash os zf parsed (os.sha256 content))
        (hash_and_check-member zf after_file content there))

  token_of-member :
      (zf : List Member) (named : Option String) (name token : String)
      → named ≡ some name
      → str_eq name "" ≡ false
      → read_member name zf ≡ some token
      → token_of os zf named ≡ some token
  unfolding token_of
  token_of-member zf named name token same filled there = rw same (rw filled there)

  check_timestamp-token :
      (zf : List Member) (parsed : Parsed) (expected token : String)
      → token_of os zf (get "tsa_token_file" parsed.fields) ≡ some token
      → check_timestamp os zf parsed expected
        ≡ check_token os parsed expected token
            (chain_path_for_authority os (get "tsa_authority_url" parsed.fields))
  unfolding check_timestamp
  check_timestamp-token zf parsed expected token found = rw (found, check_timestamp) refl

  check_token-accepted :
      (parsed : Parsed) (expected token url chain : String) (time : Option String)
      → get "timestamp_status" parsed.fields ≡ some "timestamped"
      → get "tsa_authority_url" parsed.fields ≡ some url
      → get "tsa_time_utc" parsed.fields ≡ time
      → os.openssl_verify token expected chain ≡ true
      → check_token os parsed expected token (some chain) ≡ record {
        passed = true;
        message = pass;
        manifest_version = some 2;
        content_hash = some expected;
        timestamp_status = some "timestamped";
        tsa_authority_url = some url;
        tsa_time_utc = time;
        tsa_cert_window = os.cert_window chain;
      }
  unfolding check_token run_openssl_verify
  check_token-accepted parsed expected token url chain time status authority timed accepted =
      rw (accepted, status, authority, timed) refl

  -- A check of named files: the digest fits, and openssl accepts the token.
  pub verify_named-pass :
      (zf : List Member) (parsed : Parsed) (after_file content token_name token url chain : String)
      (time : Option String)
      → names_no_hash after_file (os.sha256 content) ≡ false
      → read_member after_file zf ≡ some content
      → get "timestamp_status" parsed.fields ≡ some "timestamped"
      → get "tsa_token_file" parsed.fields ≡ some token_name
      → str_eq token_name "" ≡ false
      → read_member token_name zf ≡ some token
      → get "tsa_authority_url" parsed.fields ≡ some url
      → get "tsa_time_utc" parsed.fields ≡ time
      → chain_path_for_authority os (some url) ≡ some chain
      → os.openssl_verify token (os.sha256 content) chain ≡ true
      → verify_named os zf parsed after_file (os.sha256 content) ≡ record {
        passed = true;
        message = pass;
        manifest_version = some 2;
        content_hash = some (os.sha256 content);
        timestamp_status = some "timestamped";
        tsa_authority_url = some url;
        tsa_time_utc = time;
        tsa_cert_window = os.cert_window chain;
      }
  unfolding verify_named hash_and_check after_hash check_timestamp token_of check_token
      run_openssl_verify
  verify_named-pass zf parsed after_file content token_name token url chain time named there status
        tn filled token_there authority timed trusted accepted =
      verify_named-after_hash zf parsed after_file content named there
      ∙ rw (status, after_hash)
          (check_timestamp-token zf parsed (os.sha256 content) token
              (token_of-member zf _ token_name token tn filled token_there)
            ∙ ap (check_token os parsed (os.sha256 content) token)
                (ap (chain_path_for_authority os) authority ∙ trusted)
            ∙ check_token-accepted parsed (os.sha256 content) token url chain time status authority
                timed accepted)

  pub verify_named-no_timestamp :
      (zf : List Member) (parsed : Parsed) (after_file content status : String)
      → names_no_hash after_file (os.sha256 content) ≡ false
      → read_member after_file zf ≡ some content
      → get "timestamp_status" parsed.fields ≡ some status
      → str_eq status "timestamped" ≡ false
      → verify_named os zf parsed after_file (os.sha256 content) ≡ record {
        passed = true;
        message = no_timestamp;
        manifest_version = some 2;
        content_hash = some (os.sha256 content);
        timestamp_status = some status;
        tsa_authority_url = none;
        tsa_time_utc = none;
        tsa_cert_window = none;
      }
  unfolding verify_named hash_and_check after_hash
  verify_named-no_timestamp zf parsed after_file content status named there said other =
      verify_named-after_hash zf parsed after_file content named there ∙ rw (said, other) refl
